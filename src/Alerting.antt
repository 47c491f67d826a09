-- ===== src/Alerting.antt =====
-- server/core/alerting: the rule engine and its alerts.
pub mod Rules
pub mod Engine
pub mod Verdicts
pub mod Records
pub mod Webhook
