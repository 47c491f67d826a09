-- ===== src/Decoder.antt =====
-- server/core/telemetry/proto_decoder.go: the Protocol Buffers decoder of telemetry messages.
pub mod Outcome
pub mod Reader
pub mod Messages
pub mod Reads
pub mod Takes
pub mod Fields
pub mod Forms
pub mod Parts
pub mod Root
pub mod Device
pub mod Hostile
pub mod Progress
pub mod Prefix
pub mod Moves
pub mod Termination
pub mod Ends
