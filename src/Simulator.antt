-- ===== src/Simulator.antt =====
-- tools/simulator/main.go: the device that runs against the server.
pub mod Environment
pub mod Device
pub mod Battery
pub mod Ends
pub mod Image
pub mod Link
pub mod Delivered
pub mod UpToDate
pub mod Recorded
pub mod Upgraded
pub mod Main
