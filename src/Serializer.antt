-- ===== src/Serializer.antt =====
-- edge/middleware/serializer/protobuf_serializer.c: the encoder on the device. A function that
-- writes to `out` and returns the count is one that returns the bytes written.
pub mod Wire
pub mod Telemetry
pub mod Sizes
pub mod Bounds
