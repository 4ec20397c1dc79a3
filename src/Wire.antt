-- ===== src/Wire.antt =====
-- The binary envelope, core/service/websocket/wire.
pub mod Frame
pub mod Encode
pub mod Decode
mod Cursor
pub mod Readers
pub mod RoundTrip
pub mod Safety
