-- ===== src/Wire.antt =====
-- The PAR wire format (experiments/g0-wire/par_wire).
pub mod Error
pub mod Value
pub mod Utf8
pub mod Head
pub mod Encode
pub mod Decode
pub mod Canonical
pub mod Codec
pub mod Normal
pub mod Schema
pub mod Framing
pub mod Replay
pub mod Paging
pub mod Session
pub mod Frame
