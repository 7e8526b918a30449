-- ===== src/Position.antt =====
-- Encodings of a position, engine-core/positionid.c and positionid.h.
pub mod Key
pub mod Check
pub mod Closest
pub mod Id
pub mod Encode
pub mod Bearoff
pub mod Xg
pub mod Examples
