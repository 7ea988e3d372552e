-- ===== src/Common.antt =====
-- crates/common: the types, codecs and parsers that the daemon and the relay share.
pub mod Ws
pub mod Origin
pub mod NormalPath
pub mod Sections
