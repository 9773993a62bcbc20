-- ===== src/Wire.antt =====
-- include/eshet/parse.hpp and include/eshet/unpack.hpp: messages as bytes.
pub mod Parser
pub mod SendBuf
pub mod Unpacker
