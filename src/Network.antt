-- ===== src/Network.antt =====
-- src/network.c: the response of a connection, from the calls that fill it to the bytes on the wire.
pub mod Epd
pub mod Chunk
pub mod Clear
pub mod Build
pub mod End
pub mod Flush
pub mod Header
pub mod Read
pub mod Reader
pub mod Send
pub mod Write
