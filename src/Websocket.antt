-- ===== src/Websocket.antt =====
-- src/websocket.c: frames on an upgraded connection, received and sent.
pub mod Api
pub mod Frame
pub mod Receive
pub mod Transmit
