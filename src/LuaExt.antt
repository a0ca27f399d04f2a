-- ===== src/LuaExt.antt =====
-- src/lua-ext.c: the functions by which a Lua program reads a request and writes its response, for a
-- connection that is no websocket and is found by its Lua thread.
pub mod Body
pub mod Echo
pub mod Header
pub mod Drain
