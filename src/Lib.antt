-- ===== src/Lib.antt =====
-- aLiLua, a web server that runs Lua: a model of the C code that moves bytes between the sockets
-- and Lua, and of the string functions that Lua calls.
--
-- The files and the code they model (paths from the repository's root):
--   Network/Epd       the connection, `epdata_t` of src/network.h
--   Network/Header    `network_send_header` of src/network.c: the head of a response
--   Network/Send      `network_send` of src/network.c: a response is collected in buffers
--   Network/Build     `network_build_header_out`: the head of a response is completed
--   Network/Chunk     `network_add_chunk_metas`: the buffers become a chunk
--   Network/Reader, Network/Read
--                     `network_be_read`: a request is received and its job started
--   Network/Clear     `network_be_read_on_clear`, `send_100_continue_then_process` and the end of a
--                     request, `network_end_process`
--   Network/End       `network_be_end`: a response is ended
--   Network/Flush     `network_flush`: a part of a response is sent
--   Network/Write     `network_be_write` of src/network.c: the buffers are put on the wire
--   Request           the first part of `worker_process` of src/worker.c: the head of a request,
--                     and its cookies
--   Websocket/Frame   the head of a frame and the masking of src/websocket.c
--   Websocket/Receive `websocket_be_read`: the frames of a client are handed to Lua
--   Websocket/Transmit `ws_send_data` and `websocket_be_write`: frames are sent
--   Websocket/Api     `lua_f_websocket_send`: the frames that Lua sends
--   LuaThreads        the pool of src/lua-threads.c, and what it forgets of a request's globals
--   Vhost             the list of virtual hosts of src/vhost.c and the lookup in it
--   CachedNtoa        `cached_ntoa` of src/cached-ntoa.c, over an interface of the tree
--   CachedAccess      `cached_access` of src/cached-access.c, over an interface of the tree
--   LuaExt/Header     `lua_header` and `lua_clear_header` of src/lua-ext.c: the head that a program sets
--   LuaExt/Echo       `_lua_echo` and `send_then_send` of src/lua-ext.c: the output of a Lua program
--   LuaExt/Drain      these with `network_be_write`: output that is larger than the buffers
--   LuaExt/Body       `lua_read_request_body` and `network_be_read_request_body` of src/lua-ext.c: a
--                     Lua program reads the body of a request
--   Client            `close_client` and `timeout_handle` of src/worker.c and
--                     `lua_f_check_websocket_close` of src/websocket.c, as far as the counters go
--   StatusLine        the reason phrases of `network_send_error` of src/network-util.c
--   ServStatus        `serv_status_t`, `sync_serv_status` of src/network-util.c and the counters
--                     in `on_exit_handler` of src/worker.c
--   Base64, Escape, Strip, Nl2br, Iconv
--                     the functions of these names of deps/string_utils.c
--   Samples           data for the runs in `Tests`
--   Prelude, LuaText, CString
--                     what these share: bytes, lists, integers, arrays; `lua_concat`; `strtok_r` and
--                     other functions of the C library
-- A module `Laws`, or one named for what it proves, stands beside each of them, and `Tests` holds
-- runs of the functions and the theorems at concrete inputs.
--
-- How they interact: `network_be_read` collects a request and calls `worker_process`, to whose reading
-- of the head its theorems lead; that reads the head of a request into the connection and takes a
-- Lua thread of the pool; the program's output goes through `network_send_header` and
-- `network_send`, which append to `iov[0]`, and to `iov[1]` and the buffers behind it, until `writev`
-- is called by `network_be_write`, which reads the same buffers; all keep the connection in `Epd`.
-- `_lua_echo` hands the output to `network_send` and, when the buffers are full, to `network_flush`;
-- what did not fit waits for `send_then_send`, which `network_be_write` calls when the buffers are on
-- the wire: LuaExt/Drain puts these together, with one list of answers for each call.
-- `network_be_end` and `network_flush` complete the head, make a chunk of the body if the response
-- is chunked, and leave head and body in the buffers for `network_be_write`: their theorems give the
-- state that those on `network_be_write` start from. `network_be_end`, `network_be_write`, the
-- websocket code and the closing of connections change the counters of `ServStatus`, which
-- `sync_serv_status` adds to the shared ones.
--
-- The model. A byte is a natural number below 256, a string a list of bytes, and a buffer the list
-- of the bytes written to it. Functions that change a structure return the changed one. The
-- answers of `recv`, `send` and `writev` are a list that is given, one for each call, so a theorem
-- on all lists is one on all behaviours of the network. `network_send` calls itself, and has a
-- fuel, one for each of the at most 238 buffers, since each call moves on to the next one. The loops
-- over the lines of a head and over cookies have one round for each; for a head one more than the
-- length of the text is enough, since every round leaves less of it. So does each flush of an output
-- that does not fit, for which one round for each byte is enough. Unsigned numbers of 64 and 32
-- bits wrap around where the code lets them; the `int` counters are integers.
--
-- Not modelled: memory is never short except where the code that is modelled tests it in
-- `network_send`, `network_send_header`, `network_be_end`, `cached_ntoa`, `cached_access`,
-- `send_then_send` and `network_be_read_request_body`; TLS and sendfile; coevent, whose sources are
-- not in the repository (its constants EP_D_BUF_SIZE and BUFFER_SIZE, the result of its
-- `network_raw_send`, its `stricmp`, `stristr`, `_ultostr` and `urldecode` are parameters, its tree is
-- an interface); iconv(3) and access(2), which are parameters; compressed responses, the router, and
-- the copies of other projects' code under deps/yac, deps/fastlz and deps/i18n. Where
-- `network_be_read` rejects a request, the model stops at its call of `network_send_error`, which
-- changes the counters and the status once more. Where the code hands a text to a function of Lua or
-- C that reads it up to its first byte 0, the model cuts it there in `lua_header`, the names of
-- cookies and the names that `reinit_lua_thread_env` clears; other texts are taken to have none.
pub mod Base64
pub mod CString
pub mod CachedAccess
pub mod CachedNtoa
pub mod Client
pub mod Escape
pub mod Iconv
pub mod LuaExt
pub mod LuaText
pub mod LuaThreads
pub mod Network
pub mod Nl2br
pub mod Prelude
pub mod Request
pub mod Samples
pub mod ServStatus
pub mod StatusLine
pub mod Strip
pub mod Vhost
pub mod Websocket
