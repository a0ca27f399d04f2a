-- ===== src/Client.antt =====
-- src/worker.c: what `close_client` and `timeout_handle` do to the counters, and src/websocket.c:
-- `lua_f_check_websocket_close`, which closes in its own way.
pub mod Counts
mod Tests
use alilua.Prelude.{ℕ, Bool, true, false, ◌&&◌, if◌then◌else◌}
use alilua.Prelude.Int.{ℤ, pos, ◌-ℤ◌}
use alilua.ServStatus.{ServStatus}
use alilua.Network.Epd.{is_read, is_send, Step, read, process, send, wait}

-- `has_thread` says whether `L` is set, `is_open` whether `fd` is above -1.
pub record Client : Type 0 where
  pub status : Step
  pub has_thread : Bool
  pub is_open : Bool

abbrev pub is_process : Step → Bool
is_process process = true
is_process _ = false

-- The counter of the state that the connection leaves.
pub leave_status : ServStatus → Step → ServStatus
leave_status serv status =
    if is_read status
    then record serv { reading_counts = serv.reading_counts -ℤ pos 1 }
    else if is_send status
    then record serv { sending_counts = serv.sending_counts -ℤ pos 1 }
    else serv

-- `if(epd->fd > -1)`
pub close_fd : ServStatus → Bool → ServStatus
close_fd serv is_open =
    if is_open then record serv { active_counts = serv.active_counts -ℤ pos 1 } else serv

-- The connection is freed; the counters stay.
pub close_client : ServStatus → Client → ServStatus
close_client serv c = close_fd (leave_status serv c.status) c.is_open

-- What becomes of a connection: it goes on as the one given, or it is freed.
pub data Fate : Type 0 where
  goes_on : Client → Fate
  freed : Fate

-- After a timeout while reading, the request is answered with an error; the second `if` sees the
-- status that the first one left.
pub timeout_handle : ServStatus → Client → ServStatus × Fate
timeout_handle serv c =
    if is_read c.status
    then (leave_status serv c.status, goes_on (record c { status = process }))
    else if is_process c.status && c.has_thread
    then (leave_status serv c.status, goes_on c)
    else (close_client (leave_status serv c.status) (record c { status = wait }), freed)

-- A websocket is closed once it has ended or the worker exits (`exiting`).
pub lua_f_check_websocket_close : ServStatus → Client → Bool → Bool → ServStatus × Fate
lua_f_check_websocket_close serv c ended exiting =
    if ended
    then (close_fd (leave_status serv c.status) c.is_open, freed)
    else if exiting
    then (close_fd (leave_status serv c.status) c.is_open, freed)
    else (serv, goes_on c)
