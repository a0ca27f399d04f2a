-- ===== src/LuaExt/Body.antt =====
-- src/lua-ext.c: `lua_read_request_body` and `network_be_read_request_body`, by which a Lua program
-- reads the body of a request in parts.
pub mod Parts
pub mod Whole
pub mod Counts
mod Tests
use alilua.Prelude.{
  ℕ, ◌+◌, Bool, true, false, not, Option, none, some, List, [], ◌∷◌, ◌++◌, Bytes, codes, length,
  take, drop, ltb, leb, ◌==◌, ◌&&◌, ◌||◌, if◌then◌else◌,
}
use alilua.Prelude.Int.{pos, ◌+ℤ◌, ◌-ℤ◌, leb_ℤ}
use alilua.ServStatus.{ServStatus}
use alilua.Network.Epd.{Epd, is_read, read, process, bytes_of}
use alilua.Network.Reader.{Reader}
use alilua.Network.Read.{Input, received, would_block, broken}

-- What the Lua program gets: a string, nil with a message, or nothing yet, as its thread yields or
-- still waits.
pub data BodyReply : Type 0 where
  text : Bytes → BodyReply
  error : Bytes → BodyReply
  suspended : BodyReply

-- `has_contents` says whether `contents` is set, `is_open` whether `se_ptr` is and `fd` above -1.
pub record Reading : Type 0 where
  pub serv : ServStatus
  pub epd : Epd
  pub has_contents : Bool
  pub is_open : Bool

-- `headers` is what was received with the head.
pub lua_read_request_body : Bytes → Reading → Reading × BodyReply
lua_read_request_body headers s =
    if s.has_contents
    then (
      record s { has_contents = false },
      text (drop s.epd.header_length (take s.epd.data_len headers)),
    )
    else if not s.is_open
        || leb_ℤ s.epd.content_length (pos s.epd.data_len -ℤ pos s.epd.header_length)
    then (s, error (codes "eof"))
    else (
      record s {
        serv = record (s.serv) { reading_counts = s.serv.reading_counts +ℤ pos 1 };
        epd = record (s.epd) { status = read };
      },
      suspended,
    )

-- `if(epd->status == STEP_READ)`
pub stop_reading : Reading → Reading
stop_reading s =
    if is_read s.epd.status
    then record s {
      serv = record (s.serv) { reading_counts = s.serv.reading_counts -ℤ pos 1 };
      epd = record (s.epd) { status = process };
    }
    else s

-- The client is gone.
pub close_reading : Reading → Reading
close_reading s = stop_reading (record s {
  serv = record (s.serv) { active_counts = s.serv.active_counts -ℤ pos 1 };
  is_open = false;
})

-- How the loop ended: `recv` gave 0, it would block, it failed, or the buffer could not grow.
pub data Stop : Type 0 where
  at_end at_block at_error at_memory : Stop

-- The size of the buffer after `realloc`.
pub next_size : ℕ → ℕ
next_size size = if ltb size 65536 then 65536 else size + 65536

-- The loop; `realloc` tells for which sizes there is memory, and `buf` holds the bytes so far. With
-- no answer left the function has not returned, which counts as blocking.
pub read_parts : (ℕ → Bool) → Reading → ℕ → Bytes → List Input → Reading × Bytes × Stop
read_parts realloc s size buf [] = (s, buf, at_block)
read_parts realloc s size buf (would_block ∷ _) = (s, buf, at_block)
read_parts realloc s size buf (broken ∷ _) = (s, buf, at_error)
read_parts realloc s size buf (received [] ∷ _) = (close_reading s, buf, at_end)
read_parts realloc s size buf (received (b ∷ bs) ∷ rest) =
    let buf' = buf ++ b ∷ bs in
    let s' : Reading = record s {
      epd = record (s.epd) { data_len = s.epd.data_len + length (b ∷ bs) };
    } in
    let same = read_parts realloc s' size buf' rest in
    let larger = read_parts realloc s' (next_size size) buf' rest in
    if not (leb size (length buf'))
    then same
    else if realloc (next_size size)
    then larger
    else (s', buf', at_memory)

-- What is done when nothing was read, by how the loop ended.
pub no_part : Reading → Stop → Reading × BodyReply
no_part s at_end = (close_reading s, error (codes "socket closed"))
no_part s at_error = (close_reading s, error (codes "socket closed"))
no_part s at_block = (s, suspended)
no_part s at_memory = (s, suspended)

-- `malloc` says whether the first 8192 bytes can be allocated.
pub network_be_read_request_body : Bool → (ℕ → Bool) → Reading → List Input → Reading × BodyReply
network_be_read_request_body malloc realloc s inputs =
    let (s', buf, stop) = read_parts realloc s 8192 [] inputs in
    if not malloc
    then (close_reading s, error (codes "memory error"))
    else if ltb 0 (length buf)
    then (stop_reading s', text buf)
    else no_part s' stop
