-- ===== src/LuaExt/Echo.antt =====
-- src/lua-ext.c: `_lua_echo` and `send_then_send`, by which the output of a Lua program goes into the
-- buffers, for arguments that are strings or numbers; a table counts as one of them, its parts
-- joined, while there is memory for the copy of it and of what does not fit.
pub mod Taken
pub mod First
pub mod Output
mod Tests
use alilua.Prelude.{
  ℕ, zero, suc, ◌-◌, Bool, true, false, Option, none, some, List, [], ◌∷◌, Bytes, length, drop,
  if◌then◌else◌,
}
use alilua.Prelude.Int.{ℤ, pos, negsuc}
use alilua.ServStatus.{ServStatus}
use alilua.Network.Epd.{Epd, max_iov_count, bytes_of}
use alilua.Network.Send.{network_send}
use alilua.Network.Build.{Site}
use alilua.Network.Flush.{Flushed, network_flush}

-- `next_out` is what did not fit into the buffers, `have` the result of the last `network_send`.
pub record Echo : Type 0 where
  pub epd : Epd
  pub next_out : Option Bytes
  pub have : ℤ

-- Nothing waits at first.
abbrev pub begin_echo : Epd → Echo
begin_echo epd = record { epd = epd; next_out = none; have = pos 0 }

-- What the function returns, with the connection: other than 0, the Lua program waits.
pub record Echoed : Type 0 where
  pub serv : ServStatus
  pub epd : Epd
  pub has : ℕ
  pub raw : Bytes
  pub next_out : Option Bytes
  pub result : ℤ

-- The rest of an argument, by the result of `network_send`.
unfoldable pub keep_rest : Bool → Option Bytes → Bytes → ℤ → Option Bytes
keep_rest true next_out piece (pos (suc n)) = some (drop (length piece - suc n) piece)
keep_rest _ next_out piece have = next_out

-- `network_send` returns whenever it has the fuel, so the last case does not arise.
unfoldable pub after_send : Bool → Echo → Bytes → Epd × Option ℤ → Echo
after_send can_yield s piece (epd, some have) = record {
  epd = epd;
  next_out = keep_rest can_yield s.next_out piece have;
  have = have;
}
after_send can_yield s piece (epd, none) = s

module _ (ep_d_buf_size : ℕ) (malloc : ℕ → Bool) (can_yield : Bool) where
  unfoldable pub echo_one : Echo → Bytes → Echo
  echo_one s piece =
      after_send can_yield s piece (network_send ep_d_buf_size malloc max_iov_count s.epd piece)

  unfoldable pub echo_all : Echo → List Bytes → Echo
  echo_all s [] = s
  echo_all s (piece ∷ rest) = echo_all (echo_one s piece) rest

-- Behind `network_flush`: `send_then_send` is called next; with a result other than 1 the rest is
-- given up.
unfoldable pub after_flush : Option Bytes → ℤ → Flushed → Echoed
after_flush next_out have f = record {
  serv = f.serv;
  epd = if f.result then record (f.epd) { next_proc = true } else f.epd;
  has = f.has;
  raw = f.raw;
  next_out = if f.result then next_out else none;
  result = if f.result then have else pos 0;
}

-- `none` where `network_flush` reads a head that is not there.
unfoldable pub with_flushed : Option Bytes → ℤ → Option Flushed → Option Echoed
with_flushed next_out have none = none
with_flushed next_out have (some f) = some (after_flush next_out have f)

module _ (site : Site) (differs : Bytes → Bool) (stale : Bytes) (http_ver : Option Bytes)
    (has : ℕ) where
  unfoldable pub flush_echo : ServStatus → Echo → Option Echoed
  flush_echo serv s = elim s.next_out [
    | none ↦
        some (record {
          serv = serv;
          epd = s.epd;
          has = has;
          raw = [];
          next_out = none;
          result = pos 0;
        })
    | some rest ↦
        with_flushed (some rest) s.have (network_flush site differs stale http_ver has serv s.epd)
  ]

  -- `_lua_echo`
  unfoldable pub lua_echo : (ℕ → Bool) → Bool → ServStatus → Epd → List Bytes → Option Echoed
  lua_echo malloc can_yield serv epd args =
      flush_echo serv (echo_all site.ep_d_buf_size malloc can_yield (begin_echo epd) args)

-- How `send_then_send` ends: the Lua program goes on, or it still waits.
pub data Resent : Type 0 where
  resumed : Epd → Resent
  waiting : Echoed → Resent

-- With what `network_flush` gave: where it did not send, the Lua program is not told.
unfoldable pub after_reflush : Bytes → ℤ → Option Flushed → Option Resent
after_reflush rest have none = none
after_reflush rest have (some f) = some (waiting (after_flush (some rest) have f))

module _ (site : Site) (differs : Bytes → Bool) (stale : Bytes) (http_ver : Option Bytes)
    (has : ℕ) where
  -- `memory` says whether the rest can be allocated; if not, it is lost.
  unfoldable pub resend : Bool → ServStatus → Bytes → Epd × Option ℤ → Option Resent
  resend true serv piece (epd, some (pos (suc n))) =
      after_reflush (drop (length piece - suc n) piece) (pos (suc n))
        (network_flush site differs stale http_ver has serv epd)
  resend _ serv piece (epd, have) = some (resumed epd)

  -- `piece` is what waits: the first `next_out_len` bytes of `next_out`.
  unfoldable pub send_then_send : (ℕ → Bool) → Bool → ServStatus → Epd → Bytes → Option Resent
  send_then_send malloc memory serv epd piece = resend memory serv piece (
      network_send site.ep_d_buf_size malloc max_iov_count (record epd { next_proc = false }) piece)
