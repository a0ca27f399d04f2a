-- ===== src/LuaExt/Drain.antt =====
-- src/lua-ext.c with src/network.c: output of a Lua program that is larger than the buffers. The event
-- loop calls `network_be_write` until the buffers are on the wire; that calls `send_then_send`, which
-- fills them again.
pub mod Middle
pub mod Round
pub mod Refill
pub mod Stream
mod Tests
use alilua.Prelude.{
  ℕ, zero, suc, Bool, true, Option, none, some, List, [], ◌∷◌, ◌++◌, Bytes, ◌==◌, if◌then◌else◌,
}
use alilua.Prelude.Int.{ℤ, pos}
use alilua.ServStatus.{ServStatus}
use alilua.Network.Epd.{Epd, bytes_of}
use alilua.Network.Build.{Site}
use alilua.Network.Write.{Answer, Action, waits, calls_next_proc, ends, resumes, Outcome}
use alilua.Network.Write.Calls.{write_calls}
use alilua.Network.Send.Whole.{always}
use alilua.LuaExt.Echo.{Echoed, Resent, resumed, waiting, lua_echo, send_then_send}

-- What came on the wire, and the connection with which the Lua program goes on, if it does.
pub record Drained : Type 0 where
  pub wire : Bytes
  pub final : Option Epd

-- `later` is what follows another flush.
unfoldable pub after_resend : (Echoed → Drained) → Bytes → Option Resent → Drained
after_resend later wire none = record { wire = wire; final = none }
after_resend later wire (some (resumed epd)) = record { wire = wire; final = some epd }
after_resend later wire (some (waiting x)) =
    let d = later x in record { wire = wire ++ d.wire; final = d.final }

module _ (site : Site) (differs : Bytes → Bool) (stale : Bytes) (http_ver : Option Bytes)
    (has : ℕ) where
  unfoldable pub after_write :
      (Echoed → Drained) → Bytes → ServStatus → Epd → Bytes → Action → Drained
  after_write later rest serv epd wire calls_next_proc =
      after_resend later wire
        (send_then_send site differs stale http_ver has always true serv epd rest)
  after_write later rest serv epd wire waits = record { wire = wire; final = none }
  after_write later rest serv epd wire (ends code) = record { wire = wire; final = none }
  after_write later rest serv epd wire (resumes done) = record { wire = wire; final = none }

  unfoldable pub after_outcome : (Echoed → Drained) → Bytes → Outcome → Drained
  after_outcome later rest o = after_write later rest o.serv o.epd o.wire o.action

  -- `socket` says what `writev` answers for the buffers of a flush, in each call of `network_be_write`,
  -- and `rest` is what waits. Each
  -- round is a flush.
  unfoldable pub drain : ℕ → (Epd → List (List Answer)) → ServStatus → Epd → Bytes → Drained
  drain zero socket serv epd rest = record { wire = []; final = none }
  drain (suc rounds) socket serv epd rest =
      after_outcome (λ x. drain rounds socket x.serv x.epd (bytes_of x.next_out)) rest
        (write_calls serv epd [] (socket epd))

  -- With what `_lua_echo` gave: with other than 0 the program waits.
  unfoldable pub start_drain : ℕ → (Epd → List (List Answer)) → Option Echoed → Drained
  start_drain rounds socket none = record { wire = []; final = none }
  start_drain rounds socket (some x) =
      let waited = drain rounds socket x.serv x.epd (bytes_of x.next_out) in
      elim x.next_out [ none ↦ record { wire = []; final = some x.epd } | some rest ↦ waited ]

  -- A Lua program puts out one text.
  unfoldable pub echo_out : ℕ → (Epd → List (List Answer)) → ServStatus → Epd → Bytes → Drained
  echo_out rounds socket serv epd text =
      start_drain rounds socket
        (lua_echo site differs stale http_ver has always true serv epd (text ∷ []))
