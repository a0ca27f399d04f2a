-- ===== src/LuaExt/Echo/Output.antt =====
-- The output of a Lua program: all of it is in the buffers or waits, in order.
use alilua.Prelude.{ℕ, ◌<◌, ◌≡◌, Bool, Option, none, some, ◌⊎◌, [], ◌++◌, Bytes, length}
use alilua.Prelude.Int.{pos}
use alilua.ServStatus.{ServStatus}
use alilua.Network.Epd.{Epd}
use alilua.Network.Send.Buffers.{contents}
use alilua.Network.Build.{Site}
use alilua.Network.Flush.{network_flush}
use alilua.LuaExt.Echo.{Echo, Echoed, with_flushed}
use alilua.LuaExt.Echo.Taken.{Taken}

module _ (site : Site) (differs : Bytes → Bool) (stale : Bytes) (http_ver : Option Bytes)
    (has : ℕ) where
  -- All of the output is in the buffers and the function returns 0; or the buffers and the rest hold
  -- it, and the function ends as `network_flush` does with these buffers.
  abbrev pub Echoes : ServStatus → Epd → Bytes → Option Echoed → Type 0
  Echoes serv epd text r =
      ((e : Epd) × (contents e ≡ contents epd ++ text)
        × (r
            ≡ some (record {
              serv = serv;
              epd = e;
              has = has;
              raw = [];
              next_out = none;
              result = pos 0;
            })))
      ⊎ ((e : Epd) × (rest : Bytes) × (0 < length rest)
          × (contents e ++ rest ≡ contents epd ++ text)
          × (r
              ≡ with_flushed (some rest) (pos (length rest))
                  (network_flush site differs stale http_ver has serv e)))
