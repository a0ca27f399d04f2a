-- ===== src/Websocket/Api/Wire.antt =====
-- The frames that Lua sends, as they go on the wire, are the messages again for a client.
use alilua.Prelude.{◌+◌, ◌≤◌, length, All, ℕ, ◌≡◌, false, some, List, [], ◌∷◌, ◌++◌, Bytes}
use alilua.Prelude.Int.{pos}
use alilua.Websocket.Frame.{frame_head}
use alilua.Websocket.Transmit.{Link}
use alilua.Websocket.Api.{Args, Frame, choose, lua_f_websocket_send}
use alilua.Websocket.Api.Fragments.{Message, single, parts, calls}

-- The bytes of frames, one behind the other.
abbrev pub written : List Frame → Bytes
written [] = []
written (f ∷ fs) = frame_head f.fin 0 0 0 f.opcode (length f.payload) ++ (f.payload ++ written fs)

-- The bytes on the wire when Lua makes these calls, each on what the one before has left, and
-- `network_raw_send` takes a frame whole each time.
abbrev pub sent_by : Link → ℕ → List (Args × Bytes) → Bytes
sent_by link multi [] = []
sent_by link multi ((args, text) ∷ calls) =
    let f = (choose multi args text).0 in
    let all = length (frame_head f.fin 0 0 0 f.opcode (length text)) + length text in
    let s = lua_f_websocket_send link multi false args (pos all) in
    s.wire ++ sent_by s.link s.is_multi_frame calls

-- A call whose first argument is the text, which is short.
abbrev IsShort : Args × Bytes → Type 0
IsShort (args, text) = (args.content ≡ some text) × (length text ≤ 251)

-- A message each of whose calls has at most 251 bytes.
abbrev pub IsShortMessage : Message → Type 0
IsShortMessage (single b text) = length text ≤ 251
IsShortMessage (parts b text ts end) =
    (length text ≤ 251) × All (λ (t : Bytes). length t ≤ 251) ts × (length end ≤ 251)
