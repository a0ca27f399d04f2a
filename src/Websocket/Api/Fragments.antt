-- ===== src/Websocket/Api/Fragments.antt =====
-- A client puts the frames together to the messages that Lua sent.
use alilua.Prelude.{
  ℕ, ◌≡◌, refl, ap, ◌∙◌, Bool, true, false, Option, none, some, List, [], ◌∷◌, ◌++◌, Bytes, ◌==◌,
  if◌then◌else◌,
}
use mathlib.Core.Option
use alilua.Websocket.Api.{Args, Frame, data_opcode, choose}

-- One call of `lua_f_websocket_send` after another, each with a text.
abbrev pub frames : ℕ → List (Args × Bytes) → List Frame
frames multi [] = []
frames multi ((args, text) ∷ calls) =
    (choose multi args text).0 ∷ frames (choose multi args text).1 calls

-- What a client makes of frames by RFC 6455, section 5.4: the first frame of a message has its opcode,
-- which is not 0, and the others have opcode 0; one with fin 1 ends the message. Frames that break this
-- are an error, as is a message without an end.
abbrev pub reassemble : Option (ℕ × Bytes) → List Frame → Option (List (ℕ × Bytes))
reassemble none [] = some []
reassemble (some begun) [] = none
reassemble none (f ∷ fs) =
    let later = reassemble none fs in
    let inside = reassemble (some (f.opcode, f.payload)) fs in
    if f.opcode == 0
    then none
    else if f.fin == 1
    then Option.map (◌∷◌ (f.opcode, f.payload)) later
    else inside
reassemble (some (opcode, text)) (f ∷ fs) =
    let later = reassemble none fs in
    let inside = reassemble (some (opcode, text ++ f.payload)) fs in
    if f.opcode == 0
    then if f.fin == 1 then Option.map (◌∷◌ (opcode, text ++ f.payload)) later else inside
    else none

-- A message that Lua sends: in one call, or in a first one, others, and a last one.
pub data Message : Type 0 where
  single : Bool → Bytes → Message
  parts : Bool → Bytes → List Bytes → Bytes → Message

abbrev call : ℕ → Bytes → Option Bool → Option Bool → Args × Bytes
call count text binary last =
    (record { count = count; content = some text; binary = binary; last = last }, text)

abbrev pub middles : List Bytes → List (Args × Bytes) → List (Args × Bytes)
middles [] rest = rest
middles (t ∷ ts) rest = call 1 t none none ∷ middles ts rest

abbrev pub calls : List Message → List (Args × Bytes)
calls [] = []
calls (single b text ∷ ms) = call 2 text (some b) none ∷ calls ms
calls (parts b text ts end ∷ ms) =
    call 3 text (some b) (some false) ∷ middles ts (call 3 end (some b) (some true) ∷ calls ms)

abbrev joined : Bytes → List Bytes → Bytes → Bytes
joined text [] end = text ++ end
joined text (t ∷ ts) end = joined (text ++ t) ts end

-- The opcode and the text of each message.
abbrev pub contents : List Message → List (ℕ × Bytes)
contents [] = []
contents (single b text ∷ ms) = (data_opcode (some b), text) ∷ contents ms
contents (parts b text ts end ∷ ms) = (data_opcode (some b), joined text ts end) ∷ contents ms

reassemble-middles :
    (opcode : ℕ) (text : Bytes) (ts : List Bytes) (b : Bool) (end : Bytes)
    (rest : List (Args × Bytes))
    → reassemble
        (some (opcode, text))
        (frames 1 (middles ts (call 3 end (some b) (some true) ∷ rest)))
      ≡ Option.map (◌∷◌ (opcode, joined text ts end)) (reassemble none (frames 0 rest))
unfolding choose
reassemble-middles opcode text [] b end rest = refl
reassemble-middles opcode text (t ∷ ts) b end rest =
    reassemble-middles opcode (text ++ t) ts b end rest

-- A client that reads the frames of these messages by the rules on opcodes and fin finds no error, and
-- has the same messages.
pub reassemble-frames :
    (ms : List Message) → reassemble none (frames 0 (calls ms)) ≡ some (contents ms)
unfolding choose
reassemble-frames [] = refl
reassemble-frames (single true text ∷ ms) = ap (Option.map (◌∷◌ (2, text))) (reassemble-frames ms)
reassemble-frames (single false text ∷ ms) = ap (Option.map (◌∷◌ (1, text))) (reassemble-frames ms)
reassemble-frames (parts true text ts end ∷ ms) =
    reassemble-middles 2 text ts true end (calls ms)
    ∙ ap (Option.map (◌∷◌ (2, joined text ts end))) (reassemble-frames ms)
reassemble-frames (parts false text ts end ∷ ms) =
    reassemble-middles 1 text ts false end (calls ms)
    ∙ ap (Option.map (◌∷◌ (1, joined text ts end))) (reassemble-frames ms)
