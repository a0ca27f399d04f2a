-- ===== src/Escape/Laws.antt =====
-- What `lua_f_escape` returns, against an unquoting function, and the bound on its buffer.
use alilua.Prelude.{
  ℕ, ◌≤◌, ◌≡◌, ◌≢◌, refl, sym, ap, ◌∙◌, Bool, true, false, not, ◌||◌, none, some, inl, inr, [], ◌∷◌,
  ◌++◌, Bytes, length, ltb, ◌==◌, if◌then◌else◌, arith, All, All-append, append-nil, append_assoc,
  length-append, Bool-cases,
}
use alilua.LuaText.{concat_top, concat_top-append}
use alilua.Escape.{Output, push_buf, flush, escape_byte, escape_step, escape_loop, lua_f_escape}

-- A flush moves bytes, and loses none.
push_buf-flush : (o : Output) → push_buf (flush o) ≡ push_buf o
unfolding flush push_buf
push_buf-flush o = elim (Bool-cases (ltb (length o.buf) 4)) [
  | inl e ↦ rw e refl
  | inr e ↦ rw e (append-nil (concat_top o.pushed o.buf))
]

push_buf-escape_step :
    (o : Output) (c : ℕ) → push_buf (escape_step o c) ≡ push_buf o ++ escape_byte c
unfolding escape_step push_buf
push_buf-escape_step o c =
    concat_top-append (flush o).pushed (flush o).buf (escape_byte c)
    ∙ ap (λ t. t ++ escape_byte c) (push_buf-flush o)

-- Byte by byte, with no buffer.
abbrev pub escaped : Bytes → Bytes
escaped [] = []
escaped (c ∷ cs) = escape_byte c ++ escaped cs

escape_loop-escaped : (o : Output) (cs : Bytes) → escape_loop o cs ≡ push_buf o ++ escaped cs
unfolding escape_loop
escape_loop-escaped o [] = sym (append-nil (push_buf o))
escape_loop-escaped o (c ∷ cs) =
    escape_loop-escaped (escape_step o c) cs
    ∙ rw (push_buf-escape_step o c) (append_assoc (push_buf o) (escape_byte c) (escaped cs))

-- Handing the buffer over in pieces changes nothing.
pub lua_f_escape-escaped : (src : Bytes) → lua_f_escape (some src) ≡ escaped src
unfolding lua_f_escape push_buf
lua_f_escape-escaped src = escape_loop-escaped (record { pushed = none; buf = [] }) src

-- What a reader of a quoted text does: a backslash and a letter stand for one byte.
pub unescape_letter : ℕ → ℕ
unescape_letter c =
    if c == b'r'
    then b'\r'
    else if c == b'n'
    then b'\n'
    else if c == b'b'
    then 8
    else if c == b't'
    then b'\t'
    else if c == b'0'
    then 0
    else if c == b'Z'
    then 26
    else c

pub unescape_from : Bool → Bytes → Bytes
unescape_from quoted [] = []
unescape_from true (c ∷ cs) = unescape_letter c ∷ unescape_from false cs
unescape_from false (c ∷ cs) =
    let plain = c ∷ unescape_from false cs in
    let letter = unescape_from true cs in if c == b'\\' then letter else plain

abbrev pub unescape : Bytes → Bytes
unescape = unescape_from false

unescape-escape_byte : (c : ℕ) (rest : Bytes) → unescape (escape_byte c ++ rest) ≡ c ∷ unescape rest
unfolding unescape_from escape_byte unescape_letter
unescape-escape_byte c rest = ground arith

unescape-escaped : (src : Bytes) → unescape (escaped src) ≡ src
unfolding unescape_from
unescape-escaped [] = refl
unescape-escaped (c ∷ cs) = unescape-escape_byte c (escaped cs) ∙ ap (◌∷◌ c) (unescape-escaped cs)

-- Whether a text may stand between quotes: each quote stands right behind a backslash that begins an
-- escape, no byte is a line end, NUL or Control-Z, none outside an escape is a backspace or a tab,
-- and no escape is left open at the end.
pub may_stand : Bool → Bytes → Bool
may_stand quoted [] = not quoted
may_stand quoted (c ∷ cs) =
    let letter = may_stand true cs in
    let rest = may_stand false cs in
    if c == b'\r' || c == b'\n' || c == 0 || c == 26
    then false
    else if quoted
    then rest
    else if c == b'\\'
    then letter
    else if c == b'\'' || c == b'"' || c == 8 || c == b'\t'
    then false
    else rest

may_stand-escape_byte :
    (c : ℕ) (rest : Bytes) → may_stand false (escape_byte c ++ rest) ≡ may_stand false rest
unfolding may_stand escape_byte
may_stand-escape_byte c rest = ground arith

may_stand-escaped : (src : Bytes) → may_stand false (escaped src) ≡ true
unfolding may_stand
may_stand-escaped [] = refl
may_stand-escaped (c ∷ cs) = may_stand-escape_byte c (escaped cs) ∙ may_stand-escaped cs

-- For every text, however long: undoing the quoting gives the source back, and what the function
-- returns may stand between quotes, so each quote in it stands right behind a backslash of its own
-- and no line end, NUL or Control-Z is left.
pub unescape-lua_f_escape :
    (src : Bytes)
    → (unescape (lua_f_escape (some src)) ≡ src)
      × (may_stand false (lua_f_escape (some src)) ≡ true)
unescape-lua_f_escape src =
    rw (lua_f_escape-escaped src) (unescape-escaped src, may_stand-escaped src)

-- A byte that may stand in a quoted text: no line end, NUL or Control-Z.
pub record IsQuoted (c : ℕ) : Type 0 where
  pub no_cr : c ≢ b'\r'
  pub no_lf : c ≢ b'\n'
  pub no_nul : c ≢ 0
  pub no_sub : c ≢ 26

escape_byte-IsQuoted : (c : ℕ) → All IsQuoted (escape_byte c)
unfolding escape_byte
escape_byte-IsQuoted c = ground arith

escaped-IsQuoted : (src : Bytes) → All IsQuoted (escaped src)
escaped-IsQuoted [] = tt
escaped-IsQuoted (c ∷ cs) =
    All-append IsQuoted (escape_byte c) (escaped cs) (escape_byte-IsQuoted c) (escaped-IsQuoted cs)

-- No raw line end, NUL or Control-Z is left in the output.
pub lua_f_escape-IsQuoted : (src : Bytes) → All IsQuoted (lua_f_escape (some src))
lua_f_escape-IsQuoted src = rw (lua_f_escape-escaped src) (escaped-IsQuoted src)

length-escape_byte : (c : ℕ) → length (escape_byte c) ≤ 2
unfolding escape_byte
length-escape_byte c = ground arith

length-flush : (o : Output) → length (flush o).buf ≤ 3
unfolding flush
length-flush o = ground arith

-- The states that the loop goes through from a start.
pub data Reach (start : Output) : Output → Type 0 where
  here : Reach start start
  next : {o : Output} (c : ℕ) → Reach start o → Reach start (escape_step o c)

-- In every state that the loop goes through from a start with at most five bytes in `temp_buf`,
-- `temp_buf` holds at most five bytes.
pub Reach-length : {start o : Output} → length start.buf ≤ 5 → Reach start o → length o.buf ≤ 5
unfolding escape_step
Reach-length h here = h
Reach-length h (next {o} c r) =
    omega (arith, length-append (flush o).buf (escape_byte c), length-flush o, length-escape_byte c)
