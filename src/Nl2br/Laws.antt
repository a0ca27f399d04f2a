-- ===== src/Nl2br/Laws.antt =====
-- What `lua_f_nl2br` returns.
use mathlib.Core.List.{reverse, reverse-append}
use alilua.Prelude.{
  ℕ, ◌+◌, ◌≤◌, ◌≡◌, ◌≢◌, refl, sym, ap, ap₂, ◌∙◌, none, some, inl, inr, [], ◌∷◌, ◌++◌, Bytes, codes,
  length, ltb, ◌==◌, if◌then◌else◌, arith, All, All-append, append-nil, append_assoc, Bool-cases,
}
use alilua.LuaText.{concat_top, concat_top-append}
use alilua.Nl2br.{Output, push_buf, flush, break_line, nl2br_step, nl2br_loop, lua_f_nl2br}

length-flush : (o : Output) → length (flush o).last_first ≤ 4090
unfolding flush
length-flush o = ground arith

length-break_line : (before : ℕ) (buf : Bytes) → length (break_line before buf) ≤ length buf + 5
unfolding break_line
length-break_line before [] = ground arith
length-break_line before (c ∷ buf) = ground arith

-- A round leaves at most 4095 bytes in `temp_buf`, which holds 4096.
pub length-nl2br_step :
    (before : ℕ) (o : Output) (c : ℕ) → length (nl2br_step before o c).last_first ≤ 4095
unfolding nl2br_step
length-nl2br_step before o c =
    ground (arith, length-flush o, length-break_line before (flush o).last_first)

-- A newline becomes `<br/>`, and all else stays.
pub break_byte : ℕ → Bytes
break_byte c = if c == b'\n' then codes "<br/>" else c ∷ []

abbrev pub broken : Bytes → Bytes
broken [] = []
broken (c ∷ cs) = break_byte c ++ broken cs

abbrev pub IsPlain : ℕ → Type 0
IsPlain c = c ≢ b'\r'

break_line-IsPlain :
    (before : ℕ) (buf : Bytes)
    → IsPlain before
    → All IsPlain buf
    → break_line before buf ≡ b'>' ∷ b'/' ∷ b'r' ∷ b'b' ∷ b'<' ∷ buf
unfolding break_line
break_line-IsPlain before [] h k = ground arith
break_line-IsPlain before (c ∷ buf) h (hc, k) = ground arith

push_buf-flush : (o : Output) → push_buf (flush o) ≡ push_buf o
unfolding flush push_buf
push_buf-flush o = elim (Bool-cases (ltb 4090 (length o.last_first))) [
  | inl e ↦ rw e (append-nil (concat_top o.pushed (reverse o.last_first)))
  | inr e ↦ rw e refl
]

flush-IsPlain : (o : Output) → All IsPlain o.last_first → All IsPlain (flush o).last_first
unfolding flush
flush-IsPlain o h = ground arith

-- Pushing bytes on the reversed buffer appends them to the output.
push_buf-append :
    (o : Output) (piece : Bytes)
    → push_buf (record o { last_first = piece ++ o.last_first }) ≡ push_buf o ++ reverse piece
unfolding push_buf
push_buf-append o piece =
    rw (reverse-append piece o.last_first)
      (concat_top-append o.pushed (reverse o.last_first) (reverse piece))

-- `break_byte`, the last byte first.
piece_of : ℕ → Bytes
piece_of c = if c == b'\n' then b'>' ∷ b'/' ∷ b'r' ∷ b'b' ∷ b'<' ∷ [] else c ∷ []

reverse-piece_of : (c : ℕ) → reverse (piece_of c) ≡ break_byte c
unfolding piece_of break_byte
reverse-piece_of c = ground arith

piece_of-IsPlain : (c : ℕ) → IsPlain c → All IsPlain (piece_of c)
unfolding piece_of
piece_of-IsPlain c h = ground arith

nl2br_step-IsPlain :
    (before : ℕ) (o : Output) (c : ℕ)
    → IsPlain before
    → All IsPlain (flush o).last_first
    → nl2br_step before o c ≡ record (flush o) { last_first = piece_of c ++ (flush o).last_first }
unfolding nl2br_step piece_of
nl2br_step-IsPlain before o c h k =
    ground (arith, break_line-IsPlain before (flush o).last_first h k)

nl2br_loop-IsPlain :
    (before : ℕ) (o : Output) (src : Bytes)
    → IsPlain before
    → All IsPlain o.last_first
    → All IsPlain src
    → nl2br_loop before o src ≡ push_buf o ++ broken src
unfolding nl2br_loop
nl2br_loop-IsPlain before o [] h k hs = sym (append-nil (push_buf o))
nl2br_loop-IsPlain before o (c ∷ cs) h k (hc, hs) =
    let k' = flush-IsPlain o k in
    let o' : Output = record (flush o) { last_first = piece_of c ++ (flush o).last_first } in
    let all = All-append IsPlain (piece_of c) (flush o).last_first (piece_of-IsPlain c hc) k' in
    ap (λ s. nl2br_loop before s cs) (nl2br_step-IsPlain before o c h k')
    ∙ nl2br_loop-IsPlain before o' cs h all hs
    ∙ ap (λ t. t ++ broken cs)
        (push_buf-append (flush o) (piece_of c)
          ∙ ap₂ (◌++◌) (push_buf-flush o) (reverse-piece_of c))
    ∙ append_assoc (push_buf o) (break_byte c) (broken cs)

-- A text with no carriage return, of any length, has each newline replaced by `<br/>`, if the byte
-- in front of the buffer is no carriage return.
pub lua_f_nl2br-IsPlain :
    (before : ℕ) (src : Bytes)
    → IsPlain before
    → All IsPlain src
    → lua_f_nl2br before (some src) ≡ some (broken src)
unfolding lua_f_nl2br push_buf
lua_f_nl2br-IsPlain before src h hs =
    ap some (nl2br_loop-IsPlain before (record { pushed = none; last_first = [] }) src h tt hs)

nl2br_loop_no_newline :
    (before : ℕ) (o : Output) (src : Bytes)
    → All (λ c. c ≢ b'\n') src
    → nl2br_loop before o src ≡ push_buf o ++ src
unfolding nl2br_loop
nl2br_loop_no_newline before o [] h = sym (append-nil (push_buf o))
nl2br_loop_no_newline before o (c ∷ cs) (hc, hs) =
    nl2br_loop_no_newline before (nl2br_step before o c) cs hs
    ∙ ap (λ t. t ++ cs) pushed
    ∙ append_assoc (push_buf o) (c ∷ []) cs
  where
    step_eq : nl2br_step before o c ≡ record (flush o) { last_first = c ∷ (flush o).last_first }
    step_eq = unfold nl2br_step in ground arith

    pushed : push_buf (nl2br_step before o c) ≡ push_buf o ++ c ∷ []
    pushed =
        ap push_buf step_eq
        ∙ push_buf-append (flush o) (c ∷ [])
        ∙ ap (λ t. t ++ c ∷ []) (push_buf-flush o)

-- If the byte in front of the buffer is a carriage return, a text whose one newline stands first
-- loses the `<` of its break: the code writes it in front of the buffer.
pub lua_f_nl2br_before :
    (rest : Bytes)
    → All (λ c. c ≢ b'\n') rest
    → lua_f_nl2br b'\r' (some (b'\n' ∷ rest)) ≡ some (codes "br/>" ++ rest)
unfolding lua_f_nl2br push_buf nl2br_loop nl2br_step flush break_line
lua_f_nl2br_before rest h = ap some (nl2br_loop_no_newline b'\r' _ rest h)
