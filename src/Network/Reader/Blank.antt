-- ===== src/Network/Reader/Blank.antt =====
-- A text without a blank line, and what `network_be_read` makes of it.
use alilua.Prelude.{
  ℕ, zero, suc, ◌+◌, ◌-◌, ◌<◌, ◌≤◌, ◌≡◌, refl, ap, ◌∙◌, Bool, true, false, none, some, inl, inr,
  ◌⊎◌, [], ◌∷◌, Bytes, length, get_or, take, ◌==◌, ◌&&◌, ◌||◌, arith, Option-cases, if_true,
  if_false, Option,
}
use alilua.CString.{to_lower}
use alilua.Network.Reader.{Config, blank_line, two_newlines, ends_blank, head_length}

-- What `stristr` finds stands there, but for the case of its letters.
abbrev pub Finds : (Bytes → Bytes → ℕ → Option ℕ) → Type 0
Finds stristr =
    (text t : Bytes) (len i j : ℕ)
    → stristr text t len ≡ some i
    → j < length t
    → to_lower (get_or text (i + j) 0) ≡ to_lower (get_or t j 0)

-- Two newlines, or CR, any byte, CR and a newline, at the start of a text.
abbrev pub begins_end : Bytes → Bool
begins_end t =
    (get_or t 0 0 == b'\n' && get_or t 1 0 == b'\n')
    || (get_or t 0 0 == b'\r' && get_or t 2 0 == b'\r' && get_or t 3 0 == b'\n')

abbrev pub has_end : Bytes → Bool
has_end [] = false
has_end (c ∷ cs) = begins_end (c ∷ cs) || has_end cs

-- The same at a place of a text.
abbrev pub ends_at : Bytes → ℕ → Bool
ends_at t i =
    (get_or t i 0 == b'\n' && get_or t (suc i) 0 == b'\n')
    || (get_or t i 0 == b'\r'
        && get_or t (suc (suc i)) 0 == b'\r'
        && get_or t (suc (suc (suc i))) 0 == b'\n')

has_end-ends_at : (t : Bytes) (i : ℕ) → has_end t ≡ false → ends_at t i ≡ false
has_end-ends_at [] i h = refl
has_end-ends_at (c ∷ cs) zero h = ground arith
has_end-ends_at (c ∷ cs) (suc i) h = has_end-ends_at cs i (ground arith)

get_or-take :
    (k : ℕ) (t : Bytes) (j : ℕ)
    → (get_or (take k t) j 0 ≡ 0) ⊎ (get_or (take k t) j 0 ≡ get_or t j 0)
get_or-take zero t j = inl refl
get_or-take (suc k) [] j = inl refl
get_or-take (suc k) (c ∷ cs) zero = inr refl
get_or-take (suc k) (c ∷ cs) (suc j) = get_or-take k cs j

-- No part of such a text has a blank line.
pub has_end-take : (k : ℕ) (t : Bytes) → has_end t ≡ false → has_end (take k t) ≡ false
has_end-take zero t h = refl
has_end-take (suc k) [] h = refl
has_end-take (suc k) (c ∷ cs) h = ground (
  arith,
  has_end-take k cs (ground arith),
  get_or-take k cs 0,
  get_or-take k cs 1,
  get_or-take k cs 2,
)

ends_blank-false : (seen : Bytes) → 4 ≤ length seen → has_end seen ≡ false → ends_blank seen ≡ false
unfolding ends_blank
ends_blank-false seen h e =
    let n = length seen in
    let last_two = has_end-ends_at seen (n - 2) e in
    let last_four = has_end-ends_at seen (n - 4) e in
    let a : suc (n - 2) ≡ n - 1 = omega arith in
    let b : suc (suc (n - 4)) ≡ n - 2 = omega arith in
    let d : suc (suc (suc (n - 4))) ≡ n - 1 = omega arith in
    let at = λ (k : ℕ). get_or seen k 0 in
    let last_eq = ap at a in let cr_eq = ap at b in let end_eq = ap at d in ground arith

-- What is found of CRs and newlines is found as it is.
found_byte :
    (c : Config) (seen t : Bytes) (i j k b : ℕ)
    → Finds c.stristr
    → c.stristr seen t (length seen) ≡ some i
    → k ≡ i + j
    → j < length t
    → get_or t j 0 ≡ b
    → b ≤ 13
    → get_or seen k 0 ≡ b
unfolding to_lower
found_byte c seen t i j k b f e h lt g small =
    rw h (ground (arith, f seen t (length seen) i j e lt))

not_found :
    (c : Config) (seen : Bytes)
    → Finds c.stristr
    → has_end seen ≡ false
    → (c.stristr seen blank_line (length seen) ≡ none)
      × (c.stristr seen two_newlines (length seen) ≡ none)
not_found c seen f h = (
  elim (Option-cases (c.stristr seen blank_line (length seen))) [
    | inl e ↦ e
    | inr (i, e) ↦
        let byte = λ (j k b : ℕ). found_byte c seen blank_line i j k b f e in
        let first = byte 0 i b'\r' (omega arith) (omega arith) refl (omega arith) in
        let third = byte 2 (suc (suc i)) b'\r' (omega arith) (omega arith) refl (omega arith) in
        let fourth =
          byte 3 (suc (suc (suc i))) b'\n' (omega arith) (omega arith) refl (omega arith) in
        absurd (ground (arith, has_end-ends_at seen i h))
  ],
  elim (Option-cases (c.stristr seen two_newlines (length seen))) [
    | inl e ↦ e
    | inr (i, e) ↦
        let byte = λ (j k b : ℕ). found_byte c seen two_newlines i j k b f e in
        let first = byte 0 i b'\n' (omega arith) (omega arith) refl (omega arith) in
        let second = byte 1 (suc i) b'\n' (omega arith) (omega arith) refl (omega arith) in
        absurd (ground (arith, has_end-ends_at seen i h))
  ],
)

-- While there is no blank line, no end of the head is found.
pub head_length_zero :
    (c : Config) (seen : Bytes)
    → Finds c.stristr
    → 4 ≤ length seen
    → has_end seen ≡ false
    → head_length c seen ≡ 0
unfolding head_length
head_length_zero c seen f h e =
    let (lines, newlines) = not_found c seen f e in
    if_false (ends_blank seen) _ (ends_blank-false seen h e) ∙ rw (lines, newlines) refl

-- A text that ends in a blank line is found to be the head.
pub head_length-blank :
    (c : Config) (seen : Bytes) → ends_blank seen ≡ true → head_length c seen ≡ length seen
unfolding head_length
head_length-blank c seen h = if_true (ends_blank seen) _ h
