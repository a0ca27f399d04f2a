-- ===== src/CString/Laws.antt =====
-- How texts are cut at delimiters that stand where a printer put them.
use alilua.Prelude.{
  ℕ, ◌<◌, ◌≤◌, ◌≡◌, ◌≢◌, refl, ap, Bool, true, false, Option, none, some, [], ◌∷◌, ◌++◌, Bytes,
  length, All, ◌==◌, if◌then◌else◌, arith, Bool-cases, inl, inr, ap₂,
}
use alilua.CString.{str_eq, cut, strtok, saved, last_byte, but_last, drop_cr}

-- A text without a delimiter.
abbrev pub Without : ℕ → Bytes → Type 0
Without d = All (λ c. c ≢ d)

-- The test of `Without`.
abbrev pub lacks : ℕ → Bytes → Bool
lacks d [] = true
lacks d (c ∷ cs) = let rest = lacks d cs in if c == d then false else rest

pub lacks-Without : (d : ℕ) (t : Bytes) → lacks d t ≡ true → Without d t
lacks-Without d [] h = omega arith
lacks-Without d (c ∷ cs) h = elim (Bool-cases (c == d)) [
  | inl e ↦ absurd (ground arith)
  | inr e ↦ (ground arith, lacks-Without d cs (rw e at h))
]

pub cut-append : (d : ℕ) (t rest : Bytes) → Without d t → cut d (t ++ d ∷ rest) ≡ (t, some rest)
unfolding cut
cut-append d [] rest h = let e : (d == d) ≡ true = ground arith in rw e refl
cut-append d (c ∷ cs) rest (hc, h) =
    let e : (c == d) ≡ false = ground arith in rw (e, cut-append d cs rest h) refl

pub cut_all : (d : ℕ) (t : Bytes) → Without d t → cut d t ≡ (t, none)
unfolding cut
cut_all d [] h = refl
cut_all d (c ∷ cs) (hc, h) = let e : (c == d) ≡ false = ground arith in rw (e, cut_all d cs h) refl

pub strtok-append :
    (d : ℕ) (t rest : Bytes)
    → 0 < length t
    → Without d t
    → strtok d (t ++ d ∷ rest) ≡ some (t, some rest)
unfolding strtok
strtok-append d [] rest p h = absurd (omega arith)
strtok-append d (c ∷ cs) rest p (hc, h) =
    let e : (c == d) ≡ false = ground arith in rw (e, cut-append d cs rest h) refl

pub strtok_all : (d : ℕ) (t : Bytes) → 0 < length t → Without d t → strtok d t ≡ some (t, none)
unfolding strtok
strtok_all d [] p h = absurd (omega arith)
strtok_all d (c ∷ cs) p (hc, h) =
    let e : (c == d) ≡ false = ground arith in rw (e, cut_all d cs h) refl

-- What is left behind a token is shorter than the text.
cut-lt : (d : ℕ) (t : Bytes) → length (saved (cut d t).1) ≤ length t
unfolding cut
cut-lt d [] = omega arith
cut-lt d (c ∷ cs) = elim (Bool-cases (c == d)) [
  | inl e ↦ rw e (omega arith)
  | inr e ↦ rw e (omega (arith, cut-lt d cs))
]

pub strtok-lt :
    (d : ℕ) (t : Bytes) (token : Bytes) (behind : Option Bytes)
    → strtok d t ≡ some (token, behind)
    → length (saved behind) < length t
unfolding strtok
strtok-lt d [] token behind h = cc
strtok-lt d (c ∷ cs) token behind h = elim (Bool-cases (c == d)) [
  | inl e ↦ omega (arith, strtok-lt d cs token behind (rw e at h))
  | inr e ↦ ground (arith, cut-lt d cs)
]

pub last_byte-append : (t : Bytes) (c : ℕ) → last_byte (t ++ c ∷ []) ≡ c
unfolding last_byte
last_byte-append [] c = refl
last_byte-append (x ∷ []) c = refl
last_byte-append (x ∷ y ∷ ys) c = last_byte-append (y ∷ ys) c

but_last-append : (t : Bytes) (c : ℕ) → but_last (t ++ c ∷ []) ≡ t
unfolding but_last
but_last-append [] c = refl
but_last-append (x ∷ []) c = refl
but_last-append (x ∷ y ∷ ys) c = ap (◌∷◌ x) (but_last-append (y ∷ ys) c)

pub drop_cr-append : (t : Bytes) → drop_cr (t ++ b'\r' ∷ []) ≡ t
unfolding drop_cr
drop_cr-append t = rw (last_byte-append t b'\r') (but_last-append t b'\r')

pub str_eq-≡ : (s t : Bytes) → str_eq s t ≡ true → s ≡ t
str_eq-≡ [] [] h = refl
str_eq-≡ [] (b ∷ bs) h = cc
str_eq-≡ (a ∷ as') [] h = cc
str_eq-≡ (a ∷ as') (b ∷ bs) h = elim (Bool-cases (a == b)) [
  | inl e ↦ ap₂ (◌∷◌) (ground arith) (str_eq-≡ as' bs (rw e at h))
  | inr e ↦ absurd (ground arith)
]
