-- ===== src/Network/Reader/Search.antt =====
-- A search that meets what is asked of coevent's `stristr`.
use alilua.Prelude.{
  ℕ, zero, suc, ◌+◌, ◌<◌, ◌≤◌, ◌≡◌, refl, ap, sym, ◌∙◌, Bool, true, false, Option, none, some, inl,
  inr, [], ◌∷◌, Bytes, length, get_or, take, ◌==◌, if◌then◌else◌, arith, Bool-cases, Option-cases,
  length-take-le, if_true, if_false, ◌≢◌,
}
use mathlib.Core.Path.{subst}
use alilua.CString.{to_lower}
use alilua.Network.Reader.Blank.{Finds}
use alilua.Network.Reader.Room.{FindsInside}

-- The text begins with `t`, but for the case of letters.
matches : Bytes → Bytes → Bool
matches [] text = true
matches (x ∷ xs) [] = false
matches (x ∷ xs) (c ∷ cs) =
    let rest = matches xs cs in if to_lower c == to_lower x then rest else false

place : Bytes → Bytes → Option ℕ
place [] t = if matches t [] then some 0 else none
place (c ∷ cs) t =
    let later : Option ℕ = elim (place cs t) [ none ↦ none | some i ↦ some (suc i) ] in
    if matches t (c ∷ cs) then some 0 else later

unfoldable pub search_text : Bytes → Bytes → ℕ → Option ℕ
unfolding matches place to_lower
search_text text t len = place (take len text) t

matches-get_or :
    (t text : Bytes) (j : ℕ)
    → matches t text ≡ true
    → j < length t
    → (to_lower (get_or text j 0) ≡ to_lower (get_or t j 0)) × (j < length text)
unfolding matches
matches-get_or [] text j h lt = absurd (omega arith)
matches-get_or (x ∷ xs) [] j h lt = absurd (cc)
matches-get_or (x ∷ xs) (c ∷ cs) zero h lt = (ground arith, omega arith)
matches-get_or (x ∷ xs) (c ∷ cs) (suc j) h lt = elim (Bool-cases (to_lower c == to_lower x)) [
  | inl e ↦
      let (same, inside) = matches-get_or xs cs j (rw e at h) (omega arith) in
      (same, omega (arith, inside))
  | inr e ↦ absurd (ground arith)
]

length-matches : (t text : Bytes) → matches t text ≡ true → length t ≤ length text
unfolding matches
length-matches [] text h = omega arith
length-matches (x ∷ xs) [] h = absurd (cc)
length-matches (x ∷ xs) (c ∷ cs) h = elim (Bool-cases (to_lower c == to_lower x)) [
  | inl e ↦ omega (arith, length-matches xs cs (rw e at h))
  | inr e ↦ absurd (ground arith)
]

some_inj : (a b : ℕ) → some a ≡ some b → a ≡ b
some_inj a b e = cc

none-ne-some : (a : ℕ) → none ≢ some a
none-ne-some a e = cc

-- The text `t` stands at a place.
record StandsAt (text t : Bytes) (i : ℕ) : Type 0 where
  fits : i + length t ≤ length text
  same : (j : ℕ) → j < length t → to_lower (get_or text (i + j) 0) ≡ to_lower (get_or t j 0)

StandsAt-zero : (text t : Bytes) → matches t text ≡ true → StandsAt text t 0
StandsAt-zero text t h = record {
  fits = omega (arith, length-matches t text h);
  same = λ j lt.
      let e : 0 + j ≡ j = omega arith in
      ap (λ k. to_lower (get_or text k 0)) e ∙ (matches-get_or t text j h lt).0;
}

StandsAt-suc : (c : ℕ) (cs t : Bytes) (i : ℕ) → StandsAt cs t i → StandsAt (c ∷ cs) t (suc i)
StandsAt-suc c cs t i s = record {
  fits = omega (arith, s.fits);
  same = λ j lt.
      let e : suc i + j ≡ suc (i + j) = omega arith in
      ap (λ k. to_lower (get_or (c ∷ cs) k 0)) e ∙ s.same j lt;
}

place-StandsAt : (text t : Bytes) (i : ℕ) → place text t ≡ some i → StandsAt text t i
unfolding place
place-StandsAt [] t i h = elim (Bool-cases (matches t [])) [
  | inl e ↦
      let zero_eq : 0 ≡ i = some_inj 0 i (sym (if_true (matches t []) none e) ∙ h) in
      subst (StandsAt [] t) zero_eq (StandsAt-zero [] t e)
  | inr e ↦ absurd (none-ne-some i (sym (if_false (matches t []) (some 0) e) ∙ h))
]
place-StandsAt (c ∷ cs) t i h = elim (Bool-cases (matches t (c ∷ cs))) [
  | inl e ↦
      let zero_eq : 0 ≡ i = some_inj 0 i (sym (if_true (matches t (c ∷ cs)) _ e) ∙ h) in
      subst (StandsAt (c ∷ cs) t) zero_eq (StandsAt-zero (c ∷ cs) t e)
  | inr e ↦
      let later = sym (if_false (matches t (c ∷ cs)) (some 0) e) ∙ h in
      elim (Option-cases (place cs t)) [
        | inl d ↦ absurd (none-ne-some i (rw d at later))
        | inr (k, d) ↦
            let suc_eq : suc k ≡ i = some_inj (suc k) i (rw d at later) in
            subst (StandsAt (c ∷ cs) t) suc_eq (StandsAt-suc c cs t k (place-StandsAt cs t k d))
      ]
]

pub search_text-FindsInside : FindsInside search_text
unfolding search_text
search_text-FindsInside text t len i e =
    let s = place-StandsAt (take len text) t i e in
    omega (arith, s.fits, length-take-le {0} len text)

get_or-take_lt :
    (n : ℕ) (t : Bytes) (k : ℕ) → k < length (take n t) → get_or (take n t) k 0 ≡ get_or t k 0
get_or-take_lt zero t k h = absurd (omega arith)
get_or-take_lt (suc n) [] k h = absurd (omega arith)
get_or-take_lt (suc n) (c ∷ cs) zero h = refl
get_or-take_lt (suc n) (c ∷ cs) (suc k) h = get_or-take_lt n cs k (omega arith)

pub search_text-Finds : Finds search_text
unfolding search_text
search_text-Finds text t len i j e lt =
    let s = place-StandsAt (take len text) t i e in
    ap to_lower (sym (get_or-take_lt len text (i + j) (omega (arith, s.fits)))) ∙ s.same j lt
