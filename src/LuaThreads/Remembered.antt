-- ===== src/LuaThreads/Remembered.antt =====
-- What is left of a request's globals when its thread is used again.
use mathlib.Core.Path.{subst}
use alilua.Prelude.{
  ◌==◌, ◌≡◌, refl, sym, ap, ap₂, ◌∙◌, Bool, true, false, not, inl, inr, List, [], ◌∷◌, Bytes, ◌&&◌,
  ◌||◌, All, Option, if◌then◌else◌, arith, Bool-cases, if_ind,
}
use alilua.CString.{str_eq}
use alilua.CString.Laws.{str_eq-≡, Without, cut_all}
use alilua.LuaThreads.{
  Globals, is_remembered, is_in, cut_names, assign, assign_all, reinit_lua_thread_env,
}

str_eq_refl : (t : Bytes) → str_eq t t ≡ true
str_eq_refl [] = refl
str_eq_refl (c ∷ cs) = let e : (c == c) ≡ true = ground arith in rw e (str_eq_refl cs)

known : (b i r : Bool) → (b || i) ≡ true → (not b && (i && r)) ≡ (not b && (true && r))
known true i r h = refl
known false true r h = refl
known false false r h = absurd (ground arith)

unset : (b i : Bool) → (b || i) ≡ false → (b ≡ false) × (i ≡ false)
unset true i h = absurd (ground arith)
unset false i h = (refl, h)

swap_or : (i e s : Bool) → (i || (e || s)) ≡ ((e || i) || s)
swap_or true true s = refl
swap_or true false s = refl
swap_or false true s = refl
swap_or false false s = refl

or_false : (b : Bool) → (b || false) ≡ b
or_false true = refl
or_false false = refl

and_false : (b : Bool) → (not b && false) ≡ false
and_false true = refl
and_false false = refl

cleared : (b i r : Bool) → (not (not b && (i && r)) && (b || i)) ≡ (b || (i && not r))
cleared true i r = refl
cleared false true true = refl
cleared false true false = refl
cleared false false r = refl

cut_names-Without : (ks : List Bytes) → All (Without 0) ks → cut_names ks ≡ ks
cut_names-Without [] h = refl
cut_names-Without (k ∷ ks) (h, hs) =
    ap₂ (◌∷◌) (ap (λ (x : Bytes × Option Bytes). x.0) (cut_all 0 k h)) (cut_names-Without ks hs)

-- `base` says which globals were set before the request.
module _ (base : Bytes → Bool) where
  -- The globals after a request has assigned to the names that `seen` tells.
  record IsAfter (g : Globals) (seen : Bytes → Bool) : Type 0 where
    is_set : (k : Bytes) → g.is_set k ≡ (base k || seen k)
    remembered :
        (k : Bytes) → is_in k g.remembered ≡ (not (base k) && (seen k && is_remembered true k))

  -- To show something of all names, show it of the one that is assigned to and of those that differ.
  at_key :
      (P : Bytes → Type 0) (key : Bytes)
      → P key
      → ((k : Bytes) → str_eq key k ≡ false → P k)
      → (k : Bytes) → P k
  at_key P key here other k = elim (Bool-cases (str_eq key k)) [
    | inl e ↦ subst P (str_eq-≡ key k e) here
    | inr e ↦ other k e
  ]

  -- The name was set before, so nothing is done.
  keep-IsAfter :
      (g : Globals) (seen : Bytes → Bool) (key : Bytes)
      → IsAfter g seen
      → g.is_set key ≡ true
      → IsAfter g (λ k. str_eq key k || seen k)
  keep-IsAfter g seen key a h =
      let same = str_eq_refl key in
      let set = sym (a.is_set key) ∙ h in
      record {
        is_set =
            at_key (λ k. g.is_set k ≡ (base k || (str_eq key k || seen k))) key
              (rw (same, h)
                (elim (Bool-cases (base key)) [ inl b ↦ rw b refl | inr b ↦ rw b refl ]))
              (λ k e. rw e (a.is_set k));
        remembered =
            at_key
              (λ k.
                is_in k g.remembered
                ≡ (not (base k) && ((str_eq key k || seen k) && is_remembered true k)))
              key
              (a.remembered key
                ∙ rw same (known (base key) (seen key) (is_remembered true key) set))
              (λ k e. rw e (a.remembered k));
      }

  -- The name is new.
  add-IsAfter :
      (g : Globals) (seen : Bytes → Bool) (key : Bytes)
      → IsAfter g seen
      → g.is_set key ≡ false
      → IsAfter
          (record {
            is_set = λ k. str_eq key k || g.is_set k;
            remembered = if is_remembered true key then key ∷ g.remembered else g.remembered;
          })
          (λ k. str_eq key k || seen k)
  add-IsAfter g seen key a h =
      let same = str_eq_refl key in
      let (b, i) = unset (base key) (seen key) (sym (a.is_set key) ∙ h) in
      record {
        is_set =
            at_key (λ k. (str_eq key k || g.is_set k) ≡ (base k || (str_eq key k || seen k))) key
              (rw (same, b) refl) (λ k e. rw e (a.is_set k));
        remembered =
            at_key
              (λ k.
                is_in k (if is_remembered true key then key ∷ g.remembered else g.remembered)
                ≡ (not (base k) && ((str_eq key k || seen k) && is_remembered true k)))
              key
              (elim (Bool-cases (is_remembered true key)) [
                | inl r ↦ rw (r, same, b) refl
                | inr r ↦ rw (r, same, b) (a.remembered key ∙ rw (b, i) refl)
              ])
              (λ k e. rw e (
                if_ind
                  (λ (ks : List Bytes).
                    is_in k ks ≡ (not (base k) && (seen k && is_remembered true k)))
                  (is_remembered true key) (λ r. rw e (a.remembered k)) (λ r. a.remembered k)));
      }

  assign-IsAfter :
      (g : Globals) (seen : Bytes → Bool) (key : Bytes)
      → IsAfter g seen
      → IsAfter (assign true g key) (λ k. str_eq key k || seen k)
  unfolding assign
  assign-IsAfter g seen key a =
      if_ind (λ (x : Globals). IsAfter x (λ k. str_eq key k || seen k)) (g.is_set key)
        (keep-IsAfter g seen key a) (add-IsAfter g seen key a)

  assign_all-IsAfter :
      (g : Globals) (seen : Bytes → Bool) (keys : List Bytes)
      → IsAfter g seen
      → IsAfter (assign_all true g keys) (λ k. is_in k keys || seen k)
  unfolding assign_all
  assign_all-IsAfter g seen [] a = record { is_set = a.is_set; remembered = a.remembered }
  assign_all-IsAfter g seen (key ∷ keys) a =
      let rest =
        assign_all-IsAfter (assign true g key) (λ k. str_eq key k || seen k) keys
          (assign-IsAfter g seen key a) in
      record {
        is_set = λ k.
            rest.is_set k ∙ ap (λ b. base k || b) (swap_or (is_in k keys) (str_eq key k) (seen k));
        remembered = λ k.
            rest.remembered k
            ∙ ap (λ b. not (base k) && (b && is_remembered true k))
                (swap_or (is_in k keys) (str_eq key k) (seen k));
      }

  assign_all-Without :
      (g : Globals) (keys : List Bytes)
      → All (Without 0) keys
      → All (Without 0) g.remembered
      → All (Without 0) (assign_all true g keys).remembered
  unfolding assign_all assign
  assign_all-Without g [] h r = r
  assign_all-Without g (key ∷ keys) (h, hs) r = assign_all-Without (assign true g key) keys hs (
      if_ind (λ (x : Globals). All (Without 0) x.remembered) (g.is_set key) (λ _. r)
        (λ _. if_ind (All (Without 0)) (is_remembered true key) (λ _. (h, r)) (λ _. r)))

  -- A request that assigns to globals on a thread of which nothing is remembered: when the thread is
  -- used again, and none of their names has a byte 0, the names that were set before are set, and of the others just those that it assigned
  -- to and that are not remembered, which are those of 56 bytes or more and those of two or more
  -- bytes whose first or second byte is `_`.
  pub reinit_lua_thread_env-assign_all :
      (keys : List Bytes) (k : Bytes)
      → All (Without 0) keys
      → (reinit_lua_thread_env
            (assign_all true (record { is_set = base; remembered = [] }) keys)).is_set
          k
        ≡ (base k || (is_in k keys && not (is_remembered true k)))
  unfolding reinit_lua_thread_env
  reinit_lua_thread_env-assign_all keys k no_nul =
      let fresh : IsAfter (record { is_set = base; remembered = [] }) (λ k. false) = record {
        is_set = λ k. sym (or_false (base k));
        remembered = λ k. sym (and_false (base k));
      } in
      let after =
        assign_all-IsAfter (record { is_set = base; remembered = [] }) (λ k. false) keys fresh in
      let begun : Globals = record { is_set = base; remembered = [] } in
      let whole =
        cut_names-Without (assign_all true begun keys).remembered
          (assign_all-Without begun keys no_nul tt) in
      ap (λ ks. not (is_in k ks) && (assign_all true begun keys).is_set k) whole
      ∙ ap₂ (λ r s. not r && s) (after.remembered k) (after.is_set k)
      ∙ ap (λ i. not (not (base k) && (i && is_remembered true k)) && (base k || i))
          (or_false (is_in k keys))
      ∙ cleared (base k) (is_in k keys) (is_remembered true k)
