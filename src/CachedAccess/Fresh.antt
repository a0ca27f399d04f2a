-- ===== src/CachedAccess/Fresh.antt =====
-- An answer is never older than ten seconds.
use alilua.Prelude.{
  ℕ, ◌+◌, ◌-◌, ◌^◌, ◌<◌, ◌≤◌, ◌≡◌, ◌≢◌, refl, ap, sym, ◌∙◌, true, false, none, some, inl, inr, ◌⊎◌,
  ltb, ◌==◌, arith, if_ind, Bool-cases, Option-cases,
}
use mathlib.Core.Path.{subst}
use alilua.Prelude.Int.{ℤ}
use alilua.CachedAccess.{Entry, AccessTree, elapsed, add_access, check_access, cached_access}

elapsed-le : (now last : ℕ) → last ≤ now → now < 2 ^ 64 → elapsed now last ≡ now - last
unfolding elapsed
elapsed-le now last le bound = omega arith

some_inj : (d e : Entry) → some d ≡ some e → d ≡ e
some_inj d e h = cc

-- `world time key` is what `access` returns at a time for the path with a key.
module _ {T : Type 0} (tree : AccessTree T) (world : ℕ → ℕ → ℤ) where
  -- What an entry may hold at a time: nothing was checked again since it was made, or it was checked
  -- at the time it names.
  abbrev pub IsSeen : ℕ → ℕ → Entry → Type 0
  IsSeen now key e = (e.last ≤ now) × ((e.last ≡ 0) ⊎ (e.exists ≡ world e.last key))

  abbrev pub IsCurrent : ℕ → T → Type 0
  IsCurrent now t = (key : ℕ) (e : Entry) → tree.find t key ≡ some e → IsSeen now key e

  -- An answer that was right within the last ten seconds.
  abbrev pub IsRecent : ℕ → ℕ → ℤ → Type 0
  IsRecent now key answer =
      (time : ℕ) × (time ≤ now) × (now ≤ time + 10) × (answer ≡ world time key)

  abbrev Holds : ℕ → ℕ → T × ℤ → Type 0
  Holds now key r = IsCurrent now r.0 × IsRecent now key r.1

  changed-IsCurrent :
      (now key : ℕ) (t t' : T) (d : Entry)
      → IsCurrent now t
      → tree.find t' key ≡ some d
      → IsSeen now key d
      → ((other : ℕ) → other ≢ key → tree.find t' other ≡ tree.find t other)
      → IsCurrent now t'
  changed-IsCurrent now key t t' d h found seen others other e f =
      elim (Bool-cases (other == key)) [
        | inl same ↦
            let eq : other ≡ key = ground arith in
            let d_eq : d ≡ e = some_inj d e (sym found ∙ ap (tree.find t') (sym eq) ∙ f) in
            subst (λ (k : ℕ). IsSeen now k e) (sym eq) (subst (IsSeen now key) d_eq seen)
        | inr differs ↦ h other e (sym (others other (ground arith)) ∙ f)
      ]

  check_access-Holds :
      (now key : ℕ) (t : T) (e : Entry)
      → 10 < now
      → now < 2 ^ 64
      → IsCurrent now t
      → tree.find t key ≡ some e
      → Holds now key (check_access tree now t key (world now key) e)
  unfolding check_access
  check_access-Holds now key t e late bound h f =
      let d : Entry = record { last = now; exists = world now key } in
      if_ind (Holds now key) (ltb 10 (elapsed now e.last))
        (λ _. (
          changed-IsCurrent now key t (tree.write t key d) d h (tree.find-write t key e d f)
              (omega arith, inr refl) (λ other ne. tree.find-write_other t key other d ne),
          (now, omega arith, omega arith, refl),
        ))
        (λ recent.
          let (before, seen) = h key e f in
          let age : elapsed now e.last ≡ now - e.last = elapsed-le now e.last before bound in
          let recent_age : ltb 10 (now - e.last) ≡ false = ap (ltb 10) (sym age) ∙ recent in
          (
            h,
            elim seen [
              | inl never ↦ absurd (ground arith)
              | inr right ↦ (e.last, before, ground arith, right)
            ],
          ))

  add_access-Holds :
      (now key : ℕ) (t : T)
      → IsCurrent now t
      → tree.find t key ≡ none
      → Holds now key (add_access tree true t key (world now key))
  unfolding add_access
  add_access-Holds now key t h f =
      let d : Entry = record { last = 0; exists = world now key } in
      let (t', e) = tree.insert_some t key d f in
      rw (e, add_access)
        ((
          changed-IsCurrent now key t t' d h (tree.find-insert t t' key d e) (omega arith, inl refl)
              (λ other ne. tree.find-insert_other t t' key other d e ne),
          (now, omega arith, omega arith, refl),
        ))

  -- With memory, at a time above 10 and below 2 ^ 64, and with entries that are current, as those of the empty
  -- tree are: the answer for a key is what `access` returned at a time within the last ten seconds,
  -- and the entries are current again.
  pub cached_access-IsRecent :
      (now key : ℕ) (t : T)
      → 10 < now
      → now < 2 ^ 64
      → IsCurrent now t
      → IsCurrent now (cached_access tree true now t key (world now key)).0
        × IsRecent now key (cached_access tree true now t key (world now key)).1
  unfolding cached_access
  cached_access-IsRecent now key t late bound h = elim (Option-cases (tree.find t key)) [
    | inl e ↦ rw (e, cached_access) (add_access-Holds now key t h e)
    | inr (d, e) ↦ rw (e, cached_access) (check_access-Holds now key t d late bound h e)
  ]
