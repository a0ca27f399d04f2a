-- ===== src/CachedAccess/Tests.antt =====
-- The example of the theorem, with a function for the tree.
use alilua.Prelude.{
  ℕ, ◌≡◌, refl, sym, ap, ◌∙◌, true, Option, none, some, update, update_self, update_ne, arith, ltb,
  if◌then◌else◌, ◌==◌, Bool-cases, inl, inr,
}
use mathlib.Core.Path.{subst}
use alilua.Prelude.Int.{ℤ, pos, negsuc}
use alilua.CachedAccess.{Entry, AccessTree, cached_access}
use alilua.CachedAccess.Fresh.{IsSeen, IsCurrent, IsRecent, cached_access-IsRecent}

abbrev Entries : Type 0
Entries = ℕ → Option Entry

some_inj : (a b : Entries) → some a ≡ some b → a ≡ b
some_inj a b e = cc

abbrev by_function : AccessTree Entries
by_function = record {
  find = λ t key. t key;
  insert = λ t key e. some (update t key (some e));
  write = λ t key e. update t key (some e);
  insert_some = λ t key e absent. (update t key (some e), refl);
  find-insert = λ t t' key d e.
      ap (λ f. f key) (sym (some_inj (update t key (some d)) t' e)) ∙ update_self t key (some d);
  find-insert_other = λ t t' key other d e ne.
      ap (λ f. f other) (sym (some_inj (update t key (some d)) t' e))
      ∙ update_ne t key (some d) other ne;
  find-write = λ t key d e found. update_self t key (some e);
  find-write_other = λ t key other e ne. update_ne t key (some e) other ne;
}

-- The file with key 7 is there, until the second 20.
abbrev removed_at_20 : ℕ → ℕ → ℤ
removed_at_20 time key = if ltb time 20 then pos 0 else negsuc 0

abbrev no_entries : Entries
no_entries key = none

abbrev entry_of_15 : Entry
entry_of_15 = record { last = 15; exists = pos 0 }

abbrev checked_at_15 : Entries
checked_at_15 = update no_entries 7 (some entry_of_15)

checked_at_15-IsCurrent : IsCurrent by_function removed_at_20 24 checked_at_15
checked_at_15-IsCurrent key e f = elim (Bool-cases (key == 7)) [
  | inl same ↦
      let at_7 : key ≡ 7 = ground arith in
      let found : some entry_of_15 ≡ some e =
        sym (update_self no_entries 7 (some entry_of_15)) ∙ ap checked_at_15 (sym at_7) ∙ f in
      let e_eq : entry_of_15 ≡ e = cc in
      subst (IsSeen by_function removed_at_20 24 key) e_eq (omega arith, inr refl)
  | inr differs ↦
      let nothing : no_entries key ≡ some e =
        sym (update_ne no_entries 7 (some entry_of_15) key (ground arith)) ∙ f in
      absurd (cc)
]

cached_access-IsRecent_example :
    IsCurrent by_function removed_at_20 24
      (cached_access by_function true 24 checked_at_15 7 (removed_at_20 24 7)).0
    × IsRecent by_function removed_at_20 24 7
        (cached_access by_function true 24 checked_at_15 7 (removed_at_20 24 7)).1
cached_access-IsRecent_example =
    cached_access-IsRecent by_function removed_at_20 24 7 checked_at_15 (omega arith) (omega arith)
      checked_at_15-IsCurrent
