-- ===== src/CachedNtoa/Tests.antt =====
-- The example of the theorem, with a function for the tree.
use alilua.Prelude.{
  ℕ, ◌+◌, ◌≡◌, sym, ap, ◌∙◌, true, Option, none, some, [], ◌∷◌, Bytes, update, update_self,
  update_ne,
}
use alilua.CachedNtoa.{RbTree, cached_ntoa}
use alilua.CachedNtoa.Laws.{IsTrue, cached_ntoa-inet_ntoa}

some_inj : (a b : ℕ → Option Bytes) → some a ≡ some b → a ≡ b
some_inj a b e = cc

abbrev by_function : RbTree (ℕ → Option Bytes)
by_function = record {
  find = λ t key. t key;
  insert = λ t key b. some (update t key (some b));
  find-insert = λ t t' key b e.
      ap (λ f. f key) (sym (some_inj (update t key (some b)) t' e)) ∙ update_self t key (some b);
  find-insert_other = λ t t' key other b e ne.
      ap (λ f. f other) (sym (some_inj (update t key (some b)) t' e))
      ∙ update_ne t key (some b) other ne;
}

abbrev last_number : ℕ → Bytes
last_number addr = (addr + b'0') ∷ []

abbrev no_entries : ℕ → Option Bytes
no_entries key = none

no_entries-IsTrue : IsTrue by_function last_number no_entries
no_entries-IsTrue addr text e = absurd (cc)

cached_ntoa-inet_ntoa_example :
    ((cached_ntoa by_function last_number true no_entries 7).1 ≡ last_number 7)
    × IsTrue by_function last_number (cached_ntoa by_function last_number true no_entries 7).0
cached_ntoa-inet_ntoa_example =
    cached_ntoa-inet_ntoa by_function last_number true no_entries 7 no_entries-IsTrue
