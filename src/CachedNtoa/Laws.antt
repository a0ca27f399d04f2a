-- ===== src/CachedNtoa/Laws.antt =====
-- The tree never shows: each address gives the text that `inet_ntoa` makes of it.
use alilua.Prelude.{
  ℕ, ◌≡◌, refl, sym, ap, ◌∙◌, Bool, true, false, some, inl, inr, Bytes, ◌==◌, arith, Bool-cases,
  Option-cases,
}
use alilua.CachedNtoa.{RbTree, add_ntoa, cached_ntoa}

module _ {T : Type 0} (rb : RbTree T) (inet_ntoa : ℕ → Bytes) where
  -- What stands in the tree is the text of its address.
  abbrev pub IsTrue : T → Type 0
  IsTrue tree = (addr : ℕ) (text : Bytes) → rb.find tree addr ≡ some text → text ≡ inet_ntoa addr

  insert-IsTrue :
      (tree tree' : T) (addr : ℕ)
      → IsTrue tree
      → rb.insert tree addr (inet_ntoa addr) ≡ some tree'
      → IsTrue tree'
  insert-IsTrue tree tree' addr h e other text f = elim (Bool-cases (other == addr)) [
    | inl same ↦
        let eq : other ≡ addr = ground arith in
        let found : rb.find tree' other ≡ some (inet_ntoa addr) =
          ap (rb.find tree') eq ∙ rb.find-insert tree tree' addr (inet_ntoa addr) e in
        let text_eq : text ≡ inet_ntoa addr = cc in text_eq ∙ ap inet_ntoa (sym eq)
    | inr differs ↦
        h other text
          (sym (rb.find-insert_other tree tree' addr other (inet_ntoa addr) e (ground arith)) ∙ f)
  ]

  add_ntoa-IsTrue :
      (malloc : Bool) (tree : T) (addr : ℕ)
      → IsTrue tree
      → ((add_ntoa rb inet_ntoa malloc tree addr).1 ≡ inet_ntoa addr)
        × IsTrue (add_ntoa rb inet_ntoa malloc tree addr).0
  unfolding add_ntoa
  add_ntoa-IsTrue false tree addr h = (refl, h)
  add_ntoa-IsTrue true tree addr h = elim (Option-cases (rb.insert tree addr (inet_ntoa addr))) [
    | inl e ↦ rw (e, add_ntoa) ((refl, h))
    | inr (tree', e) ↦ rw (e, add_ntoa) ((refl, insert-IsTrue tree tree' addr h e))
  ]

  -- With a tree that holds true texts, as the empty one does, and whether or not there is memory: the
  -- function gives what `inet_ntoa` gives, and the tree holds true texts again.
  pub cached_ntoa-inet_ntoa :
      (malloc : Bool) (tree : T) (addr : ℕ)
      → IsTrue tree
      → ((cached_ntoa rb inet_ntoa malloc tree addr).1 ≡ inet_ntoa addr)
        × IsTrue (cached_ntoa rb inet_ntoa malloc tree addr).0
  unfolding cached_ntoa
  cached_ntoa-inet_ntoa malloc tree addr h = elim (Option-cases (rb.find tree addr)) [
    | inl e ↦ rw (e, cached_ntoa) (add_ntoa-IsTrue malloc tree addr h)
    | inr (text, e) ↦ rw (e, cached_ntoa) ((h addr text e, h))
  ]
