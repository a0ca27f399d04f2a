-- ===== src/Iconv/Laws.antt =====
-- What the cache of converters hands out.
use alilua.Prelude.{
  ℕ, ◌≤◌, ◌≡◌, refl, ap, ◌∙◌, none, some, inl, inr, List, [], ◌∷◌, ◌++◌, Bytes, length, arith, All,
  Option-cases,
}
use alilua.Iconv.{Node, Cache, cache_key, find_node, set_chain, get_iconv}

-- Every node stands in the chain of its key, and a chain has one node at most.
pub record IsValid {Handle : Type 0} (cds : Cache Handle) : Type 0 where
  pub keyed : (i : ℕ) → All (λ n. n.key ≡ i) (cds i)
  pub single : (i : ℕ) → length (cds i) ≤ 1

find_node-single :
    {Handle : Type 0} (key : ℕ) (chain : List (Node Handle))
    → All (λ n. n.key ≡ key) chain
    → find_node key chain ≡ none
    → chain ≡ []
unfolding find_node
find_node-single key [] h e = refl
find_node-single key (n ∷ rest) (hn, h) e = ground arith

find_node-append :
    {Handle : Type 0} (key : ℕ) (chain : List (Node Handle)) (n : Node Handle)
    → n.key ≡ key
    → find_node key chain ≡ none
    → find_node key (chain ++ n ∷ []) ≡ some n
unfolding find_node
find_node-append key [] n h e = ground arith
find_node-append key (m ∷ chain) n h e = ground (arith, find_node-append key chain n h)

module _ {Handle : Type 0} (iconv_open : Bytes → Bytes → Handle) where
  get_iconv_found :
      (cds : Cache Handle) (form to : Bytes) {n : Node Handle}
      → find_node (cache_key form to) (cds (cache_key form to)) ≡ some n
      → get_iconv iconv_open cds form to ≡ (n.cd, cds)
  unfolding get_iconv
  get_iconv_found cds form to e = rw (get_iconv, e) refl

  abbrev opened : Bytes → Bytes → Node Handle
  opened form to = record { cd = iconv_open to form; key = cache_key form to }

  get_iconv_missed :
      (cds : Cache Handle) (form to : Bytes)
      → find_node (cache_key form to) (cds (cache_key form to)) ≡ none
      → get_iconv iconv_open cds form to ≡ (
        iconv_open to form,
        set_chain cds (cache_key form to) (cds (cache_key form to) ++ opened form to ∷ []),
      )
  unfolding get_iconv
  get_iconv_missed cds form to e = rw (get_iconv, e) refl

  -- What a call hands out is what a later look-up under its key finds.
  find_node-get_iconv :
      (cds : Cache Handle) (form to : Bytes)
      → (n : Node Handle) × (n.cd ≡ (get_iconv iconv_open cds form to).0)
        × (find_node (cache_key form to) ((get_iconv iconv_open cds form to).1 (cache_key form to))
            ≡ some n)
  unfolding set_chain
  find_node-get_iconv cds form to =
      let key = cache_key form to in
      elim (Option-cases (find_node key (cds key))) [
        | inl e ↦ (
          opened form to,
          rw (get_iconv_missed cds form to e) refl,
          rw (get_iconv_missed cds form to e)
              (ground (arith, find_node-append key (cds key) (opened form to) refl e)),
        )
        | inr (n, e) ↦
            (n, rw (get_iconv_found cds form to e) refl, rw (get_iconv_found cds form to e) e)
      ]

  -- A pair of encodings gets the converter that an earlier call got for any pair with the same
  -- key: the code compares the keys below 32, and never the names.
  pub get_iconv_shared :
      (cds : Cache Handle) (form to form' to' : Bytes)
      → cache_key form to ≡ cache_key form' to'
      → (get_iconv iconv_open (get_iconv iconv_open cds form to).1 form' to').0
        ≡ (get_iconv iconv_open cds form to).0
  get_iconv_shared cds form to form' to' e =
      let (n, same, found) = find_node-get_iconv cds form to in
      let there = rw e at found in
      ap (λ r. r.0) (get_iconv_found (get_iconv iconv_open cds form to).1 form' to' there) ∙ same

  -- A call keeps the cache valid: chains never grow past one node.
  pub get_iconv-IsValid :
      (cds : Cache Handle) (form to : Bytes)
      → IsValid cds
      → IsValid (get_iconv iconv_open cds form to).1
  unfolding set_chain
  get_iconv-IsValid cds form to v =
      let key = cache_key form to in
      elim (Option-cases (find_node key (cds key))) [
        | inl e ↦
            let none_yet = find_node-single key (cds key) (v.keyed key) e in
            rw (get_iconv_missed cds form to e) (record {
              keyed = λ i. ground (arith, none_yet, v.keyed i);
              single = λ i. ground (arith, none_yet, v.single i);
            })
        | inr (n, e) ↦ rw (get_iconv_found cds form to e) v
      ]
