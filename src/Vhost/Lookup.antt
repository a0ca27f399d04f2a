-- ===== src/Vhost/Lookup.antt =====
-- A host that has an entry of its own is never served by a wildcard.
use alilua.Prelude.{
  ℕ, ◌<◌, ◌≤◌, ◌≡◌, refl, ◌∙◌, Bool, true, false, not, some, inl, inr, List, [], ◌∷◌, Bytes, length,
  ◌==◌, ◌&&◌, ◌||◌, arith, All, Bool-cases, if_true, if_false,
}
use alilua.Vhost.{
  is_gone, is_wildcard, VhostConf, matches_wildcard, is_found, get_vhost_conf, update_vhost_routes,
}
use alilua.Vhost.Order.{rank, IsBefore, IsConf}
use alilua.Vhost.Routes.{star, IsVhosts, update_vhost_routes-IsVhosts}

neither : (a b : Bool) → a ≡ false → b ≡ false → (a || b) ≡ true → ⊥
neither a b ha hb h = cc

other : (a b : Bool) → a ≡ false → (a || b) ≡ true → b ≡ true
other a b ha h = rw ha at h

module _ (same : Bytes → Bytes → Bool) where
  -- An entry in use whose host is a name, and this one.
  abbrev pub is_own : Bytes → VhostConf → Bool
  is_own host c = not (is_gone c.mtype) && (same host c.host && rank c.host == 0)

  abbrev pub has_own : Bytes → List VhostConf → Bool
  has_own host [] = false
  has_own host (c ∷ cs) = is_own host c || has_own host cs

  no_own :
      (host : Bytes) (c : VhostConf) (cs : List VhostConf)
      → 1 ≤ rank c.host
      → All (IsBefore c) cs
      → has_own host cs ≡ false
  no_own host c [] r b = refl
  no_own host c (d ∷ ds) r (h, b) =
      let named : (rank d.host == 0) ≡ false = ground arith in
      let rest = no_own host c ds r b in rw (named, rest) (ground arith)

  -- What is found without an equal host is a wildcard.
  found_wildcard :
      (host : Bytes) (c : VhostConf)
      → IsConf c
      → is_found same host true false c ≡ true
      → same host c.host ≡ false
      → 1 ≤ rank c.host
  unfolding is_found matches_wildcard
  found_wildcard host c k f s = elim (Bool-cases (is_wildcard c.mtype)) [
    | inl w ↦ k.1 w
    | inr w ↦ absurd (ground arith)
  ]

  -- An entry that is not found is not an own one.
  own_found :
      (host : Bytes) (c : VhostConf)
      → is_found same host true false c ≡ false
      → is_own host c ≡ false
  unfolding is_found
  own_found host c f = ground arith

  differs_own : (host : Bytes) (c : VhostConf) → same host c.host ≡ false → is_own host c ≡ false
  differs_own host c s = ground arith

  get_vhost_conf-own :
      (host : Bytes) (cs : List VhostConf)
      → IsVhosts cs
      → has_own host cs ≡ true
      → (c : VhostConf) × (get_vhost_conf same cs host true false ≡ some c)
        × (same host c.host ≡ true)
  unfolding get_vhost_conf
  get_vhost_conf-own host [] v h = absurd (cc)
  get_vhost_conf-own host (c ∷ cs) ((k, ks), (b, o)) h =
      elim (Bool-cases (is_found same host true false c)) [
        | inl f ↦ elim (Bool-cases (same host c.host)) [
          | inl s ↦ (
            c,
            if_true (is_found same host true false c) (get_vhost_conf same cs host true false) f,
            s,
          )
          | inr s ↦
              let none_left = no_own host c cs (found_wildcard host c k f s) b in
              absurd (neither (is_own host c) (has_own host cs) (differs_own host c s) none_left h)
        ]
        | inr f ↦
            let (d, e, s) =
              get_vhost_conf-own host cs (ks, o)
                (other (is_own host c) (has_own host cs) (own_found host c f) h) in
            (d, if_false (is_found same host true false c) (some c) f ∙ e, s)
      ]

-- After an update with any routes of a list that was in order, as the empty one is, the list is in
-- order again: names, then wildcards, then at most one `*`. A host that has an entry in use under a
-- name is then served by an entry with an equal host and by no wildcard. The names in the routes
-- have two bytes or more, and `stricmp` finds `*` equal to itself.
pub update_vhost_routes-own :
    (same : Bytes → Bytes → Bool) (stale : ℕ) (cs : List VhostConf) (routes : List (Bytes × Bytes))
    (host : Bytes)
    → same star star ≡ true
    → IsVhosts cs
    → All (λ r. rank r.0 ≡ 0 → 1 < length r.0) routes
    → has_own same host (update_vhost_routes same stale cs routes) ≡ true
    → IsVhosts (update_vhost_routes same stale cs routes)
      × ((c : VhostConf) × (get_vhost_conf same
              (update_vhost_routes same stale cs routes)
              host
              true
              false
            ≡ some c)
          × (same host c.host ≡ true))
update_vhost_routes-own same stale cs routes host s v r h =
    let kept = update_vhost_routes-IsVhosts same s stale cs routes r v in
    (kept, get_vhost_conf-own same host (update_vhost_routes same stale cs routes) kept h)
