-- ===== src/Vhost/Routes.antt =====
-- An update keeps the hosts in order, and a host is looked up in that order.
use alilua.Prelude.{
  ℕ, ◌+◌, ◌<◌, ◌≤◌, ◌≡◌, refl, sym, ap, ap₂, ◌∙◌, Bool, true, false, none, some, inl, inr, List, [],
  ◌∷◌, Bytes, get_or, length, ltb, ◌==◌, ◌&&◌, arith, All, Bool-cases, Option-cases, if_ind,
  if_true, if_false,
}
use alilua.Vhost.{
  gone, is_wildcard, VhostConf, mtype_of, set_root, insert_wildcard, insert_conf, is_found,
  get_vhost_conf, change_root, add_route, add_routes, retire, update_vhost_routes,
}
use alilua.Vhost.Order.{
  rank, IsBefore, IsOrdered, IsConf, Differ, All-put_wildcard, insert_conf-IsOrdered,
}

abbrev pub star : Bytes
star = b'*' ∷ []

rank_two : (host : Bytes) → 2 ≤ rank host → host ≡ star
rank_two [] h = absurd (omega arith)
rank_two (c ∷ []) h = ap (λ x. x ∷ []) (ground arith)
rank_two (c ∷ d ∷ ds) h = absurd (ground arith)

rank_le : (host : Bytes) → rank host ≤ 2
rank_le host = ground arith

absurd_some : (c : VhostConf) → some c ≡ none → ⊥
absurd_some c e = cc

mtype_of-rank :
    (host : Bytes)
    → (is_wildcard (mtype_of host) ≡ true → 1 ≤ rank host)
      × (is_wildcard (mtype_of host) ≡ false → rank host ≡ 0)
unfolding mtype_of
mtype_of-rank host = elim (Bool-cases (get_or host 0 0 == b'*')) [
  | inl e ↦ rw e ((λ t. ground arith, λ f. absurd (ground arith)))
  | inr e ↦ rw e ((λ t. absurd (ground arith), λ f. refl))
]

All-insert_wildcard :
    (P : VhostConf → Type 0) (c : VhostConf) (cs : List VhostConf)
    → P c
    → All P cs
    → All P (insert_wildcard c cs)
unfolding insert_wildcard
All-insert_wildcard P c [] h k = (h, k)
All-insert_wildcard P c (last ∷ []) h (l, k) =
    if_ind (λ (ds : List VhostConf). All P ds) (ltb 1 (length last.host)) (λ e. (l, (h, k)))
      (λ e. (l, k))
All-insert_wildcard P c (x ∷ y ∷ rest) h k = All-put_wildcard P c (x ∷ y ∷ rest) h k

All-insert_conf :
    (P : VhostConf → Type 0) (c : VhostConf) (cs : List VhostConf)
    → P c
    → All P cs
    → All P (insert_conf c cs)
unfolding insert_conf
All-insert_conf P c cs h k =
    if_ind (λ (ds : List VhostConf). All P ds) (is_wildcard c.mtype)
      (λ e. All-insert_wildcard P c cs h k) (λ e. (h, k))

All-retire :
    (P : VhostConf → Type 0) (cs : List VhostConf)
    → ((c : VhostConf) → P c → P (record c { mtype = gone }))
    → All P cs
    → All P (retire cs)
All-retire P [] f h = omega arith
All-retire P (c ∷ cs) f (h, k) = (f c h, All-retire P cs f k)

retire-IsOrdered : (cs : List VhostConf) → IsOrdered cs → IsOrdered (retire cs)
retire-IsOrdered [] o = omega arith
retire-IsOrdered (c ∷ cs) (b, o) = (All-retire (IsBefore c) cs (λ d h. h) b, retire-IsOrdered cs o)

-- The hosts are in order, and each is a name or a wildcard.
abbrev pub IsVhosts : List VhostConf → Type 0
IsVhosts cs = All IsConf cs × IsOrdered cs

module _ (same : Bytes → Bytes → Bool) (same_star : same star star ≡ true) where
  -- What a route may name.
  abbrev pub IsRoute : Bytes × Bytes → Type 0
  IsRoute (host, root) = rank host ≡ 0 → 1 < length host

  All-change_root :
      (P : VhostConf → Type 0) (cs : List VhostConf) (host root : Bytes)
      → ((c : VhostConf) → P c → P (set_root (record c { mtype = mtype_of c.host }) root))
      → All P cs
      → All P (change_root same cs host root)
  unfolding change_root
  All-change_root P [] host root f h = omega arith
  All-change_root P (c ∷ cs) host root f (h, k) =
      if_ind (λ (ds : List VhostConf). All P ds) (is_found same host false true c) (λ e. (f c h, k))
        (λ e. (h, All-change_root P cs host root f k))

  change_root-IsOrdered :
      (cs : List VhostConf) (host root : Bytes)
      → IsOrdered cs
      → IsOrdered (change_root same cs host root)
  unfolding change_root set_root
  change_root-IsOrdered [] host root o = omega arith
  change_root-IsOrdered (c ∷ cs) host root (b, o) =
      if_ind IsOrdered (is_found same host false true c) (λ e. (b, o))
        (λ e. (
          All-change_root (IsBefore c) cs host root (λ d h. h) b,
          change_root-IsOrdered cs host root o,
        ))

  changed-IsConf :
      (c : VhostConf) (root : Bytes)
      → IsConf c
      → IsConf (set_root (record c { mtype = mtype_of c.host }) root)
  unfolding set_root
  changed-IsConf c root k = (k.0, (mtype_of-rank c.host).0)

  -- A host that is not found differs from all that are there.
  stars_differ : (a b : Bytes) → same a b ≡ false → rank a + rank b < 4
  stars_differ a b e = elim (Bool-cases (ltb (rank a + rank b) 4)) [
    | inl h ↦ ground arith
    | inr h ↦
        let at_most : (c : Bytes) → rank c ≤ 2 = rank_le in
        let big : (2 ≤ rank a) × (2 ≤ rank b) = ground (arith, at_most a, at_most b) in
        let equal : same a b ≡ true = ap₂ same (rank_two a big.0) (rank_two b big.1) ∙ same_star in
        absurd (cc)
  ]

  unfound-Differ :
      (conf : VhostConf) (cs : List VhostConf)
      → get_vhost_conf same cs conf.host false true ≡ none
      → All (Differ conf) cs
  unfolding get_vhost_conf is_found
  unfound-Differ conf [] e = omega arith
  unfound-Differ conf (c ∷ cs) e = elim (Bool-cases (is_found same conf.host false true c)) [
    | inl h ↦ absurd (
        absurd_some c (
          sym (
            if_true (is_found same conf.host false true c)
              (get_vhost_conf same cs conf.host false true) h)
          ∙ e))
    | inr h ↦
        let other : same conf.host c.host ≡ false = ground arith in
        (
          stars_differ conf.host c.host other,
          unfound-Differ conf cs
              (sym (if_false (is_found same conf.host false true c) (some c) h) ∙ e),
        )
  ]

  -- The entry of a route.
  abbrev entry : ℕ → Bytes → Bytes → VhostConf
  entry stale host root =
      set_root (record { host = host; root = root; mtype = mtype_of host; vhost_root_len = stale })
        root

  entry-IsConf :
      (stale : ℕ) (host root : Bytes)
      → IsRoute (host, root)
      → IsConf (entry stale host root)
        × (is_wildcard (entry stale host root).mtype ≡ false
            → rank (entry stale host root).host ≡ 0)
  unfolding set_root
  entry-IsConf stale host root r = ((r, (mtype_of-rank host).0), (mtype_of-rank host).1)

  entry-host : (stale : ℕ) (host root : Bytes) → (entry stale host root).host ≡ host
  unfolding set_root
  entry-host stale host root = refl

  add_route-IsVhosts :
      (stale : ℕ) (cs : List VhostConf) (route : Bytes × Bytes)
      → IsRoute route
      → IsVhosts cs
      → IsVhosts (add_route same stale cs route)
  unfolding add_route
  add_route-IsVhosts stale cs (host, root) r (k, o) =
      if_ind IsVhosts (ltb (length host) 256 && ltb (length root) 1024)
        (λ e. elim (Option-cases (get_vhost_conf same cs host false true)) [
          | inl n ↦ rw n (
              let c = entry stale host root in
              let (kc, z) = entry-IsConf stale host root r in
              let d =
                unfound-Differ c cs (
                  ap (λ h. get_vhost_conf same cs h false true) (entry-host stale host root) ∙ n) in
              (All-insert_conf IsConf c cs kc k, insert_conf-IsOrdered c cs kc k z d o))
          | inr (c, n) ↦ rw n (
              (
                All-change_root IsConf cs host root (λ c. changed-IsConf c root) k,
                change_root-IsOrdered cs host root o,
              ))
        ])
        (λ e. (k, o))

  add_routes-IsVhosts :
      (stale : ℕ) (cs : List VhostConf) (routes : List (Bytes × Bytes))
      → All IsRoute routes
      → IsVhosts cs
      → IsVhosts (add_routes same stale cs routes)
  unfolding add_routes
  add_routes-IsVhosts stale cs [] r v = v
  add_routes-IsVhosts stale cs (route ∷ routes) (h, r) v =
      add_routes-IsVhosts stale (add_route same stale cs route) routes r
        (add_route-IsVhosts stale cs route h v)

  pub update_vhost_routes-IsVhosts :
      (stale : ℕ) (cs : List VhostConf) (routes : List (Bytes × Bytes))
      → All IsRoute routes
      → IsVhosts cs
      → IsVhosts (update_vhost_routes same stale cs routes)
  unfolding update_vhost_routes
  update_vhost_routes-IsVhosts stale cs routes r (k, o) =
      add_routes-IsVhosts stale (retire cs) routes r
        (All-retire IsConf cs (λ c h. (h.0, λ e. absurd (cc))) k, retire-IsOrdered cs o)
