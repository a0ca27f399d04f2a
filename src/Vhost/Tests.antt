-- ===== src/Vhost/Tests.antt =====
-- Routes and hosts, and the example of the theorem on them.
use alilua.Prelude.{◌≡◌, refl, true, false, some, List, [], ◌∷◌, Bytes, codes, arith}
use alilua.CString.{str_eq}
use alilua.Vhost.{
  VhostConf, mtype_of, last_slash, set_root, put_wildcard, insert_wildcard, insert_conf,
  matches_wildcard, is_found, get_vhost_conf, add_route, add_routes, update_vhost_routes,
}
use alilua.Vhost.Routes.{IsVhosts}
use alilua.Vhost.Lookup.{has_own, update_vhost_routes-own}

abbrev routes : List (Bytes × Bytes)
routes =
    (codes "*", codes "/a/r.lua")
    ∷ (codes "x.org", codes "/b/r.lua")
    ∷ (codes "*.org", codes "/c/r.lua")
    ∷ []

abbrev hosts_of : List VhostConf → List Bytes
hosts_of [] = []
hosts_of (c ∷ cs) = c.host ∷ hosts_of cs

order_test :
    hosts_of (update_vhost_routes str_eq 0 [] routes)
    ≡ codes "x.org" ∷ codes "*.org" ∷ codes "*" ∷ []
unfolding update_vhost_routes add_routes add_route get_vhost_conf is_found insert_conf
    insert_wildcard put_wildcard set_root last_slash mtype_of matches_wildcard
order_test = refl

-- In front of the only host, `*`, a wildcard is lost.
lost_test :
    hosts_of (
      update_vhost_routes str_eq 0 []
        ((codes "*", codes "/a/r") ∷ (codes "*.org", codes "/c/r") ∷ []))
    ≡ codes "*" ∷ []
unfolding update_vhost_routes add_routes add_route get_vhost_conf is_found insert_conf
    insert_wildcard put_wildcard set_root last_slash mtype_of matches_wildcard
lost_test = refl

x_org-has_own : has_own str_eq (codes "x.org") (update_vhost_routes str_eq 0 [] routes) ≡ true
unfolding update_vhost_routes add_routes add_route get_vhost_conf is_found insert_conf
    insert_wildcard put_wildcard set_root last_slash mtype_of matches_wildcard
x_org-has_own = refl

update_vhost_routes-own_example :
    IsVhosts (update_vhost_routes str_eq 0 [] routes)
    × ((c : VhostConf) × (get_vhost_conf str_eq
            (update_vhost_routes str_eq 0 [] routes)
            (codes "x.org")
            true
            false
          ≡ some c)
        × (str_eq (codes "x.org") c.host ≡ true))
update_vhost_routes-own_example =
    update_vhost_routes-own str_eq 0 [] routes (codes "x.org") refl (omega arith, omega arith)
      (λ z. absurd (omega arith), (λ z. omega arith, (λ z. absurd (omega arith), omega arith)))
      x_org-has_own
