-- ===== src/Vhost.antt =====
-- src/vhost.c: the list of virtual hosts, how it is updated from the routes of the configuration, and
-- how the host of a request is looked up.
pub mod Order
pub mod Routes
pub mod Lookup
mod Tests
use alilua.Prelude.{
  ℕ, zero, suc, ◌+◌, ◌-◌, Bool, true, false, not, Option, none, some, List, [], ◌∷◌, Bytes, get_or,
  length, drop, ltb, leb, ◌==◌, ◌&&◌, ◌||◌, if◌then◌else◌,
}

-- The values -1, 0 and 1 of `mtype`.
pub data Mtype : Type 0 where
  gone exact wildcard : Mtype

abbrev pub is_gone : Mtype → Bool
is_gone gone = true
is_gone _ = false

abbrev pub is_wildcard : Mtype → Bool
is_wildcard wildcard = true
is_wildcard _ = false

-- `vhost_conf_t`, without its links; `host_len` and `root_len` are the lengths.
pub record VhostConf : Type 0 where
  pub host : Bytes
  pub root : Bytes
  pub mtype : Mtype
  pub vhost_root_len : ℕ

-- `host[0] == '*'`
pub mtype_of : Bytes → Mtype
mtype_of host = if get_or host 0 0 == b'*' then wildcard else exact

-- The place of the last slash among the first `j` bytes.
pub last_slash : Bytes → ℕ → Option ℕ
last_slash root zero = none
last_slash root (suc j) =
    let before = last_slash root j in if get_or root j 0 == b'/' then some j else before

pub set_root : VhostConf → Bytes → VhostConf
set_root conf root = record conf {
  root = root;
  vhost_root_len = elim (last_slash root (length root)) [ none ↦ conf.vhost_root_len | some j ↦ j ];
}

-- A wildcard goes behind the last host, or in front of it if that has one byte or none.
pub put_wildcard : VhostConf → List VhostConf → List VhostConf
put_wildcard conf [] = conf ∷ []
put_wildcard conf (last ∷ []) =
    if ltb 1 (length last.host) then last ∷ conf ∷ [] else conf ∷ last ∷ []
put_wildcard conf (x ∷ y ∷ rest) = let later = put_wildcard conf (y ∷ rest) in x ∷ later

-- In front of the only host it is lost, since `vhost_conf_head` stays.
pub insert_wildcard : VhostConf → List VhostConf → List VhostConf
insert_wildcard conf [] = conf ∷ []
insert_wildcard conf (last ∷ []) = if ltb 1 (length last.host) then last ∷ conf ∷ [] else last ∷ []
insert_wildcard conf (x ∷ y ∷ rest) = put_wildcard conf (x ∷ y ∷ rest)

pub insert_conf : VhostConf → List VhostConf → List VhostConf
insert_conf conf confs = if is_wildcard conf.mtype then insert_wildcard conf confs else conf ∷ confs

-- All hosts are gone until they are named again.
abbrev pub retire : List VhostConf → List VhostConf
retire [] = []
retire (conf ∷ rest) = record conf { mtype = gone } ∷ retire rest

-- `same a b` says that `stricmp` of the coevent library finds the texts equal.
module _ (same : Bytes → Bytes → Bool) where
  pub matches_wildcard : Bytes → VhostConf → Bool
  matches_wildcard host conf =
      is_wildcard conf.mtype
      && (length conf.host == 1
          || (leb (length conf.host - 1) (length host)
              && same (drop 1 conf.host) (drop (length host + 1 - length conf.host) host)))

  pub is_found : Bytes → Bool → Bool → VhostConf → Bool
  is_found host prefix ignore_exists conf =
      (not (is_gone conf.mtype) || ignore_exists)
      && (same host conf.host || (prefix && matches_wildcard host conf))

  pub get_vhost_conf : List VhostConf → Bytes → Bool → Bool → Option VhostConf
  get_vhost_conf [] host prefix ignore_exists = none
  get_vhost_conf (conf ∷ rest) host prefix ignore_exists =
      let later = get_vhost_conf rest host prefix ignore_exists in
      if is_found host prefix ignore_exists conf then some conf else later

  -- The first host that is found is changed.
  pub change_root : List VhostConf → Bytes → Bytes → List VhostConf
  change_root [] host root = []
  change_root (conf ∷ rest) host root =
      let later = change_root rest host root in
      if is_found host false true conf
      then set_root (record conf { mtype = mtype_of conf.host }) root ∷ rest
      else conf ∷ later

  -- One route; `stale` is what stands in the memory of a new entry.
  pub add_route : ℕ → List VhostConf → Bytes × Bytes → List VhostConf
  add_route stale confs (host, root) =
      if ltb (length host) 256 && ltb (length root) 1024
      then elim (get_vhost_conf confs host false true) [
        | none ↦
            insert_conf
              (set_root
                (record { host = host; root = root; mtype = mtype_of host; vhost_root_len = stale })
                root)
              confs
        | some conf ↦ change_root confs host root
      ]
      else confs

  pub add_routes : ℕ → List VhostConf → List (Bytes × Bytes) → List VhostConf
  add_routes stale confs [] = confs
  add_routes stale confs (route ∷ routes) = add_routes stale (add_route stale confs route) routes

  -- The part of `update_vhost_routes` that works on the list.
  pub update_vhost_routes : ℕ → List VhostConf → List (Bytes × Bytes) → List VhostConf
  update_vhost_routes stale confs routes = add_routes stale (retire confs) routes
