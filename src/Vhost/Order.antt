-- ===== src/Vhost/Order.antt =====
-- The hosts are in order: names first, then wildcards, and the one that fits all last. So a host that
-- has an entry of its own is never served by a wildcard.
use alilua.Prelude.{
  ℕ, ◌+◌, ◌<◌, ◌≤◌, ◌≡◌, refl, true, false, inl, inr, List, [], ◌∷◌, Bytes, get_or, length, ltb,
  ◌==◌, if◌then◌else◌, arith, All, Bool-cases, if_ind,
}
use alilua.Vhost.{is_wildcard, VhostConf, put_wildcard, insert_wildcard, insert_conf}

-- 0 for a name, 1 for a wildcard, 2 for `*`.
abbrev pub rank : Bytes → ℕ
rank host = if get_or host 0 0 == b'*' then (if ltb 1 (length host) then 1 else 2) else 0

-- `c` may stand anywhere in front of `d`.
abbrev pub IsBefore : VhostConf → VhostConf → Type 0
IsBefore c d = (rank c.host ≤ rank d.host) × (rank c.host ≤ 1)

abbrev pub IsOrdered : List VhostConf → Type 0
IsOrdered [] = Unit
IsOrdered (c ∷ rest) = All (IsBefore c) rest × IsOrdered rest

-- A name has two bytes or more, and what counts as a wildcard begins with `*`.
abbrev pub IsConf : VhostConf → Type 0
IsConf c = (rank c.host ≡ 0 → 1 < length c.host) × (is_wildcard c.mtype ≡ true → 1 ≤ rank c.host)

-- At most one of the two is `*`.
abbrev pub Differ : VhostConf → VhostConf → Type 0
Differ c d = rank c.host + rank d.host < 4

pub All-put_wildcard :
    (P : VhostConf → Type 0) (c : VhostConf) (cs : List VhostConf)
    → P c
    → All P cs
    → All P (put_wildcard c cs)
unfolding put_wildcard
All-put_wildcard P c [] h k = (h, k)
All-put_wildcard P c (last ∷ []) h (l, k) =
    if_ind (λ (ds : List VhostConf). All P ds) (ltb 1 (length last.host)) (λ e. (l, (h, k)))
      (λ e. (h, (l, k)))
All-put_wildcard P c (x ∷ y ∷ rest) h (px, k) = (px, All-put_wildcard P c (y ∷ rest) h k)

long_rank : (host : Bytes) → ltb 1 (length host) ≡ true → rank host ≤ 1
long_rank host e = rw e (ground arith)

short_rank :
    (host : Bytes) → ltb 1 (length host) ≡ false → (rank host ≡ 0 → 1 < length host) → rank host ≡ 2
short_rank host e h = elim (Bool-cases (get_or host 0 0 == b'*')) [
  | inl s ↦ rw (s, e) refl
  | inr s ↦
      let zero_rank : rank host ≡ 0 = rw s refl in let long = h zero_rank in absurd (ground arith)
]

put_wildcard-IsOrdered :
    (c : VhostConf) (cs : List VhostConf)
    → 1 ≤ rank c.host
    → All IsConf cs
    → All (Differ c) cs
    → IsOrdered cs
    → IsOrdered (put_wildcard c cs)
unfolding put_wildcard
put_wildcard-IsOrdered c [] r k d o = (omega arith, omega arith)
put_wildcard-IsOrdered c (last ∷ []) r (k, k') (d, d') o =
    if_ind IsOrdered (ltb 1 (length last.host))
      (λ e.
        let small = long_rank last.host e in
        (((omega arith, small), omega arith), (omega arith, omega arith)))
      (λ e.
        let big = short_rank last.host e k.0 in
        (((omega arith, omega arith), omega arith), (omega arith, omega arith)))
put_wildcard-IsOrdered c (x ∷ y ∷ rest) r (kx, k) (dx, d) (ox, o) = (
  (All-put_wildcard (IsBefore x) c (y ∷ rest) (omega (arith, ox.0.1), ox.0.1) ox),
  put_wildcard-IsOrdered c (y ∷ rest) r k d o,
)

names_first : (c : VhostConf) (cs : List VhostConf) → rank c.host ≡ 0 → All (IsBefore c) cs
names_first c [] z = omega arith
names_first c (x ∷ xs) z = ((omega arith, omega arith), names_first c xs z)

insert_wildcard-IsOrdered :
    (c : VhostConf) (cs : List VhostConf)
    → 1 ≤ rank c.host
    → All IsConf cs
    → All (Differ c) cs
    → IsOrdered cs
    → IsOrdered (insert_wildcard c cs)
unfolding insert_wildcard
insert_wildcard-IsOrdered c [] r k d o = (omega arith, omega arith)
insert_wildcard-IsOrdered c (last ∷ []) r (k, k') (d, d') o =
    if_ind IsOrdered (ltb 1 (length last.host))
      (λ e.
        let small = long_rank last.host e in
        (((omega arith, small), omega arith), (omega arith, omega arith)))
      (λ e. o)
insert_wildcard-IsOrdered c (x ∷ y ∷ rest) r k d o = put_wildcard-IsOrdered c (x ∷ y ∷ rest) r k d o

-- A new host comes to where it belongs.
pub insert_conf-IsOrdered :
    (c : VhostConf) (cs : List VhostConf)
    → IsConf c
    → All IsConf cs
    → (is_wildcard c.mtype ≡ false → rank c.host ≡ 0)
    → All (Differ c) cs
    → IsOrdered cs
    → IsOrdered (insert_conf c cs)
unfolding insert_conf
insert_conf-IsOrdered c cs kc k z d o = elim (Bool-cases (is_wildcard c.mtype)) [
  | inl e ↦ rw e (insert_wildcard-IsOrdered c cs (kc.1 e) k d o)
  | inr e ↦ rw e ((names_first c cs (z e), o))
]
