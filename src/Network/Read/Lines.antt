-- ===== src/Network/Read/Lines.antt =====
-- A head of lines, and where it ends.
use alilua.Prelude.{
  ℕ, suc, ◌+◌, ◌-◌, ◌<◌, ◌≡◌, ◌≢◌, refl, ap, sym, ◌∙◌, true, false, List, [], ◌∷◌, ◌++◌, Bytes,
  length, get_or, All, arith, append_assoc, length-append,
}
use alilua.CString.Laws.{Without}
use alilua.Network.Reader.{ends_blank}
use alilua.Network.Reader.Blank.{has_end}

-- A line without its end.
abbrev pub IsLine : Bytes → Type 0
IsLine t = (0 < length t) × Without b'\r' t × Without b'\n' t

-- The lines and the empty one, up to the last newline.
abbrev pub join : List Bytes → Bytes
join [] = b'\r' ∷ []
join (l ∷ ls) = l ++ b'\r' ∷ b'\n' ∷ join ls

-- What may stand behind the end of a line.
abbrev Follows : Bytes → Type 0
Follows t = (get_or t 0 0 ≢ b'\n') × (get_or t 0 0 ≡ b'\r' → get_or t 1 0 ≢ b'\n')

join-Follows : (ls : List Bytes) → All IsLine ls → Follows (join ls)
join-Follows [] h = (omega arith, λ e. omega arith)
join-Follows ([] ∷ ls) ((p, cr, lf), h) = absurd (omega arith)
join-Follows ((c ∷ cs) ∷ ls) ((p, cr, lf), h) = (lf.0, λ e. absurd (cr.0 e))

-- Behind a line that ends here, and behind its text.
has_end-crlf : (t : Bytes) → Follows t → has_end t ≡ false → has_end (b'\r' ∷ b'\n' ∷ t) ≡ false
has_end-crlf t (n, r) h = ground (arith, r)

has_end-line :
    (l t : Bytes) → Without b'\r' l → Without b'\n' l → has_end t ≡ false → has_end (l ++ t) ≡ false
has_end-line [] t cr lf h = h
has_end-line (c ∷ cs) t (c_cr, cr) (c_lf, lf) h = ground (arith, has_end-line cs t cr lf h)

-- A head of such lines has no blank line before its end.
pub has_end-join : (ls : List Bytes) → All IsLine ls → has_end (join ls) ≡ false
has_end-join [] h = refl
has_end-join (l ∷ ls) ((p, cr, lf), h) =
    has_end-line l (b'\r' ∷ b'\n' ∷ join ls) cr lf
      (has_end-crlf (join ls) (join-Follows ls h) (has_end-join ls h))

get_or-append : (s t : Bytes) (i : ℕ) → get_or (s ++ t) (length s + i) 0 ≡ get_or t i 0
get_or-append [] t i = ap (λ k. get_or t k 0) (omega arith)
get_or-append (c ∷ cs) t i =
    let e : length (c ∷ cs) + i ≡ suc (length cs + i) = omega arith in
    ap (λ k. get_or (c ∷ (cs ++ t)) k 0) e ∙ get_or-append cs t i

abbrev last_bytes : Bytes
last_bytes = b'\r' ∷ b'\n' ∷ b'\r' ∷ b'\n' ∷ []

-- It ends in a blank line.
join-last :
    (l : Bytes) (ls : List Bytes) → (t : Bytes) × (join (l ∷ ls) ++ b'\n' ∷ [] ≡ t ++ last_bytes)
join-last l [] = (l, append_assoc l _ _)
join-last l (k ∷ ls) =
    let (t, e) = join-last k ls in
    (
      l ++ b'\r' ∷ b'\n' ∷ t,
      append_assoc l (b'\r' ∷ b'\n' ∷ join (k ∷ ls)) (b'\n' ∷ [])
          ∙ ap (λ u. l ++ b'\r' ∷ b'\n' ∷ u) e
          ∙ sym (append_assoc l (b'\r' ∷ b'\n' ∷ t) last_bytes),
    )

ends_blank-last : (t : Bytes) → ends_blank (t ++ last_bytes) ≡ true
unfolding ends_blank
ends_blank-last t =
    let at = λ (k : ℕ). get_or (t ++ last_bytes) k 0 in
    let n = length (t ++ last_bytes) in
    let len : n ≡ length t + 4 = length-append t last_bytes in
    let first : at (n - 1) ≡ b'\n' = ap at (omega arith) ∙ get_or-append t last_bytes 3 in
    let second : at (n - 2) ≡ b'\r' = ap at (omega arith) ∙ get_or-append t last_bytes 2 in
    let fourth : at (n - 4) ≡ b'\r' = ap at (omega arith) ∙ get_or-append t last_bytes 0 in
    ground arith

pub ends_blank-join :
    (l : Bytes) (ls : List Bytes) → ends_blank (join (l ∷ ls) ++ b'\n' ∷ []) ≡ true
ends_blank-join l ls = let (t, e) = join-last l ls in ap ends_blank e ∙ ends_blank-last t
