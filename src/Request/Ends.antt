-- ===== src/Request/Ends.antt =====
-- Reading a head ends: each line that is read leaves less to read.
use alilua.Prelude.{
  ℕ, zero, suc, ◌<◌, ◌≤◌, ◌≢◌, ap, Option, none, some, [], ◌∷◌, Bytes, length, get_or, ltb, ◌==◌,
  ◌||◌, arith, Bool-cases, Option-cases, if_ind, inl, inr,
}
use alilua.CString.{cut, strtok, saved, to_lower, map_bytes, but_last, drop_cr}
use alilua.CString.Laws.{strtok-lt}
use alilua.Request.{
  Request, value_of, left_to_read, header_line, read_lines, request_line, unfinished, read_head,
}

length-cut-le : (d : ℕ) (t : Bytes) → length (cut d t).0 ≤ length t
unfolding cut
length-cut-le d [] = omega arith
length-cut-le d (c ∷ cs) = elim (Bool-cases (c == d)) [
  | inl e ↦ rw e (omega arith)
  | inr e ↦ rw e (omega (arith, length-cut-le d cs))
]

length-but_last-le : (t : Bytes) → length (but_last t) ≤ length t
unfolding but_last
length-but_last-le [] = omega arith
length-but_last-le (c ∷ []) = omega arith
length-but_last-le (c ∷ d ∷ ds) = omega (arith, length-but_last-le (d ∷ ds))

length-drop_cr-le : (t : Bytes) → length (drop_cr t) ≤ length t
unfolding drop_cr
length-drop_cr-le t = ground (arith, length-but_last-le t)

left_to_read-le :
    (body : Bytes) (r : Request) (key : Bytes) (value rest : Option Bytes)
    → length (left_to_read r key (drop_cr (value_of value rest body)) value rest)
      ≤ length (saved rest)
unfolding left_to_read value_of
left_to_read-le body r key (some v) rest = omega arith
left_to_read-le body r key none none = omega arith
left_to_read-le body r key none (some rest) =
    ground (arith, length-drop_cr-le rest, length-cut-le b':' (drop_cr rest))

module _ (stristr : Bytes → Bytes → ℕ → Option ℕ) where
  header_line-le :
      (body : Bytes) (r : Request) (line : Bytes) (rest : Option Bytes)
      → length (saved (header_line stristr body r line rest).1) ≤ length (saved rest)
  unfolding header_line
  header_line-le body r line rest = elim (Option-cases (strtok b':' line)) [
    | inl e ↦ rw (e, header_line) (omega arith)
    | inr ((t2, value), e) ↦
        rw (e, header_line)
          (if_ind (λ (p : Request × Option Bytes). length (saved p.1) ≤ length (saved rest))
            (get_or t2 0 0 == b'\r' || ltb (length (drop_cr (value_of value rest body))) 1)
            (λ stop. omega arith) (λ go. left_to_read-le body r (map_bytes to_lower t2) value rest))
  ]

  read_lines-ne-none :
      (fuel : ℕ) (body : Bytes) (r : Request) (text : Bytes)
      → length text < fuel
      → read_lines stristr fuel body r text ≢ none
  unfolding read_lines
  read_lines-ne-none zero body r text h = absurd (omega arith)
  read_lines-ne-none (suc fuel) body r text h = elim (Option-cases (strtok b'\n' text)) [
    | inl e ↦ rw (e, read_lines) (cc)
    | inr ((line, rest), e) ↦
        rw (e, read_lines)
          (elim (Option-cases (header_line stristr body r line rest).1) [
            | inl d ↦ rw (d, read_lines) (cc)
            | inr (next, d) ↦
                rw (d, read_lines)
                  (read_lines-ne-none fuel body (header_line stristr body r line rest).0 next (
                    omega (
                      arith,
                      strtok-lt b'\n' text line rest e,
                      header_line-le body r line rest,
                      ap (λ o. length (saved o)) d,
                    )))
          ])
  ]

  -- Every head, also one whose lines have no colon, is read to its end or refused, with one round
  -- for each of its bytes and one more.
  pub read_head-ne-unfinished :
      (fuel : ℕ) (text body : Bytes)
      → length text < fuel
      → read_head stristr fuel text body ≢ unfinished
  unfolding read_head
  read_head-ne-unfinished fuel text body h = elim (Option-cases (strtok b'\n' text)) [
    | inl e ↦ rw (e, read_head) (cc)
    | inr ((line, rest), e) ↦
        rw (e, read_head)
          (elim (Option-cases (request_line line)) [
            | inl d ↦ rw (d, read_head) (cc)
            | inr (r, d) ↦
                rw (d, read_head)
                  (elim (Option-cases (read_lines stristr fuel body r (saved rest))) [
                    | inl n ↦ absurd (
                        read_lines-ne-none fuel body r (saved rest)
                          (omega (arith, strtok-lt b'\n' text line rest e)) n)
                    | inr (r', n) ↦ rw (n, read_head) (cc)
                  ])
          ])
  ]
