-- ===== src/Request/Errors.antt =====
-- The heads that are answered with 400.
use alilua.Prelude.{ℕ, ◌≡◌, refl, sym, append_assoc, Option, none, ◌∷◌, ◌++◌, Bytes, arith}
use alilua.CString.{strtok}
use alilua.CString.Laws.{strtok-append, strtok_all}
use alilua.Request.{request_line, bad_request, read_head}
use alilua.Request.Printed.{Without-append}
use alilua.Request.Line.{IsWord, length-append-pos}

request_line-two_words : (m t : Bytes) → IsWord m → IsWord t → request_line (m ++ b' ' ∷ t) ≡ none
unfolding request_line strtok
request_line-two_words m t (m0, m1, m2) (t0, t1, t2) =
    rw (strtok-append b' ' m t m0 m1, request_line, strtok_all b' ' t t0 t1) refl

module _ (stristr : Bytes → Bytes → ℕ → Option ℕ) where
  -- A request line of a method and a target, without a version, is refused, whatever headers and body
  -- follow it and whatever the fuel.
  pub read_head-two_words :
      (fuel : ℕ) (m t rest body : Bytes)
      → IsWord m
      → IsWord t
      → read_head stristr fuel (m ++ b' ' ∷ (t ++ b'\n' ∷ rest)) body ≡ bad_request
  unfolding read_head
  read_head-two_words fuel m t rest body (m0, m1, m2) (t0, t1, t2) =
      rw
        (
          sym (append_assoc m (b' ' ∷ t) (b'\n' ∷ rest)),
          strtok-append b'\n' (m ++ b' ' ∷ t) rest (length-append-pos m (b' ' ∷ t) m0)
              (Without-append b'\n' m (b' ' ∷ t) m2 (omega arith, t2)),
          read_head,
          request_line-two_words m t (m0, m1, m2) (t0, t1, t2),
        )
        refl
