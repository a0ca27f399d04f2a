-- ===== src/StatusLine/Laws.antt =====
-- The phrases tell the codes apart, and the status line is read back.
use alilua.Prelude.{
  ℕ, zero, suc, ◌+◌, ◌-◌, ◌*◌, ◌<◌, ◌≤◌, ◌≡◌, ◌≢◌, refl, ap, sym, ◌∙◌, Bool, true, false, Option,
  none, some, [], ◌∷◌, Bytes, ltb, ◌==◌, if◌then◌else◌, arith, get_or, agree_below,
  eq_of_agree_below, Bool-cases, inl, inr, ltb→lt,
}
use alilua.StatusLine.{
  reason_below_300, reason_below_400, reason_below_500, reason_above, reason, digits, status_line,
}

-- The tests of equality on texts.
abbrev same : Bytes → Bytes → Bool
same [] [] = true
same [] (y ∷ ys) = false
same (x ∷ xs) [] = false
same (x ∷ xs) (y ∷ ys) = let rest = same xs ys in if x == y then rest else false

abbrev same_reason : Option Bytes → Option Bytes → Bool
same_reason none r = false
same_reason (some p) none = false
same_reason (some p) (some q) = same p q

-- The least code below a bound that has the phrase.
abbrev code_below : ℕ → Option Bytes → ℕ
code_below zero r = 0
code_below (suc n) r = let rest = code_below n r in if same_reason (reason n) r then n else rest

abbrev known_at : ℕ → Option Bytes → ℕ
known_at code none = 0
known_at code (some p) = code

abbrev known : ℕ → ℕ
known code = known_at code (reason code)

reason_table : (code : ℕ) → code < 506 → code_below 506 (reason code) ≡ known code
unfolding agree_below reason reason_below_300 reason_below_400 reason_below_500 reason_above
reason_table = eq_of_agree_below (λ code. code_below 506 (reason code)) known 506 refl

reason-none : (code : ℕ) → 506 ≤ code → reason code ≡ none
unfolding reason reason_above
reason-none code h = ground arith

known-some : (code : ℕ) (p : Bytes) → reason code ≡ some p → known code ≡ code
known-some code p e = ap (known_at code) e

reason_bound : (code : ℕ) (p : Bytes) → reason code ≡ some p → code < 506
reason_bound code p e = elim (Bool-cases (ltb code 506)) [
  | inl l ↦ ltb→lt code 506 l
  | inr l ↦ absurd (ground (arith, sym (reason-none code (ground arith)) ∙ e))
]

reason-injective :
    (code other : ℕ) (p : Bytes) → reason code ≡ some p → reason other ≡ some p → code ≡ other
reason-injective code other p e e' =
    sym (known-some code p e)
    ∙ sym (reason_table code (reason_bound code p e))
    ∙ ap (code_below 506) (e ∙ sym e')
    ∙ reason_table other (reason_bound other p e')
    ∙ known-some other p e'

-- A code that has a reason phrase shares it with no other code.
pub reason-ne_other :
    (code other : ℕ) (p : Bytes) → reason code ≡ some p → code ≢ other → reason other ≢ some p
reason-ne_other code other p e ne e' = ne (reason-injective code other p e e')

-- The three digits behind the version, as a number.
abbrev pub code_of : Bytes → ℕ
code_of line = (get_or line 9 0 - 48) * 100 + (get_or line 10 0 - 48) * 10 + (get_or line 11 0 - 48)

-- For a code of three digits, a client that reads the number behind `HTTP/1.1` reads the code,
-- whatever the reason phrase is.
pub status_line_code : (code : ℕ) (p : Bytes) → code < 1000 → code_of (status_line code p) ≡ code
unfolding status_line digits
status_line_code code p h = omega arith
