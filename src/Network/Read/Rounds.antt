-- ===== src/Network/Read/Rounds.antt =====
-- A round of `network_be_read` that has received bytes stops or goes on.
use alilua.Prelude.{ℕ, ◌≡◌, refl, ◌⊎◌, inl, inr, List, ◌∷◌, Bytes}
use mathlib.Core.Path.{subst}
use alilua.ServStatus.{ServStatus}
use alilua.Network.Reader.{Reader, Config}
use alilua.Network.Read.{ReadOutcome, Input, received, Round, stops, goes_on, read_round, read_loop}

-- What holds after a round: `Q` of what the function returns, or `P` of where the next round starts.
abbrev pub OfRound : (ServStatus → Reader → Type 0) → (ReadOutcome → Type 0) → Round → Type 0
OfRound P Q (stops o) = Q o
OfRound P Q (goes_on serv r) = P serv r

Round-cases :
    (k : Round)
    → ((o : ReadOutcome) × (k ≡ stops o))
      ⊎ ((serv : ServStatus) × (r : Reader) × (k ≡ goes_on serv r))
Round-cases (stops o) = inl (o, refl)
Round-cases (goes_on serv r) = inr (serv, r, refl)

-- To prove `Q` of the loop, prove `P` or `Q` of its first round, and `Q` of the others from `P`.
pub read_loop-round :
    (P : ServStatus → Reader → Type 0) (Q : ReadOutcome → Type 0) (c : Config) (now : ℕ)
    (serv : ServStatus) (r : Reader) (b : ℕ) (bs : Bytes) (rest : List Input)
    → OfRound P Q (read_round c now serv r (b ∷ bs))
    → ((serv' : ServStatus) (r' : Reader)
        → read_round c now serv r (b ∷ bs) ≡ goes_on serv' r'
        → P serv' r'
        → Q (read_loop c now serv' r' rest))
    → Q (read_loop c now serv r (received (b ∷ bs) ∷ rest))
unfolding read_loop
read_loop-round P Q c now serv r b bs rest h k =
    elim (Round-cases (read_round c now serv r (b ∷ bs))) [
      | inl (o, e) ↦ rw (e, read_loop) (subst (OfRound P Q) e h)
      | inr (serv', r', e) ↦ rw (e, read_loop) (k serv' r' e (subst (OfRound P Q) e h))
    ]
