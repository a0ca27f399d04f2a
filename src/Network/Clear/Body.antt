-- ===== src/Network/Clear/Body.antt =====
-- The rest of a body is read before a response ends, and the response then ends once.
use alilua.Prelude.{
  ℕ, ◌+◌, ◌<◌, ◌≡◌, refl, ap, ◌∙◌, sym, ◌++◌, length-append, Bool, true, false, not, List, [], ◌∷◌,
  Bytes, length, All, arith, ◌&&◌, if_ind, leb, leb→le, le→leb, leb_false→lt,
}
use mathlib.Core.Path.{subst}
use alilua.Prelude.Int.{pos, ◌-ℤ◌, int_laws}
use alilua.ServStatus.{ServStatus}
use alilua.Client.{Client}
use alilua.Client.Counts.{IsCounted}
use alilua.Network.Epd.{Epd, read}
use alilua.Network.End.{Given, is_unread}
use alilua.Network.Write.{concat}
use alilua.Network.Read.{Input, received, would_block, broken}
use alilua.Network.Read.Pieces.{deliveries, IsPiece}
use alilua.Network.Read.Counts.{client_of, Counts, leave-Counts}
use alilua.Network.Clear.{Cleared, drop_client, has_body, end_body, network_be_read_on_clear}

and_false : (b : Bool) → (b && not true) ≡ false
and_false true = refl
and_false false = refl

module _ (given : Given) where
  abbrev GoesOn : Cleared → Type 0
  GoesOn o = o.ended ≡ true → given.has_fd ≡ o.is_open → is_unread given o.epd ≡ false

  drop_client-GoesOn : (serv : ServStatus) (epd : Epd) → GoesOn (drop_client serv epd)
  unfolding drop_client is_unread
  drop_client-GoesOn serv epd e f = rw f refl

  end_body-GoesOn :
      (serv : ServStatus) (epd : Epd) → has_body epd ≡ true → GoesOn (end_body serv epd)
  unfolding end_body has_body is_unread
  end_body-GoesOn serv epd h e f = rw h (and_false (given.has_fd && not given.read_timeout))

  -- Whatever `recv` answers: when `network_be_read_on_clear` calls `network_be_end`, that ends the
  -- response and does not wait for the body again.
  pub network_be_read_on_clear-is_unread :
      (serv : ServStatus) (epd : Epd) (inputs : List Input)
      → (network_be_read_on_clear serv epd inputs).ended ≡ true
      → given.has_fd ≡ (network_be_read_on_clear serv epd inputs).is_open
      → is_unread given (network_be_read_on_clear serv epd inputs).epd ≡ false
  unfolding network_be_read_on_clear
  network_be_read_on_clear-is_unread serv epd [] = λ e f. cc
  network_be_read_on_clear-is_unread serv epd (would_block ∷ rest) = λ e f. cc
  network_be_read_on_clear-is_unread serv epd (broken ∷ rest) = drop_client-GoesOn serv epd
  network_be_read_on_clear-is_unread serv epd (received [] ∷ rest) = drop_client-GoesOn serv epd
  network_be_read_on_clear-is_unread serv epd (received (b ∷ bs) ∷ rest) =
      let epd' : Epd = record epd { data_len = epd.data_len + length (b ∷ bs) } in
      if_ind GoesOn (has_body epd') (end_body-GoesOn serv epd')
        (λ h. network_be_read_on_clear-is_unread serv epd' rest)

-- The connection when `n` more bytes are counted.
abbrev pub with_more : Epd → ℕ → Epd
with_more epd n = record epd { data_len = epd.data_len + n }

-- How many bytes the test asks for.
has_body-leb :
    (epd : Epd) (size : ℕ)
    → epd.content_length ≡ pos size
    → has_body epd ≡ leb (size + epd.header_length) epd.data_len
unfolding has_body ◌-ℤ◌
has_body-leb epd size e = rw e (ground arith)

-- While the body, of the length that was announced, is not all there behind the head, and the client
-- sends more in any pieces: `network_be_read_on_clear` calls `network_be_end` exactly if the head and
-- the body are then received to their last byte, and the connection stays open.
pub network_be_read_on_clear-ended :
    (serv : ServStatus) (epd : Epd) (size : ℕ) (pieces : List Bytes)
    → epd.content_length ≡ pos size
    → epd.data_len < size + epd.header_length
    → All IsPiece pieces
    → ((network_be_read_on_clear serv epd (deliveries pieces)).ended
        ≡ leb (size + epd.header_length) (epd.data_len + length (concat pieces)))
      × ((network_be_read_on_clear serv epd (deliveries pieces)).is_open ≡ true)
unfolding network_be_read_on_clear end_body
network_be_read_on_clear-ended serv epd size [] e lt ps = (ground arith, refl)
network_be_read_on_clear-ended serv epd size ([] ∷ ps) e lt (k, ks) = absurd (omega arith)
network_be_read_on_clear-ended serv epd size ((b ∷ bs) ∷ ps) e lt (k, ks) =
    let epd' = with_more epd (length (b ∷ bs)) in
    let test = has_body-leb epd' size e in
    let rest = concat ps in
    let sum : epd.data_len + length ((b ∷ bs) ++ rest)
        ≡ epd.data_len + length (b ∷ bs) + length rest =
      omega (arith, length-append {0} (b ∷ bs) rest) in
    if_ind
      (λ (o : Cleared).
        (o.ended ≡ leb (size + epd.header_length) (epd.data_len + length ((b ∷ bs) ++ rest)))
        × (o.is_open ≡ true))
      (has_body epd')
      (λ h. (sym (le→leb _ _ (omega (arith, sum, leb→le _ _ (sym test ∙ h)))), refl))
      (λ h.
        let (same, still) =
          network_be_read_on_clear-ended serv epd' size ps e (leb_false→lt _ _ (sym test ∙ h)) ks in
        (same ∙ ap (leb (size + epd.header_length)) (sym sum), still))

module _ (thread : Bool) (cs : List Client) where
  abbrev CountsAll : Cleared → Type 0
  CountsAll o = Counts thread o.is_open cs o.serv o.epd.status

  drop_client-Counts :
      (serv : ServStatus) (epd : Epd)
      → Counts thread true cs serv read
      → CountsAll (drop_client serv epd)
  unfolding drop_client
  drop_client-Counts serv epd h =
      let l = leave-Counts thread true cs serv h in
      record {
        reading_eq = l.reading_eq;
        sending_eq = l.sending_eq;
        active_eq = ap (λ n. n -ℤ pos 1) l.active_eq ∙ omega int_laws;
      }

  -- If the counters count the connections while this one reads, they count them again with the state
  -- that `network_be_read_on_clear` leaves it in, whatever `recv` answers.
  pub network_be_read_on_clear-IsCounted :
      (serv : ServStatus) (epd : Epd) (inputs : List Input)
      → epd.status ≡ read
      → IsCounted serv (client_of thread true read ∷ cs)
      → IsCounted (network_be_read_on_clear serv epd inputs).serv (
          client_of thread
            (network_be_read_on_clear serv epd inputs).is_open
            (network_be_read_on_clear serv epd inputs).epd.status
          ∷ cs)
  unfolding network_be_read_on_clear end_body
  network_be_read_on_clear-IsCounted serv epd [] e h = subst (Counts thread true cs serv) (sym e) h
  network_be_read_on_clear-IsCounted serv epd (would_block ∷ rest) e h =
      subst (Counts thread true cs serv) (sym e) h
  network_be_read_on_clear-IsCounted serv epd (broken ∷ rest) e h = drop_client-Counts serv epd h
  network_be_read_on_clear-IsCounted serv epd (received [] ∷ rest) e h =
      drop_client-Counts serv epd h
  network_be_read_on_clear-IsCounted serv epd (received (b ∷ bs) ∷ rest) e h =
      let epd' = with_more epd (length (b ∷ bs)) in
      if_ind CountsAll (has_body epd') (λ _. leave-Counts thread true cs serv h)
        (λ _. network_be_read_on_clear-IsCounted serv epd' rest e h)
