-- ===== src/Network/Write/Next.antt =====
-- A response with something to be called behind it.
use alilua.Prelude.{
  ℕ, ◌+◌, ◌≡◌, refl, Bool, true, ◌⊎◌, inl, inr, List, [], ◌∷◌, ◌++◌, Bytes, leb, if_ind, take, ◌==◌,
}
use alilua.Prelude.Int.{ℤ, pos, ◌-ℤ◌}
use alilua.ServStatus.{ServStatus}
use alilua.Network.Epd.{Epd}
use alilua.Network.Write.{
  concat, send_iov, k_after, Answer, accepted, again, failed, waits, calls_next_proc, Outcome,
  leave_send, conclude, finish, fail, write_loop,
}

-- The loop waits, or it calls `next_proc` and counts one response less.
abbrev pub Continues : ServStatus → Outcome → Type 0
Continues serv o =
    (o.action ≡ waits)
    ⊎ ((o.action ≡ calls_next_proc) × (o.serv.sending_counts ≡ serv.sending_counts -ℤ pos 1))

conclude-Continues :
    (serv : ServStatus) (epd : Epd) (wire : Bytes) (code : ℕ) (done : Bool)
    → epd.next_proc ≡ true
    → Continues serv (conclude serv epd wire code done)
unfolding conclude leave_send
conclude-Continues serv epd wire code done n =
    if_ind (Continues serv) (epd.header_sended == 1) (λ _. inr (rw n refl, refl))
      (λ _. inr (rw n refl, refl))

-- The same for the whole loop, whatever `writev` answers.
pub write_loop-Continues :
    (serv : ServStatus) (epd : Epd) (k : ℤ) (wire : Bytes) (answers : List Answer)
    → epd.next_proc ≡ true
    → Continues serv (write_loop serv epd k wire answers)
unfolding write_loop finish fail
write_loop-Continues serv epd k wire [] n = inl refl
write_loop-Continues serv epd k wire (again ∷ rest) n = inl refl
write_loop-Continues serv epd k wire (failed ∷ rest) n = conclude-Continues serv _ wire 499 _ n
write_loop-Continues serv epd k wire (accepted m ∷ rest) n =
    let epd' : Epd = record epd { response_buf_sended = epd.response_buf_sended + m } in
    let wire' = wire ++ take m (concat (send_iov epd k)) in
    if_ind (Continues serv) (leb epd.response_content_length epd'.response_buf_sended)
      (λ _. conclude-Continues serv _ wire' 0 true n)
      (λ _. write_loop-Continues serv epd' (k_after epd k) wire' rest n)
