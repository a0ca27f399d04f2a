-- ===== src/Network/Reader/Examined.antt =====
-- What looking at the received bytes leaves alone in the connection.
use alilua.Prelude.{
  ◌+◌, ◌≡◌, refl, ◌∙◌, not, inl, inr, ◌⊎◌, Bytes, get_or, ltb, leb, ◌==◌, ◌&&◌, ◌||◌, if_ind,
  Option-cases,
}
use alilua.Prelude.Int.{pos, leb_ℤ}
use alilua.Network.Epd.{Epd}
use alilua.Network.Reader.{
  Reader, Config, Checked, passed, rejected, ends_blank, head_length, is_too_long, declared_length,
  learn_length, check_body, after_length, examine_head, examine, received_bytes,
}

-- The connection of a result.
abbrev pub OfChecked : (Epd → Type 0) → Checked → Type 0
OfChecked P (passed epd) = P epd
OfChecked P (rejected code message epd) = P epd

-- The second connection differs from the first in `content_length` and `iov` at most.
pub record Same (epd e : Epd) : Type 0 where
  pub status : e.status ≡ epd.status
  pub data_len : e.data_len ≡ epd.data_len
  pub header_length : e.header_length ≡ epd.header_length

Same-refl : (epd : Epd) → Same epd epd
Same-refl epd = record { status = refl; data_len = refl; header_length = refl }

learn_length-Same :
    (c : Config) (seen : Bytes) (epd : Epd) → OfChecked (Same epd) (learn_length c seen epd)
unfolding learn_length
learn_length-Same c seen epd =
    if_ind (OfChecked (Same epd)) (epd.header_length == 0 || leb_ℤ (pos 0) epd.content_length)
      (λ _. Same-refl epd)
      (λ _.
        if_ind (OfChecked (Same epd))
          (ends_blank seen && not (get_or seen 0 0 == b'P') && not (get_or seen 0 0 == b'p'))
          (λ _. record { status = refl; data_len = refl; header_length = refl })
          (λ _. elim (Option-cases (declared_length c seen)) [
            | inl e ↦ rw (e, learn_length) (Same-refl epd)
            | inr (n, e) ↦
                rw (e, learn_length)
                  (if_ind (OfChecked (Same epd))
                    (ltb 0 c.max_request_body && leb_ℤ (pos (c.max_request_body + 1)) n)
                    (λ _. record { status = refl; data_len = refl; header_length = refl })
                    (λ _. record { status = refl; data_len = refl; header_length = refl }))
          ]))

check_body-Same : (epd : Epd) → OfChecked (Same epd) (check_body epd)
unfolding check_body
check_body-Same epd =
    if_ind (OfChecked (Same epd))
      (ltb 0 epd.header_length
        && ltb epd.header_length epd.data_len
        && leb_ℤ epd.content_length (pos 0))
      (λ _. record { status = refl; data_len = refl; header_length = refl }) (λ _. Same-refl epd)

OfChecked-trans :
    (epd e : Epd) → Same epd e → (k : Checked) → OfChecked (Same e) k → OfChecked (Same epd) k
OfChecked-trans epd e s (passed d) t = record {
  status = t.status ∙ s.status;
  data_len = t.data_len ∙ s.data_len;
  header_length = t.header_length ∙ s.header_length;
}
OfChecked-trans epd e s (rejected code message d) t = record {
  status = t.status ∙ s.status;
  data_len = t.data_len ∙ s.data_len;
  header_length = t.header_length ∙ s.header_length;
}

after_length-Same :
    (epd : Epd) (k : Checked) → OfChecked (Same epd) k → OfChecked (Same epd) (after_length k)
unfolding after_length
after_length-Same epd (rejected code message e) s = s
after_length-Same epd (passed e) s = OfChecked-trans epd e s (check_body e) (check_body-Same e)

pub examine_head-Same :
    (c : Config) (seen : Bytes) (epd : Epd) → OfChecked (Same epd) (examine_head c seen epd)
unfolding examine_head
examine_head-Same c seen epd =
    if_ind (OfChecked (Same epd)) (is_too_long c epd) (λ _. Same-refl epd)
      (λ _. after_length-Same epd (learn_length c seen epd) (learn_length-Same c seen epd))

pub OfChecked-map :
    (P Q : Epd → Type 0) (k : Checked) → ((e : Epd) → P e → Q e) → OfChecked P k → OfChecked Q k
OfChecked-map P Q (passed e) f h = f e h
OfChecked-map P Q (rejected code message e) f h = f e h

-- The connection with the length of the head that was found.
abbrev pub with_head : Config → Reader → Epd
with_head c r = record (r.epd) { header_length = head_length c (received_bytes r) }

-- Only the length of the head changes, and that to the one that was found.
pub examine-Same :
    (c : Config) (r : Reader)
    → OfChecked (λ (e : Epd). Same r.epd e ⊎ Same (with_head c r) e) (examine c r)
unfolding examine
examine-Same c r =
    let P : Epd → Type 0 = λ e. Same r.epd e ⊎ Same (with_head c r) e in
    if_ind (OfChecked P) (r.epd.header_length == 0 && leb 4 r.epd.data_len)
      (λ _.
        OfChecked-map (Same (with_head c r)) P _ (λ e h. inr h)
          (examine_head-Same c (received_bytes r) (with_head c r)))
      (λ _. inl (Same-refl r.epd))
