-- ===== src/LuaExt/Drain/Middle.antt =====
-- A response of which a part was flushed: what `network_send` does to its buffers.
use alilua.Prelude.{
  ℕ, zero, suc, ◌-◌, ◌<◌, ◌≤◌, ◌≡◌, ◌≢◌, refl, sym, ap, ap₂, ◌∙◌, false, Option, none, some, inl,
  inr, ◌⊎◌, [], ◌++◌, Bytes, length, take, drop, arith, append_assoc, length-append, length-drop,
  take_all, take-append-drop,
}
use mathlib.Core.Path.{subst}
use alilua.Prelude.Int.{ℤ, pos, negsuc}
use alilua.Network.Epd.{Epd, max_iov_count, bytes_of}
use alilua.Network.Send.{network_send}
use alilua.Network.Send.Buffers.{IsFilling, contents, Sent}
use alilua.Network.Send.First.{
  HasFirst, opened, network_send-HasFirst, network_send-opened, network_send_first-HasFirst,
}
use alilua.Network.Send.Laws.{network_send-Sent}
use alilua.Network.Send.Whole.{always, IsNumber, network_send-IsNumber}
use alilua.Network.Chunk.Ready.{filling_of}
use alilua.Network.Flush.Laws.{IsNext}
use alilua.Network.Write.Cleared.{IsCleared}

-- The buffers hold the begin of the next part.
pub record IsMiddle (epd : Epd) : Type 0 where
  pub next : IsNext epd
  pub in_time : epd.process_timeout ≢ 1
  pub no_file : epd.sendfile ≡ false

-- They hold nothing, or that.
abbrev pub IsBetween : Epd → Type 0
IsBetween epd = IsCleared epd ⊎ IsMiddle epd

-- What `network_send` may give, where the buffers held `before`: all of the piece is in them, or all but
-- a rest.
abbrev pub Placed : Bytes → Bytes → Epd × Option ℤ → Type 0
Placed before piece r =
    ((r.1 ≡ some (pos 0)) × (contents r.0 ≡ before ++ piece))
    ⊎ ((n : ℕ) × (r.1 ≡ some (pos (suc n)))
        × (contents r.0 ++ drop (length piece - suc n) piece ≡ before ++ piece)
        × (length (drop (length piece - suc n) piece) ≡ suc n))

pub record Puts (epd : Epd) (piece : Bytes) (r : Epd × Option ℤ) : Type 0 where
  pub middle : IsMiddle r.0
  pub result : Placed (contents epd) piece r

-- The buffers in use.
record IsUsed (epd : Epd) : Type 0 where
  filling : IsFilling epd
  counted : epd.response_content_length ≡ length (contents epd)
  header_sended : epd.header_sended ≡ 1
  none_sent : epd.response_buf_sended ≡ 0
  in_time : epd.process_timeout ≢ 1
  no_file : epd.sendfile ≡ false

length-take_le : (k : ℕ) (xs : Bytes) → k ≤ length xs → length (take k xs) ≡ k
length-take_le k xs h = omega (
  arith,
  h,
  length-drop k xs,
  ap length (take-append-drop k xs),
  length-append {0} (take k xs) (drop k xs),
)

Sent-IsMiddle :
    (epd : Epd) (piece : Bytes) (r : Epd × Option ℤ)
    → IsUsed epd
    → Sent epd piece r
    → HasFirst r.0
    → IsMiddle r.0
Sent-IsMiddle epd piece r u w f =
    let others = w.others_same in
    record {
      next = record {
        ready = record {
          first = w.filling.first;
          has_first = w.filling.has_first;
          is_some = omega (arith, f.is_some, ap (λ b. length (bytes_of b)) w.filling.has_first);
          last = w.filling.last;
          count_is = w.filling.count_is;
          counted = omega (
            arith,
            w.counted,
            u.counted,
            ap length w.written,
            length-append {0} (contents epd) (take w.copied piece),
            length-take_le w.copied piece w.within,
          );
        };
        header_sended = ap (λ (x : Epd). x.header_sended) others ∙ u.header_sended;
        none_sent = ap (λ (x : Epd). x.response_buf_sended) others ∙ u.none_sent;
      };
      in_time = λ e. u.in_time (sym w.timeout_same ∙ e);
      no_file = w.sendfile_same ∙ u.no_file;
    }

Sent-Puts :
    (epd : Epd) (piece : Bytes) (r : Epd × Option ℤ)
    → IsUsed epd
    → Sent epd piece r
    → HasFirst r.0
    → IsNumber r.1
    → Puts epd piece r
Sent-Puts epd piece (e, some (pos zero)) u w f n = record {
  middle = Sent-IsMiddle epd piece (e, some (pos zero)) u w f;
  result = inl (
    refl,
    w.written ∙ ap (λ t. contents epd ++ t) (take_all w.copied piece (omega (arith, w.returned))),
  );
}
Sent-Puts epd piece (e, some (pos (suc m))) u w f n =
    let k : length piece - suc m ≡ w.copied = omega (arith, w.returned) in
    record {
      middle = Sent-IsMiddle epd piece (e, some (pos (suc m))) u w f;
      result = inr (
        m,
        refl,
        ap₂ (λ t j. t ++ drop j piece) w.written k
            ∙ append_assoc (contents epd) (take w.copied piece) (drop w.copied piece)
            ∙ ap (λ t. contents epd ++ t) (take-append-drop w.copied piece),
        omega (arith, w.returned, length-drop (length piece - suc m) piece),
      );
    }
Sent-Puts epd piece (e, some (negsuc m)) u w f n = absurd n
Sent-Puts epd piece (e, none) u w f n = absurd n

IsMiddle-IsUsed : (epd : Epd) → IsMiddle epd → IsUsed epd
IsMiddle-IsUsed epd m = record {
  filling = filling_of epd m.next.ready;
  counted = m.next.ready.counted;
  header_sended = m.next.header_sended;
  none_sent = m.next.none_sent;
  in_time = m.in_time;
  no_file = m.no_file;
}

opened-IsUsed : (epd : Epd) → IsCleared epd → IsUsed (opened epd)
opened-IsUsed epd c = record {
  filling = record { first = []; has_first = refl; last = 0; count_is = refl };
  counted = refl;
  header_sended = c.header_sended;
  none_sent = c.none_sent;
  in_time = c.in_time;
  no_file = c.no_file;
}

module _ (size : ℕ) where
  used-Puts :
      (epd : Epd) (piece : Bytes)
      → IsUsed epd
      → 0 < length piece
      → HasFirst (network_send size always max_iov_count epd piece).0
      → Puts epd piece (network_send size always max_iov_count epd piece)
  used-Puts epd piece u h f =
      Sent-Puts epd piece (network_send size always max_iov_count epd piece) u
        (network_send-Sent size always max_iov_count epd piece u.filling u.in_time (omega arith)
          (omega arith))
        f
        (network_send-IsNumber size max_iov_count epd piece u.filling u.in_time u.no_file h
          (omega arith) (omega arith))

  -- With memory and buffers of more than eight bytes: a piece that is not empty is put behind what the
  -- buffers hold, up to a rest.
  pub network_send-Puts :
      (epd : Epd) (piece : Bytes)
      → 8 < size
      → IsBetween epd
      → 0 < length piece
      → Puts epd piece (network_send size always max_iov_count epd piece)
  network_send-Puts epd piece big (inr m) h = used-Puts epd piece (IsMiddle-IsUsed epd m) h (
      network_send-HasFirst size max_iov_count epd piece (record {
        is_some =
            omega
              (arith, m.next.ready.is_some, ap (λ b. length (bytes_of b)) m.next.ready.has_first);
        is_counted = omega (arith, m.next.ready.count_is);
      }))
  network_send-Puts epd piece big (inl c) h =
      let same =
        network_send-opened size 237 epd piece c.no_first c.count_is c.in_time c.no_file h in
      let p =
        used-Puts (opened epd) piece (opened-IsUsed epd c) h
          (network_send_first-HasFirst size 237 epd piece big c.in_time c.no_file h) in
      let nothing : contents epd ≡ [] = rw (c.count_is, c.no_first) refl in
      let here : Puts epd piece (network_send size always max_iov_count (opened epd) piece) =
        record {
          middle = p.middle;
          result =
              subst
                (λ b. Placed b piece (network_send size always max_iov_count (opened epd) piece))
                (sym nothing) p.result;
        } in
      subst (Puts epd piece) (sym same) here
