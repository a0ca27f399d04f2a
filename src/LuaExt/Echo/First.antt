-- ===== src/LuaExt/Echo/First.antt =====
-- The first output of a response, which has no buffer yet, is as that of one with an empty buffer.
use alilua.Prelude.{
  ℕ, ◌≡◌, ◌≢◌, refl, ap, ◌∙◌, true, false, Option, none, some, [], ◌∷◌, List, Bytes, update_self,
  arith,
}
use alilua.Prelude.Int.{ℤ}
use alilua.Network.Epd.{Epd, max_iov_count}
use alilua.Network.Send.{network_send}
use alilua.Network.Send.Buffers.{contents}
use alilua.Network.Send.First.{opened, network_send-opened_first}
use alilua.Network.Send.Whole.{always, IsNumber, network_send-IsNumber}
use alilua.LuaExt.Echo.{begin_echo, after_send, echo_one, echo_all}
use alilua.LuaExt.Echo.Taken.{IsReady, IsOutput}

-- A response that has put out nothing yet.
pub record IsFirst (epd : Epd) : Type 0 where
  pub no_first : epd.iov 1 ≡ none
  pub no_buffer : epd.iov_buf_count ≡ 0
  pub in_time : epd.process_timeout ≢ 1
  pub no_file : epd.sendfile ≡ false

pub opened-IsReady : (epd : Epd) → IsFirst epd → IsReady (opened epd)
opened-IsReady epd f = record {
  filling = record {
    first = [];
    has_first = update_self epd.iov 1 (some []);
    last = 0;
    count_is = refl;
  };
  in_time = f.in_time;
  no_file = f.no_file;
}

pub contents-opened : (epd : Epd) → IsFirst epd → contents (opened epd) ≡ contents epd
contents-opened epd f = rw f.no_buffer refl

after_send-begin_echo :
    (epd e : Epd) (piece : Bytes) (r : Epd × Option ℤ)
    → IsNumber r.1
    → after_send true (begin_echo epd) piece r ≡ after_send true (begin_echo e) piece r
unfolding after_send
after_send-begin_echo epd e piece (e', some n) h = refl
after_send-begin_echo epd e piece (e', none) h = absurd h

module _ (size : ℕ) (epd : Epd) (f : IsFirst epd) where
  echo_one-opened :
      (piece : Bytes)
      → IsOutput piece
      → echo_one size always true (begin_echo epd) piece
        ≡ echo_one size always true (begin_echo (opened epd)) piece
  unfolding echo_one
  echo_one-opened piece h =
      let r = opened-IsReady epd f in
      ap (after_send true (begin_echo epd) piece)
        (network_send-opened_first size 237 epd piece f.no_first f.no_buffer f.in_time f.no_file h)
      ∙ after_send-begin_echo epd (opened epd) piece
          (network_send size always max_iov_count (opened epd) piece)
          (network_send-IsNumber size max_iov_count (opened epd) piece r.filling r.in_time r.no_file
            h (omega arith) (omega arith))

  pub echo_all-opened :
      (piece : Bytes) (rest : List Bytes)
      → IsOutput piece
      → echo_all size always true (begin_echo epd) (piece ∷ rest)
        ≡ echo_all size always true (begin_echo (opened epd)) (piece ∷ rest)
  unfolding echo_all
  echo_all-opened piece rest h =
      ap (λ s. echo_all size always true s rest) (echo_one-opened piece h)
