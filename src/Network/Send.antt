-- ===== src/Network/Send.antt =====
-- src/network.c: `network_send`, which copies a piece of the response into the buffers.
pub mod Buffers
pub mod Laws
pub mod Whole
pub mod First
mod Tests
use alilua.Prelude.{
  ℕ, zero, suc, ◌+◌, ◌-◌, Bool, true, false, Option, none, some, [], ◌++◌, Bytes, length, take,
  drop, update, ltb, leb, ◌==◌, ◌||◌, if◌then◌else◌,
}
use alilua.Prelude.Int.{ℤ, pos, negsuc}
use alilua.Network.Epd.{Epd, max_iov_count, bytes_of}

-- `malloc i` says whether the allocation of the buffer `iov[i]` succeeds.
module _ (malloc : ℕ → Bool) where
  -- The first buffer of a response; `none` where `malloc` fails.
  unfoldable pub first_buffer : Epd → Option Epd
  first_buffer epd = elim (epd.iov 1) [
    | some _ ↦ some epd
    | none ↦
        if malloc 1
        then some (record epd {
          iov = update epd.iov 1 (some []);
          iov_buf_count = 1;
          response_content_length = 0;
        })
        else none
  ]

  -- The buffer that is being filled.
  unfoldable pub current_buffer : Epd → Option Epd
  current_buffer epd = elim (epd.iov epd.iov_buf_count) [
    | some _ ↦ some epd
    | none ↦
        if malloc epd.iov_buf_count
        then some (record epd { iov = update epd.iov epd.iov_buf_count (some []) })
        else none
  ]

-- `buf_size`: the first buffer keeps eight bytes for the head of a chunk. `EP_D_BUF_SIZE` is a
-- constant of the coevent library.
abbrev pub buf_size : ℕ → ℕ → ℕ
buf_size ep_d_buf_size i = if i == 1 then ep_d_buf_size - 8 else ep_d_buf_size

-- How much of `piece` fits into the buffer that is being filled. The code does not come here with more
-- in the buffer than it holds, where its `len` would be negative.
unfoldable pub fitting : ℕ → Epd → Bytes → ℕ
fitting ep_d_buf_size epd piece =
    let used = length (bytes_of (epd.iov epd.iov_buf_count)) in
    let all = buf_size ep_d_buf_size epd.iov_buf_count in
    let room = all - used in
    if ltb all (used + length piece)
    then (if ltb (length piece) room then length piece else room)
    else length piece

-- The `memcpy`, and the two counters.
unfoldable pub fill : Epd → ℕ → Bytes → Epd
fill epd len piece = record epd {
  iov =
      update epd.iov epd.iov_buf_count
        (some (bytes_of (epd.iov epd.iov_buf_count) ++ take len piece));
  response_content_length = epd.response_content_length + len;
}

-- `iov_buf_count += 1`, and the next buffer is cleared.
unfoldable pub next_buffer : Epd → Epd
next_buffer epd = record epd {
  iov = update epd.iov (epd.iov_buf_count + 1) none;
  iov_buf_count = epd.iov_buf_count + 1;
}

-- The copy, once `iov[iov_buf_count]` is there (`none` where it could not be allocated); `again` is
-- the recursive call.
unfoldable pub send_into :
    ℕ → (Epd → Bytes → Epd × Option ℤ) → Epd → Bytes → Option Epd → Epd × Option ℤ
send_into ep_d_buf_size again epd piece none = (epd, some (negsuc 1))
send_into ep_d_buf_size again epd piece (some opened) =
    let len = fitting ep_d_buf_size opened piece in
    let filled = fill opened len piece in
    let left = drop len piece in
    if ltb 0 (length left)
    then (if leb max_iov_count (filled.iov_buf_count + 1)
        then (filled, some (pos (length left)))
        else again (next_buffer filled) left)
    else (filled, some (pos (length left)))

-- The result is the state and what the function returns; the second part is `none` where the fuel
-- ran out. Each call moves to the next buffer, so `max_iov_count` calls are enough.
module _ (ep_d_buf_size : ℕ) (malloc : ℕ → Bool) where
  unfoldable pub network_send : ℕ → Epd → Bytes → Epd × Option ℤ
  network_send zero epd piece = (epd, none)
  network_send (suc fuel) epd piece =
      if epd.process_timeout == 1
      then (epd, some (pos 0))
      else if ltb (length piece) 1 || epd.sendfile
      then (epd, some (negsuc 0))
      else if leb max_iov_count (epd.iov_buf_count + 1)
      then (epd, some (pos (length piece)))
      else elim (first_buffer malloc epd) [
        | none ↦ (epd, some (negsuc 1))
        | some started ↦
            send_into ep_d_buf_size (network_send fuel) started piece
              (current_buffer malloc started)
      ]
