-- ===== src/Network/Chunk/Ready.antt =====
-- A response that is ready to be sent stays so when it is made a chunk.
use mathlib.Core.Path.{subst}
use alilua.Prelude.{
  ℕ, suc, ◌+◌, ◌<◌, ◌≡◌, refl, sym, ap, ◌∙◌, Option, some, inl, inr, ◌++◌, Bytes, length, take,
  update, ◌==◌, arith, Bool-cases, Option-cases, if_ind, ltb, length-append, update_self, update_ne,
}
use alilua.Network.Epd.{Epd, bytes_of}
use alilua.Network.Send.Buffers.{IsFilling, contents}
use alilua.Network.Chunk.{
  is_http_11, crlf, last_chunk, end_chunk, wrap_chunk, network_add_chunk_metas,
}
use alilua.Network.Chunk.Coding.{
  end_length, wrap_chunk-contents, network_add_chunk_metas-wrap_chunk,
}

-- A response that waits to be sent: its body is in the buffers and counted, and its first buffer
-- holds some of it.
pub record IsReady (epd : Epd) : Type 0 where
  pub first : Bytes
  pub has_first : epd.iov 1 ≡ some first
  pub is_some : 0 < length first
  pub last : ℕ
  pub count_is : epd.iov_buf_count ≡ suc last
  pub counted : epd.response_content_length ≡ length (contents epd)

abbrev pub filling_of : (epd : Epd) → IsReady epd → IsFilling epd
filling_of epd r = record {
  first = r.first;
  has_first = r.has_first;
  last = r.last;
  count_is = r.count_is;
}

-- What is left to show of a result, with the count apart.
record IsHeld (epd : Epd) : Type 0 where
  first : Bytes
  has_first : epd.iov 1 ≡ some first
  is_some : 0 < length first
  last : ℕ
  count_is : epd.iov_buf_count ≡ suc last

end_chunk-IsHeld : (size : ℕ) (epd : Epd) (n : ℕ) → IsHeld epd → IsHeld (end_chunk size epd n)
unfolding end_chunk
end_chunk-IsHeld size epd n r =
    let tail = take n (crlf ++ last_chunk) in
    let used = bytes_of (epd.iov epd.iov_buf_count) in
    if_ind IsHeld (ltb size (length used + n))
      (λ full. record {
        first = r.first;
        has_first =
            update_ne epd.iov (epd.iov_buf_count + 1) (some tail) 1 (ground (arith, r.count_is))
            ∙ r.has_first;
        is_some = r.is_some;
        last = epd.iov_buf_count;
        count_is = omega arith;
      })
      (λ fits. elim (Bool-cases (epd.iov_buf_count == 1)) [
        | inl e ↦
            let one : epd.iov_buf_count ≡ 1 = ground arith in
            let same : used ≡ r.first =
              ap (λ k. bytes_of (epd.iov k)) one ∙ ap bytes_of r.has_first in
            record {
              first = used ++ tail;
              has_first =
                  ap (λ k. update epd.iov k (some (used ++ tail)) 1) one
                  ∙ update_self epd.iov 1 (some (used ++ tail));
              is_some = omega (arith, length-append used tail, ap length same, r.is_some);
              last = r.last;
              count_is = r.count_is;
            }
        | inr e ↦ record {
          first = r.first;
          has_first =
              update_ne epd.iov epd.iov_buf_count (some (used ++ tail)) 1 (ground arith)
              ∙ r.has_first;
          is_some = r.is_some;
          last = r.last;
          count_is = r.count_is;
        }
      ])

end_length-take : (epd : Epd) → length (take (end_length epd) (crlf ++ last_chunk)) ≡ end_length epd
end_length-take epd =
    if_ind (λ (n : ℕ). length (take n (crlf ++ last_chunk)) ≡ n) (epd.header_sended == 1)
      (λ e. refl) (λ e. refl)

module _ (ep_d_buf_size : ℕ) (ultostr : ℕ → Bytes) where
  end_chunk-length :
      (epd : Epd) (n : ℕ)
      → (end_chunk ep_d_buf_size epd n).response_content_length ≡ epd.response_content_length
  unfolding end_chunk
  end_chunk-length epd n =
      if_ind (λ (e : Epd). e.response_content_length ≡ epd.response_content_length)
        (ltb ep_d_buf_size (length (bytes_of (epd.iov epd.iov_buf_count)) + n)) (λ e. refl)
        (λ e. refl)

  wrap_chunk-length :
      (epd : Epd) (first : Bytes)
      → (wrap_chunk ep_d_buf_size ultostr epd first).response_content_length
        ≡ epd.response_content_length
          + (end_length epd + length (ultostr epd.response_content_length ++ crlf))
  unfolding wrap_chunk
  wrap_chunk-length epd first = end_chunk-length _ (end_length epd)

  wrap_chunk-IsHeld :
      (epd : Epd) (r : IsReady epd) → IsHeld (wrap_chunk ep_d_buf_size ultostr epd r.first)
  unfolding wrap_chunk
  wrap_chunk-IsHeld epd r =
      let buf = ultostr epd.response_content_length ++ crlf in
      end_chunk-IsHeld ep_d_buf_size _ (end_length epd) (record {
        first = buf ++ r.first;
        has_first = update_self epd.iov 1 (some (buf ++ r.first));
        is_some = omega (arith, length-append buf r.first, r.is_some);
        last = r.last;
        count_is = r.count_is;
      })

  wrap_chunk-IsReady :
      (epd : Epd) (r : IsReady epd) → IsReady (wrap_chunk ep_d_buf_size ultostr epd r.first)
  wrap_chunk-IsReady epd r =
      let h = wrap_chunk-IsHeld epd r in
      let size = ultostr epd.response_content_length in
      let tail = take (end_length epd) (crlf ++ last_chunk) in
      record {
        first = h.first;
        has_first = h.has_first;
        is_some = h.is_some;
        last = h.last;
        count_is = h.count_is;
        counted = omega (
          arith,
          wrap_chunk-length epd r.first,
          r.counted,
          end_length-take epd,
          ap length (wrap_chunk-contents ep_d_buf_size ultostr epd (filling_of epd r)),
          length-append (size ++ crlf) (contents epd ++ tail),
          length-append (contents epd) tail,
        );
      }

  pub network_add_chunk_metas-IsReady :
      (http_ver : Option Bytes) (epd : Epd)
      → IsReady epd
      → IsReady (network_add_chunk_metas ep_d_buf_size ultostr http_ver epd)
  unfolding network_add_chunk_metas
  network_add_chunk_metas-IsReady http_ver epd r = elim (Bool-cases (is_http_11 http_ver)) [
    | inl e ↦
        subst IsReady
          (sym (
            network_add_chunk_metas-wrap_chunk ep_d_buf_size ultostr http_ver epd (filling_of epd r)
              e))
          (wrap_chunk-IsReady epd r)
    | inr e ↦
        rw (e, network_add_chunk_metas)
          (record {
            first = r.first;
            has_first = r.has_first;
            is_some = r.is_some;
            last = r.last;
            count_is = r.count_is;
            counted = r.counted;
          })
  ]

  -- Three fields that the end of a response looks at stay as they are.
  pub network_add_chunk_metas-keeps :
      (http_ver : Option Bytes) (epd : Epd)
      → ((network_add_chunk_metas ep_d_buf_size ultostr http_ver epd).header_sended
          ≡ epd.header_sended)
        × ((network_add_chunk_metas ep_d_buf_size ultostr http_ver epd).sendfile ≡ epd.sendfile)
        × ((network_add_chunk_metas ep_d_buf_size ultostr http_ver epd).response_buf_sended
            ≡ epd.response_buf_sended)
  unfolding network_add_chunk_metas wrap_chunk end_chunk
  network_add_chunk_metas-keeps http_ver epd = elim (Bool-cases (is_http_11 http_ver)) [
    | inr e ↦ rw (e, network_add_chunk_metas) ((refl, refl, refl))
    | inl e ↦ elim (Option-cases (epd.iov 1)) [
      | inl d ↦ rw (e, network_add_chunk_metas, d) ((refl, refl, refl))
      | inr (first, d) ↦
          rw (e, network_add_chunk_metas, d) ((ground arith, ground arith, ground arith))
    ]
  ]
