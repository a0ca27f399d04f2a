-- ===== src/Network/Chunk/Coding.antt =====
-- What is flushed in parts is the chunked transfer coding of RFC 7230, section 4.1.
use alilua.Prelude.{
  ℕ, zero, suc, ◌+◌, ◌<◌, ◌≡◌, refl, sym, ap, ◌∙◌, true, Option, some, [], ◌++◌, Bytes, length,
  take, update, ◌==◌, arith, if_ind, ltb, if◌then◌else◌, append_assoc, update_self, update_ne,
}
use alilua.Network.Epd.{Epd, bytes_of, body}
use alilua.Network.Send.Buffers.{
  IsFilling, contents, body-update_self, contents_split, contents-set_current,
}
use alilua.Network.Chunk.{
  is_http_11, crlf, last_chunk, end_chunk, wrap_chunk, network_add_chunk_metas,
}

-- A message body and how it is coded; `size n` writes a number in hexadecimal digits.
pub data Chunked (size : ℕ → Bytes) : Bytes → Bytes → Type 0 where
  ended : Chunked size (size 0 ++ (crlf ++ crlf)) []
  chunk :
      (data' wire rest : Bytes)
      → 0 < length data'
      → Chunked size wire rest
      → Chunked size (size (length data') ++ (crlf ++ (data' ++ (crlf ++ wire)))) (data' ++ rest)

body-prepend :
    (iov : ℕ → Option Bytes) (n : ℕ) (first buf : Bytes)
    → iov 1 ≡ some first
    → body (update iov 1 (some (buf ++ first))) (suc n) ≡ buf ++ body iov (suc n)
body-prepend iov zero first buf e = rw e refl
body-prepend iov (suc n) first buf e =
    rw
      (
        body-prepend iov n first buf e,
        update_ne iov 1 (some (buf ++ first)) (suc (suc n)) (omega arith),
      )
      (append_assoc buf (body iov (suc n)) (bytes_of (iov (suc (suc n)))))

end_chunk-contents :
    (size : ℕ) (epd : Epd) (add_bytes : ℕ)
    → IsFilling epd
    → contents (end_chunk size epd add_bytes) ≡ contents epd ++ take add_bytes (crlf ++ last_chunk)
unfolding end_chunk
end_chunk-contents size epd add_bytes f =
    let tail = take add_bytes (crlf ++ last_chunk) in
    let used = bytes_of (epd.iov epd.iov_buf_count) in
    if_ind (λ (e : Epd). contents e ≡ contents epd ++ tail) (ltb size (length used + add_bytes))
      (λ full.
        let e : epd.iov_buf_count + 1 ≡ suc epd.iov_buf_count = omega arith in
        rw e (body-update_self epd.iov epd.iov_buf_count (some tail)))
      (λ fits.
        contents-set_current epd f (some (used ++ tail))
        ∙ sym (append_assoc (body epd.iov f.last) used tail)
        ∙ ap (λ t. t ++ tail) (sym (contents_split epd f)))

-- The number of bytes behind a chunk, and the bytes.
abbrev pub end_length : Epd → ℕ
end_length epd = if epd.header_sended == 1 then 2 else 7

module _ (ep_d_buf_size : ℕ) (ultostr : ℕ → Bytes) where
  pub wrap_chunk-contents :
      (epd : Epd) (f : IsFilling epd)
      → contents (wrap_chunk ep_d_buf_size ultostr epd f.first)
        ≡ (ultostr epd.response_content_length ++ crlf)
          ++ (contents epd ++ take (end_length epd) (crlf ++ last_chunk))
  unfolding wrap_chunk
  wrap_chunk-contents epd f =
      let buf = ultostr epd.response_content_length ++ crlf in
      let marked = record epd {
        iov = update epd.iov 1 (some (buf ++ f.first));
        response_content_length = epd.response_content_length + (end_length epd + length buf);
      } in
      let g : IsFilling marked = record {
        first = buf ++ f.first;
        has_first = update_self epd.iov 1 (some (buf ++ f.first));
        last = f.last;
        count_is = f.count_is;
      } in
      end_chunk-contents ep_d_buf_size marked (end_length epd) g
      ∙ ap (λ t. t ++ take (end_length epd) (crlf ++ last_chunk))
          (ap (λ n. body marked.iov n) f.count_is
            ∙ body-prepend epd.iov f.last f.first buf f.has_first
            ∙ ap (λ n. buf ++ body epd.iov n) (sym f.count_is))
      ∙ append_assoc buf (contents epd) (take (end_length epd) (crlf ++ last_chunk))

  pub network_add_chunk_metas-wrap_chunk :
      (http_ver : Option Bytes) (epd : Epd) (f : IsFilling epd)
      → is_http_11 http_ver ≡ true
      → network_add_chunk_metas ep_d_buf_size ultostr http_ver epd
        ≡ wrap_chunk ep_d_buf_size ultostr epd f.first
  unfolding network_add_chunk_metas
  network_add_chunk_metas-wrap_chunk http_ver epd f h =
      rw (h, network_add_chunk_metas, f.has_first) refl
