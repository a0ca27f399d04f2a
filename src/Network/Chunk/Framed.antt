-- ===== src/Network/Chunk/Framed.antt =====
-- What `network_add_chunk_metas` makes of a body, written out as RFC 7230, section 4.1, has it.
use alilua.Prelude.{
  ◌≡◌, refl, ap, ◌∙◌, Option, inl, inr, ◌++◌, Bytes, ℕ, codes, length, ◌==◌, if◌then◌else◌,
  Bool-cases, append_assoc, if_true, take, not, false,
}
use alilua.Prelude.Int.{pos}
use alilua.Network.Epd.{Epd}
use alilua.Network.Send.Buffers.{contents}
use alilua.Network.Chunk.{is_http_11, crlf, last_chunk, network_add_chunk_metas}
use alilua.Network.Chunk.Coding.{
  end_length, wrap_chunk-contents, network_add_chunk_metas-wrap_chunk,
}
use alilua.Network.Chunk.Ready.{IsReady, filling_of}

-- A chunk: its size in hexadecimal digits, and the body between two ends of lines.
abbrev pub chunk_of : (ℕ → Bytes) → Bytes → Bytes
chunk_of ultostr text = ultostr (length text) ++ (codes "\r\n" ++ (text ++ codes "\r\n"))

-- A chunk and behind it the last, empty one, which ends the message.
abbrev pub whole_chunked : (ℕ → Bytes) → Bytes → Bytes
whole_chunked ultostr text =
    ultostr (length text) ++ (codes "\r\n" ++ (text ++ codes "\r\n0\r\n\r\n"))

-- By `header_sended`: a part, or the end of the message.
abbrev pub as_chunk : (ℕ → Bytes) → ℕ → Bytes → Bytes
as_chunk ultostr sended text =
    if sended == 1 then chunk_of ultostr text else whole_chunked ultostr text

module _ (size : ℕ) (ultostr : ℕ → Bytes) (http_ver : Option Bytes) where
  network_add_chunk_metas_plain :
      (epd : Epd)
      → is_http_11 http_ver ≡ false
      → network_add_chunk_metas size ultostr http_ver epd ≡ record epd { keepalive = pos 0 }
  unfolding network_add_chunk_metas
  network_add_chunk_metas_plain epd e = if_true (not (is_http_11 http_ver)) _ (rw e refl)

  -- A client of HTTP/1.0 gets the body as it is.
  pub network_add_chunk_metas-as_chunk :
      (epd : Epd)
      → IsReady epd
      → contents (network_add_chunk_metas size ultostr http_ver epd) ≡ (
          if is_http_11 http_ver
          then as_chunk ultostr epd.header_sended (contents epd)
          else contents epd)
  network_add_chunk_metas-as_chunk epd r = elim (Bool-cases (is_http_11 http_ver)) [
    | inl e ↦
        let ending = take (end_length epd) (crlf ++ last_chunk) in
        let wrapped : contents (network_add_chunk_metas size ultostr http_ver epd)
            ≡ ultostr (length (contents epd)) ++ (crlf ++ (contents epd ++ ending)) =
          ap contents
            (network_add_chunk_metas-wrap_chunk size ultostr http_ver epd (filling_of epd r) e)
          ∙ wrap_chunk-contents size ultostr epd (filling_of epd r)
          ∙ ap (λ n. (ultostr n ++ crlf) ++ (contents epd ++ ending)) r.counted
          ∙ append_assoc (ultostr (length (contents epd))) crlf (contents epd ++ ending) in
        rw e (
          wrapped
          ∙ elim (Bool-cases (epd.header_sended == 1)) [ inl s ↦ rw s refl | inr s ↦ rw s refl ])
    | inr e ↦ rw e (ap contents (network_add_chunk_metas_plain epd e))
  ]
