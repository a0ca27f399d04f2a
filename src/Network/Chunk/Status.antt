-- ===== src/Network/Chunk/Status.antt =====
-- The status of a connection and its time limit stay as they are when its buffers become a chunk, and
-- so does what is called next.
use alilua.Prelude.{
  ℕ, ◌+◌, ◌≡◌, refl, not, Option, inl, inr, Bytes, length, ltb, if_ind, Option-cases,
}
use alilua.Network.Epd.{Epd, bytes_of}
use alilua.Network.Chunk.{is_http_11, end_chunk, wrap_chunk, network_add_chunk_metas}

end_chunk-status :
    (size : ℕ) (epd : Epd) (add_bytes : ℕ) → (end_chunk size epd add_bytes).status ≡ epd.status
unfolding end_chunk
end_chunk-status size epd add_bytes =
    if_ind (λ (e : Epd). e.status ≡ epd.status)
      (ltb size (length (bytes_of (epd.iov epd.iov_buf_count)) + add_bytes)) (λ _. refl) (λ _. refl)

pub network_add_chunk_metas-status :
    (size : ℕ) (ultostr : ℕ → Bytes) (http_ver : Option Bytes) (epd : Epd)
    → (network_add_chunk_metas size ultostr http_ver epd).status ≡ epd.status
unfolding network_add_chunk_metas wrap_chunk
network_add_chunk_metas-status size ultostr http_ver epd =
    if_ind (λ (e : Epd). e.status ≡ epd.status) (not (is_http_11 http_ver)) (λ _. refl)
      (λ _. elim (Option-cases (epd.iov 1)) [
        | inl e ↦ rw e refl
        | inr (first, e) ↦ rw e (end_chunk-status size _ _)
      ])

end_chunk-process_timeout :
    (size : ℕ) (epd : Epd) (add_bytes : ℕ)
    → (end_chunk size epd add_bytes).process_timeout ≡ epd.process_timeout
unfolding end_chunk
end_chunk-process_timeout size epd add_bytes =
    if_ind (λ (e : Epd). e.process_timeout ≡ epd.process_timeout)
      (ltb size (length (bytes_of (epd.iov epd.iov_buf_count)) + add_bytes)) (λ _. refl) (λ _. refl)

pub network_add_chunk_metas-process_timeout :
    (size : ℕ) (ultostr : ℕ → Bytes) (http_ver : Option Bytes) (epd : Epd)
    → (network_add_chunk_metas size ultostr http_ver epd).process_timeout ≡ epd.process_timeout
unfolding network_add_chunk_metas wrap_chunk
network_add_chunk_metas-process_timeout size ultostr http_ver epd =
    if_ind (λ (e : Epd). e.process_timeout ≡ epd.process_timeout) (not (is_http_11 http_ver))
      (λ _. refl)
      (λ _. elim (Option-cases (epd.iov 1)) [
        | inl e ↦ rw e refl
        | inr (first, e) ↦ rw e (end_chunk-process_timeout size _ _)
      ])
