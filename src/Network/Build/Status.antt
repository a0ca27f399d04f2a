-- ===== src/Network/Build/Status.antt =====
-- The status of a connection stays as it is when its head is completed.
use alilua.Prelude.{
  ℕ, ◌≡◌, refl, ◌∙◌, Option, some, inl, inr, Bytes, codes, length, if_ind, ◌==◌, update,
  Option-cases,
}
use alilua.Network.Epd.{Epd}
use alilua.Network.Chunk.Status.{network_add_chunk_metas-status}
use alilua.Network.Build.{
  Site, look_through, asks_close, add_metas, complete, network_build_header_out,
}

add_metas-status :
    (site : Site) (http_ver : Option Bytes) (has : ℕ) (epd : Epd)
    → (add_metas site http_ver has epd).status ≡ epd.status
unfolding add_metas
add_metas-status site http_ver has epd =
    if_ind (λ (e : Epd). e.status ≡ epd.status) (has == 2)
      (λ _. network_add_chunk_metas-status site.ep_d_buf_size site.ultostr http_ver epd) (λ _. refl)

complete-status :
    (site : Site) (has : ℕ) (head : Bytes) (epd : Epd)
    → (complete site has head epd).0.status ≡ epd.status
unfolding complete
complete-status site has head epd =
    elim (Option-cases (site.stristr head (codes "Connection:") (length head))) [
      | inl e ↦ rw (e, complete) refl
      | inr (p, e) ↦
          rw (e, complete)
            (if_ind (λ (x : Epd). x.status ≡ epd.status) (asks_close site head p) (λ _. refl)
              (λ _. refl))
    ]

pub network_build_header_out-status :
    (site : Site) (http_ver : Option Bytes) (has : ℕ) (epd : Epd)
    → (network_build_header_out site http_ver has epd).0.status ≡ epd.status
unfolding network_build_header_out
network_build_header_out-status site http_ver has epd = elim (Option-cases (epd.iov 0)) [
  | inl e ↦ rw (e, network_build_header_out) refl
  | inr (given, e) ↦
      let (head, has') = look_through site has given in
      let begun : Epd = record epd { iov = update epd.iov 0 (some head) } in
      rw (e, network_build_header_out)
        (complete-status site has' head (add_metas site http_ver has' begun)
          ∙ add_metas-status site http_ver has' begun)
]
