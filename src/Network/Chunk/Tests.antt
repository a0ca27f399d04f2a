-- ===== src/Network/Chunk/Tests.antt =====
-- Chunks that are built, and the example of the theorem on them.
use alilua.Prelude.{
  ℕ, ◌+◌, ◌≡◌, refl, inr, Option, none, some, [], ◌∷◌, ◌++◌, Bytes, codes, arith, update, true,
}
use alilua.Network.Epd.{Epd, idle}
use alilua.Network.Send.Buffers.{contents}
use alilua.Network.Chunk.{network_add_chunk_metas, is_http_11, wrap_chunk, end_chunk}
use alilua.Network.Chunk.Coding.{Chunked}
use alilua.Network.Chunk.Stream.{IsPart, IsLast, stream, unchanged, network_add_chunk_metas-Chunked}

-- A number below ten.
abbrev digit : ℕ → Bytes
digit n = (n + b'0') ∷ []

abbrev version : Option Bytes
version = some (codes "HTTP/1.1")

abbrev flushed : Epd
flushed = record idle {
  iov = update (λ i. none) 1 (some (codes "hi"));
  iov_buf_count = 1;
  response_content_length = 2;
  header_sended = 1;
}

abbrev emptied : Epd
emptied = record idle { iov_buf_count = 1; header_sended = 2 }

flushed_test : contents (network_add_chunk_metas 4096 digit version flushed) ≡ codes "2\r\nhi\r\n"
unfolding network_add_chunk_metas is_http_11 wrap_chunk end_chunk
flushed_test = refl

emptied_test : contents (network_add_chunk_metas 4096 digit version emptied) ≡ codes "0\r\n\r\n"
unfolding network_add_chunk_metas is_http_11
emptied_test = refl

version-is_http_11 : is_http_11 version ≡ true
unfolding is_http_11
version-is_http_11 = refl

flushed-IsPart : IsPart flushed
flushed-IsPart = (
  record {
    filling = record { first = codes "hi"; has_first = refl; last = 0; count_is = refl };
    counted = refl;
    is_some = omega arith;
  },
  refl,
)

emptied-IsLast : IsLast emptied
emptied-IsLast = (inr (record { no_first = refl; no_second = refl; count_is = refl }), refl)

network_add_chunk_metas-Chunked_example :
    Chunked digit
      (stream (network_add_chunk_metas 4096 digit version) (flushed ∷ flushed ∷ [])
        ++ contents (network_add_chunk_metas 4096 digit version emptied))
      (stream unchanged (flushed ∷ flushed ∷ []) ++ contents emptied)
network_add_chunk_metas-Chunked_example =
    network_add_chunk_metas-Chunked 4096 digit version version-is_http_11 refl
      (flushed ∷ flushed ∷ []) emptied (flushed-IsPart, (flushed-IsPart, omega arith))
      emptied-IsLast
