-- ===== src/Network/Chunk/Stream.antt =====
-- A response that is flushed in parts and then ended, as a client reads it.
use mathlib.Core.Path.{subst}
use alilua.Prelude.{
  ℕ, ◌<◌, ◌≡◌, refl, sym, ap, ◌∙◌, true, Option, none, inl, inr, List, [], ◌∷◌, ◌++◌, Bytes, length,
  take, append-nil, All, ◌⊎◌, append_assoc,
}
use alilua.Network.Epd.{Epd}
use alilua.Network.Send.Buffers.{IsFilling, contents}
use alilua.Network.Chunk.{is_http_11, crlf, last_chunk, network_add_chunk_metas}
use alilua.Network.Chunk.Coding.{
  Chunked, chunk, ended, wrap_chunk-contents, network_add_chunk_metas-wrap_chunk, end_length,
}

-- There is something in the buffers, and it is counted.
pub record HasBody (epd : Epd) : Type 0 where
  pub filling : IsFilling epd
  pub counted : epd.response_content_length ≡ length (contents epd)
  pub is_some : 0 < length (contents epd)

-- Nothing is in the buffers, as a flush leaves them.
pub record IsEmptied (epd : Epd) : Type 0 where
  pub no_first : epd.iov 1 ≡ none
  pub no_second : epd.iov 2 ≡ none
  pub count_is : epd.iov_buf_count ≡ 1

-- `header_sended` is 1 when a part is flushed, and 2 when the response is ended.
abbrev pub IsPart : Epd → Type 0
IsPart epd = HasBody epd × (epd.header_sended ≡ 1)

abbrev pub IsLast : Epd → Type 0
IsLast epd = (HasBody epd ⊎ IsEmptied epd) × (epd.header_sended ≡ 2)

-- What the buffers of all parts hold, one part behind the other.
abbrev pub stream : (Epd → Epd) → List Epd → Bytes
stream f [] = []
stream f (p ∷ ps) = contents (f p) ++ stream f ps

abbrev pub unchanged : Epd → Epd
unchanged epd = epd

regroup : (a b c d w : Bytes) → ((a ++ b) ++ (c ++ d)) ++ w ≡ a ++ (b ++ (c ++ (d ++ w)))
regroup a b c d w =
    append_assoc (a ++ b) (c ++ d) w
    ∙ append_assoc a b ((c ++ d) ++ w)
    ∙ ap (λ t. a ++ (b ++ t)) (append_assoc c d w)

module _ (ep_d_buf_size : ℕ) (ultostr : ℕ → Bytes) (http_ver : Option Bytes) where
  abbrev chunk_of : Epd → Epd
  chunk_of = network_add_chunk_metas ep_d_buf_size ultostr http_ver

  module _ (is_11 : is_http_11 http_ver ≡ true) where
    chunk_of-contents :
        (epd : Epd) (h : HasBody epd)
        → contents (chunk_of epd)
          ≡ (ultostr (length (contents epd)) ++ crlf)
            ++ (contents epd ++ take (end_length epd) (crlf ++ last_chunk))
    chunk_of-contents epd h =
        ap contents
          (network_add_chunk_metas-wrap_chunk ep_d_buf_size ultostr http_ver epd h.filling is_11)
        ∙ wrap_chunk-contents ep_d_buf_size ultostr epd h.filling
        ∙ ap
            (λ n.
              (ultostr n ++ crlf) ++ (contents epd ++ take (end_length epd) (crlf ++ last_chunk)))
            h.counted

    part-Chunked :
        (p : Epd) (wire rest : Bytes)
        → IsPart p
        → Chunked ultostr wire rest
        → Chunked ultostr (contents (chunk_of p) ++ wire) (contents p ++ rest)
    part-Chunked p wire rest (h, sended) c =
        let two : take (end_length p) (crlf ++ last_chunk) ≡ crlf = rw sended refl in
        let e =
          ap (λ t. t ++ wire)
            (chunk_of-contents p h
              ∙ ap (λ t. (ultostr (length (contents p)) ++ crlf) ++ (contents p ++ t)) two)
          ∙ regroup (ultostr (length (contents p))) crlf (contents p) crlf wire in
        subst (λ t. Chunked ultostr t (contents p ++ rest)) (sym e)
          (chunk (contents p) wire rest h.is_some c)

    module _ (zero_text : ultostr 0 ≡ b'0' ∷ []) where
      end-Chunked : Chunked ultostr last_chunk []
      end-Chunked = subst (λ t. Chunked ultostr (t ++ (crlf ++ crlf)) []) zero_text ended

      emptied-contents :
          (p : Epd) → IsEmptied p → p.header_sended ≡ 2 → contents (chunk_of p) ≡ last_chunk
      unfolding network_add_chunk_metas
      emptied-contents p e sended =
          rw (is_11, network_add_chunk_metas, e.no_first, sended, e.no_second) refl

      last-Chunked :
          (p : Epd)
          → HasBody p ⊎ IsEmptied p
          → p.header_sended ≡ 2
          → Chunked ultostr (contents (chunk_of p)) (contents p)
      last-Chunked p (inl h) sended =
          let all : take (end_length p) (crlf ++ last_chunk) ≡ crlf ++ last_chunk =
            rw sended refl in
          let size = ultostr (length (contents p)) in
          let e =
            chunk_of-contents p h
            ∙ ap (λ t. (size ++ crlf) ++ (contents p ++ t)) all
            ∙ append_assoc size crlf (contents p ++ (crlf ++ last_chunk)) in
          subst (λ t. Chunked ultostr t (contents p)) (sym e)
            (subst (λ t. Chunked ultostr (size ++ (crlf ++ (contents p ++ (crlf ++ last_chunk)))) t)
              (append-nil (contents p)) (chunk (contents p) last_chunk [] h.is_some end-Chunked))
      last-Chunked p (inr e) sended =
          let none_left : contents p ≡ [] = rw (e.count_is, e.no_first) refl in
          subst (λ t. Chunked ultostr t (contents p)) (sym (emptied-contents p e sended))
            (subst (λ t. Chunked ultostr last_chunk t) (sym none_left) end-Chunked)

      -- Flushes and the end of a response to an HTTP/1.1 client, where each flush has a body and the
      -- end has one or follows a flush: what the buffers hold, one after another, is the chunked
      -- coding of the bodies, if `_ultostr` writes 0 as one digit.
      pub network_add_chunk_metas-Chunked :
          (parts : List Epd) (last : Epd)
          → All IsPart parts
          → IsLast last
          → Chunked ultostr
              (stream (network_add_chunk_metas ep_d_buf_size ultostr http_ver) parts
                ++ contents (network_add_chunk_metas ep_d_buf_size ultostr http_ver last))
              (stream unchanged parts ++ contents last)
      network_add_chunk_metas-Chunked [] last h (l, sended) = last-Chunked last l sended
      network_add_chunk_metas-Chunked (p ∷ ps) last (hp, h) l =
          let wire = stream chunk_of ps ++ contents (chunk_of last) in
          let rest = stream unchanged ps ++ contents last in
          subst (λ t. Chunked ultostr t ((contents p ++ stream unchanged ps) ++ contents last))
            (sym (
              append_assoc (contents (chunk_of p)) (stream chunk_of ps) (contents (chunk_of last))))
            (subst (λ t. Chunked ultostr (contents (chunk_of p) ++ wire) t)
              (sym (append_assoc (contents p) (stream unchanged ps) (contents last)))
              (part-Chunked p wire rest hp (network_add_chunk_metas-Chunked ps last h l)))
