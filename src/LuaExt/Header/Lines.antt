-- ===== src/LuaExt/Header/Lines.antt =====
-- The head of a response after a Lua program has set headers.
use alilua.Prelude.{
  ℕ, ◌+◌, ◌<◌, ◌≤◌, ◌≡◌, ◌≢◌, refl, ap, ◌∙◌, Bool, true, false, not, Option, none, some, inl, inr,
  List, [], ◌∷◌, ◌++◌, Bytes, length, All, arith, if_ind, length-append, ◌==◌, if◌then◌else◌, ◌||◌,
  Bool-cases,
}
use alilua.Prelude.Int.{ℤ, pos}
use alilua.CString.Laws.{Without, cut_all}
use alilua.Network.Epd.{Epd}
use alilua.Network.Build.{Site}
use alilua.Network.Header.{is_status, crlf}
use alilua.Network.Header.Lines.{
  Response, render, add, ended, ended-append, NoLf, network_send_header-render,
}
use alilua.LuaExt.Header.{
  many, taken, refused, reply_of_ret, is_content_length, send_one, send_many, send_arg, set_head,
  lua_header,
}

or_true : (b : Bool) → (b || true) ≡ true
or_true true = refl
or_true false = refl

or_false : (b : Bool) → (b || false) ≡ b
or_false true = refl
or_false false = refl

reply_of_kept :
    (b : Bool) → reply_of_ret (if b then pos 1 else pos 0) ≡ (if b then taken else refused)
unfolding reply_of_ret
reply_of_kept true = refl
reply_of_kept false = refl

-- A response whose head can be written and read again.
pub record IsHead (r : Response) : Type 0 where
  pub begins : is_status r.status ≡ true
  pub one_line : All NoLf r.status

-- A header is one line that is not empty and has no byte 0.
abbrev pub IsHeader : Option Bytes → Type 0
IsHeader none = Unit
IsHeader (some header) = All NoLf header × Without 0 header × (0 < length header)

-- The room that headers take.
abbrev pub room_of : List (Option Bytes) → ℕ
room_of [] = 0
room_of (none ∷ rest) = room_of rest
room_of (some header ∷ rest) = length header + 2 + room_of rest

length-render-add :
    (r : Response) (header : Bytes)
    → length (render (add r header)) ≤ length (render r) + (length header + 2)
length-render-add r header =
    if_ind (λ (x : Response). length (render x) ≤ length (render r) + (length header + 2))
      (is_status header)
      (λ _. omega (
        arith,
        length-append {0} header (crlf ++ ended r.headers),
        length-append {0} r.status (crlf ++ ended r.headers),
      ))
      (λ _. omega (
        arith,
        length-append {0} r.status (crlf ++ ended (r.headers ++ header ∷ [])),
        length-append {0} r.status (crlf ++ ended r.headers),
        ap length (ended-append r.headers header),
        length-append {0} (ended r.headers) (header ++ crlf),
        length-append {0} header crlf,
      ))

add-IsHead : (r : Response) (header : Bytes) → All NoLf header → IsHead r → IsHead (add r header)
add-IsHead r header h s =
    if_ind IsHead (is_status header) (λ e. record { begins = e; one_line = h })
      (λ _. record { begins = s.begins; one_line = s.one_line })

module _ (site : Site) (malloc : Bool) (differs : Bytes → Bool) (stale : Bytes) (timeout : ℕ) where
  abbrev left_out : Bytes → Bool
  left_out = is_content_length site malloc differs stale timeout

  -- The response with a header more, unless it is a length.
  abbrev pub keep_one : Response → Bytes → Response
  keep_one r header = if left_out header then r else add r header

  abbrev pub add_kept : Response → List (Option Bytes) → Response
  add_kept r [] = r
  add_kept r (none ∷ rest) = add_kept r rest
  add_kept r (some header ∷ rest) = add_kept (keep_one r header) rest

  -- Whether one of the headers is kept, or one was before.
  abbrev pub any_kept : Bool → List (Option Bytes) → Bool
  any_kept kept [] = kept
  any_kept kept (none ∷ rest) = any_kept kept rest
  any_kept kept (some header ∷ rest) = any_kept (kept || not (left_out header)) rest

  -- What the calls of `network_send_header` so far have left.
  abbrev Sets : Response → Bool → Option Bytes × ℤ → Type 0
  Sets r kept s = (s.0 ≡ some (render r)) × (s.1 ≡ (if kept then pos 1 else pos 0))

  send_one-Sets :
      (r : Response) (header : Bytes) (kept : Bool) (s : Option Bytes × ℤ)
      → IsHead r
      → All NoLf header × Without 0 header × (0 < length header)
      → timeout ≢ 1
      → length (render r) + (length header + 2) + 200 ≤ site.ep_d_buf_size
      → Sets r kept s
      → Sets
          (keep_one r header)
          (kept || not (left_out header))
          (send_one site malloc differs stale timeout s header)
  unfolding send_one
  send_one-Sets r header kept (buf, ret) hr (one_line, no_nul, some_header) t room (held, code) =
      elim (Bool-cases (left_out header)) [
        | inl e ↦ rw (e, send_one, or_false kept) (held, code)
        | inr e ↦
            let sent =
              network_send_header-render site.ep_d_buf_size malloc differs stale timeout r header
                hr.begins hr.one_line one_line t some_header (omega (arith, room)) in
            rw
              (
                e,
                send_one,
                held,
                ap (λ (c : Bytes × Option Bytes). c.0) (cut_all 0 header no_nul),
                sent,
                or_true kept,
              )
              (refl, refl)
      ]

  keep_one-IsHead :
      (r : Response) (header : Bytes) → All NoLf header → IsHead r → IsHead (keep_one r header)
  keep_one-IsHead r header h s =
      if_ind IsHead (left_out header) (λ _. s) (λ _. add-IsHead r header h s)

  length-render-keep_one :
      (r : Response) (header : Bytes)
      → length (render (keep_one r header)) ≤ length (render r) + (length header + 2)
  length-render-keep_one r header =
      if_ind (λ (x : Response). length (render x) ≤ length (render r) + (length header + 2))
        (left_out header) (λ _. omega arith) (λ _. length-render-add r header)

  send_many-Sets :
      (headers : List (Option Bytes)) (r : Response) (kept : Bool) (s : Option Bytes × ℤ)
      → IsHead r
      → All IsHeader headers
      → timeout ≢ 1
      → length (render r) + room_of headers + 200 ≤ site.ep_d_buf_size
      → Sets r kept s
      → Sets
          (add_kept r headers)
          (any_kept kept headers)
          (send_many site malloc differs stale timeout s headers)
  unfolding send_many
  send_many-Sets [] r kept s hr hs t room h = h
  send_many-Sets (none ∷ rest) r kept s hr (_, hs) t room h =
      send_many-Sets rest r kept s hr hs t room h
  send_many-Sets (some header ∷ rest) r kept s hr (hh, hs) t room h =
      send_many-Sets rest (keep_one r header) (kept || not (left_out header))
        (send_one site malloc differs stale timeout s header) (keep_one-IsHead r header hh.0 hr) hs
        t (omega (arith, room, length-render-keep_one r header))
        (send_one-Sets r header kept s hr hh t (omega (arith, room)) h)

-- A Lua program sets headers by a table, while the head is a status line and other headers and was not
-- sent, each header is one line that is not empty and has no byte 0, the request has not timed out, and there is room
-- for all of them: the head is then the one before with each of these headers in its order, a status
-- line in the place of the one before it and any other header at the end, but without those that
-- begin with the name of the length; and the reply is true if one of them is kept, and nil otherwise.
pub lua_header-render :
    (site : Site) (malloc : Bool) (differs : Bytes → Bool) (stale : Bytes) (epd : Epd)
    (r : Response) (headers : List (Option Bytes))
    → epd.header_sended ≡ 0
    → epd.process_timeout ≢ 1
    → epd.iov 0 ≡ some (render r)
    → IsHead r
    → All IsHeader headers
    → length (render r) + room_of headers + 200 ≤ site.ep_d_buf_size
    → ((lua_header site malloc differs stale epd (many headers)).0
        ≡ set_head epd
            (some (render (add_kept site malloc differs stale epd.process_timeout r headers))))
      × ((lua_header site malloc differs stale epd (many headers)).1 ≡ (
          if any_kept site malloc differs stale epd.process_timeout false headers
          then taken
          else refused))
unfolding lua_header send_arg reply_of_ret
lua_header-render site malloc differs stale epd r headers sent t held hr hs room =
    let s = send_many site malloc differs stale epd.process_timeout (epd.iov 0, pos 0) headers in
    let (buf, code) =
      send_many-Sets site malloc differs stale epd.process_timeout headers r false
        (epd.iov 0, pos 0) hr hs t room (held, refl) in
    let not_yet : not (epd.header_sended == 0) ≡ false = rw sent refl in
    rw not_yet (
      ap (set_head epd) buf,
      ap reply_of_ret code
          ∙ reply_of_kept (any_kept site malloc differs stale epd.process_timeout false headers),
    )
