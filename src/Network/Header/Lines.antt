-- ===== src/Network/Header/Lines.antt =====
-- The head of a response is a status line and the other headers in order.
use alilua.Prelude.{
  ℕ, zero, suc, ◌+◌, ◌<◌, ◌≤◌, ◌≡◌, ◌≢◌, refl, sym, ap, ◌∙◌, Bool, true, false, none, some, List,
  [], ◌∷◌, ◌++◌, Bytes, get_or, length, ltb, ◌==◌, ◌&&◌, ◌||◌, if◌then◌else◌, All, append_assoc,
  arith, Bool-cases, inl, inr, codes, ◌⊎◌,
}
use alilua.Prelude.Int.{pos}
use alilua.Network.Header.{
  is_status, after_line, last_byte, crlf, default_status, append_header, put_header,
  network_send_header,
}

-- A status line and the headers behind it.
pub record Response : Type 0 where
  pub status : Bytes
  pub headers : List Bytes

abbrev pub ended : List Bytes → Bytes
ended [] = []
ended (h ∷ hs) = h ++ (crlf ++ ended hs)

abbrev pub render : Response → Bytes
render r = r.status ++ (crlf ++ ended r.headers)

-- A status line replaces the one that is there, and any other header comes last.
abbrev pub add : Response → Bytes → Response
add r header =
    if is_status header
    then record r { status = header }
    else record r { headers = r.headers ++ header ∷ [] }

abbrev pub NoLf : ℕ → Type 0
NoLf c = c ≢ b'\n'

after_line-line :
    (line rest : Bytes) → All NoLf line → after_line (line ++ (crlf ++ rest)) ≡ some rest
unfolding after_line
after_line-line [] rest h = refl
after_line-line (c ∷ cs) rest (hc, h) =
    let other : (c == b'\n') ≡ false = ground arith in rw other (after_line-line cs rest h)

last_byte-NoLf : (line : Bytes) → All NoLf line → (last_byte line == b'\n') ≡ false
unfolding last_byte
last_byte-NoLf [] h = refl
last_byte-NoLf (c ∷ []) (hc, h) = ground arith
last_byte-NoLf (c ∷ d ∷ ds) (hc, h) = last_byte-NoLf (d ∷ ds) h

get_or-append : (xs ys : Bytes) (i : ℕ) → get_or xs i 0 ≢ 0 → get_or (xs ++ ys) i 0 ≡ get_or xs i 0
get_or-append [] ys i h = absurd (h refl)
get_or-append (x ∷ xs) ys zero h = refl
get_or-append (x ∷ xs) ys (suc i) h = get_or-append xs ys i h

is_status-append : (line rest : Bytes) → is_status line ≡ true → is_status (line ++ rest) ≡ true
unfolding is_status
is_status-append line rest h =
    let first : get_or line 0 0 ≡ b'H' = ground arith in
    let fifth : get_or line 4 0 ≡ b'/' = ground arith in
    rw (get_or-append line rest 0 (ground arith), get_or-append line rest 4 (ground arith)) h

pub ended-append : (hs : List Bytes) (h : Bytes) → ended (hs ++ h ∷ []) ≡ ended hs ++ (h ++ crlf)
ended-append [] h = refl
ended-append (g ∷ gs) h =
    ap (λ t. g ++ (crlf ++ t)) (ended-append gs h)
    ∙ sym (append_assoc g (crlf ++ ended gs) (h ++ crlf))

put_header-render :
    (stale : Bytes) (r : Response) (header : Bytes)
    → is_status r.status ≡ true
    → All NoLf r.status
    → All NoLf header
    → put_header stale (render r) header ≡ render (add r header)
unfolding put_header append_header
put_header-render stale r header hs hl hh = elim (Bool-cases (is_status header)) [
  | inl e ↦
      rw
        (
          e,
          is_status-append r.status (crlf ++ ended r.headers) hs,
          after_line-line r.status (ended r.headers) hl,
        )
        refl
  | inr e ↦
      rw (e, last_byte-NoLf header hh)
        (append_assoc r.status (crlf ++ ended r.headers) (header ++ crlf)
          ∙ ap (λ t. r.status ++ (crlf ++ t)) (sym (ended-append r.headers header)))
]

-- While the head of a response is a status line and other headers, each ended by a line end, a
-- further header without a newline that there is room for is taken: a status line replaces the one
-- that is there, and any other header comes last.
pub network_send_header-render :
    (size : ℕ) (malloc : Bool) (differs : Bytes → Bool) (stale : Bytes) (timeout : ℕ) (r : Response)
    (header : Bytes)
    → is_status r.status ≡ true
    → All NoLf r.status
    → All NoLf header
    → timeout ≢ 1
    → 0 < length header
    → length (render r) + length header + 200 ≤ size
    → network_send_header size malloc differs stale timeout (some (render r)) header
      ≡ (some (render (add r header)), pos 1)
unfolding network_send_header
network_send_header-render size malloc differs stale timeout r header hs hl hh ht hp room =
    let no_timeout : (timeout == 1) ≡ false = ground arith in
    let some_header : ltb (length header) 1 ≡ false = ground arith in
    let fits : ltb size (length (render r) + length header + 200) ≡ false = ground arith in
    rw (no_timeout, some_header, fits, put_header-render stale r header hs hl hh) refl

-- The response that a first header begins.
abbrev pub first_response : Bool → Bytes → Response
first_response differs header =
    if is_status header
    then record { status = header; headers = [] }
    else if (get_or header 0 0 == b'L' || get_or header 0 0 == b'l') && differs
    then record { status = codes "HTTP/1.1 302 Moved"; headers = header ∷ [] }
    else record { status = codes "HTTP/1.1 200 OK"; headers = header ∷ [] }

no_status : is_status [] ≡ false
unfolding is_status
no_status = refl

default_status-is_status :
    (b : Bool) (header : Bytes) → is_status header ≡ true → default_status b header ≡ []
unfolding default_status is_status
default_status-is_status b header e =
    let first : (get_or header 0 0 == b'H') ≡ true = ground arith in rw first refl

default_status_other :
    (b : Bool) (header : Bytes)
    → get_or header 0 0 ≢ b'H'
    → get_or header 4 0 ≢ b'/'
    → default_status b header ≡ (
        if (get_or header 0 0 == b'L' || get_or header 0 0 == b'l') && b
        then codes "HTTP/1.1 302 Moved" ++ crlf
        else codes "HTTP/1.1 200 OK" ++ crlf)
unfolding default_status
default_status_other b header h k =
    let first : (get_or header 0 0 == b'H') ≡ false = ground arith in
    let fifth : (get_or header 4 0 == b'/') ≡ false = ground arith in rw (first, fifth) refl

default_render :
    (b : Bool) (header : Bytes)
    → (if b then codes "HTTP/1.1 302 Moved" ++ crlf else codes "HTTP/1.1 200 OK" ++ crlf)
        ++ (header ++ crlf)
      ≡ render (
          if b
          then record { status = codes "HTTP/1.1 302 Moved"; headers = header ∷ [] }
          else record { status = codes "HTTP/1.1 200 OK"; headers = header ∷ [] })
default_render true header = refl
default_render false header = refl

other_status : (header : Bytes) → get_or header 0 0 ≢ b'H' → is_status header ≡ false
unfolding is_status
other_status header h = ground arith

-- A first header without a newline, with room for it and memory: if it is a status line it begins
-- the response, and if it has neither `H` first nor `/` as its fifth byte it comes behind a status
-- line of 200, or of 302 if it begins with `L` and `stricmp` tells it from `Location:`.
pub network_send_header-first :
    (size : ℕ) (differs : Bytes → Bool) (stale : Bytes) (timeout : ℕ) (header : Bytes)
    → (is_status header ≡ true) ⊎ ((get_or header 0 0 ≢ b'H') × (get_or header 4 0 ≢ b'/'))
    → All NoLf header
    → timeout ≢ 1
    → 0 < length header
    → length header + 200 ≤ size
    → network_send_header size true differs stale timeout none header
      ≡ (some (render (first_response (differs header) header)), pos 1)
unfolding network_send_header put_header append_header
network_send_header-first size differs stale timeout header (inl e) hh ht hp room =
    let no_timeout : (timeout == 1) ≡ false = ground arith in
    let some_header : ltb (length header) 1 ≡ false = ground arith in
    let fits : ltb size (0 + length header + 200) ≡ false = ground arith in
    rw
      (
        no_timeout,
        some_header,
        fits,
        e,
        default_status-is_status (differs header) header e,
        no_status,
        last_byte-NoLf header hh,
      )
      refl
network_send_header-first size differs stale timeout header (inr (h, k)) hh ht hp room =
    let no_timeout : (timeout == 1) ≡ false = ground arith in
    let some_header : ltb (length header) 1 ≡ false = ground arith in
    let fits : ltb size (0 + length header + 200) ≡ false = ground arith in
    rw
      (
        no_timeout,
        some_header,
        fits,
        other_status header h,
        last_byte-NoLf header hh,
        default_status_other (differs header) header h k,
      )
      (ap (λ b. (some b, pos 1))
        (default_render ((get_or header 0 0 == b'L' || get_or header 0 0 == b'l') && differs header)
          header))
