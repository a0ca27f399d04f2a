-- ===== src/LuaExt/Body/Whole.antt =====
-- A Lua program that reads until the end gets the whole body, in whatever parts it comes.
use alilua.Prelude.{
  ℕ, ◌+◌, ◌<◌, ◌≤◌, ◌≡◌, refl, ap, sym, ◌∙◌, true, false, List, [], ◌∷◌, ◌++◌, Bytes, codes, length,
  take, drop, All, arith, append-nil, length-append, if_true,
}
use mathlib.Core.Path.{subst}
use alilua.Prelude.Int.{pos}
use alilua.Network.Write.{concat}
use alilua.Network.Read.{Input}
use alilua.Network.Read.Pieces.{deliveries, IsPiece}
use alilua.LuaExt.Body.{
  BodyReply, text, error, suspended, Reading, lua_read_request_body, stop_reading,
  network_be_read_request_body,
}
use alilua.LuaExt.Body.Parts.{
  more, awaiting, IsReading, callback-text, stop_reading-IsReading, more-IsReading,
  awaiting-IsReading, next_call-suspended, next_call-eof,
}

-- A program that calls `lua_read_request_body` again after each part: what it has read, and its last
-- reply. `later` is what follows a wait.
again : (Reading → Bytes × BodyReply) → Bytes → Reading × BodyReply → Bytes × BodyReply
again later t (s, suspended) = let (u, last) = later s in (t ++ u, last)
again later t (s, error m) = (t, error m)
again later t (s, text u) = (t ++ u, suspended)

go_on : Bytes → (Reading → Bytes × BodyReply) → Reading × BodyReply → Bytes × BodyReply
go_on headers later (s, suspended) = later s
go_on headers later (s, error m) = ([], error m)
go_on headers later (s, text t) = again later t (lua_read_request_body headers s)

-- The program waits; `events` holds what `recv` answers each time that the event loop wakes the
-- connection.
read_on : Bytes → Reading → List (List Input) → Bytes × BodyReply
read_on headers s [] = ([], suspended)
read_on headers s (inputs ∷ rest) =
    go_on headers (λ s'. read_on headers s' rest)
      (network_be_read_request_body true (λ n. true) s inputs)

-- From the first call on.
pub read_all : Bytes → Reading → List (List Input) → Bytes × BodyReply
read_all headers s events =
    go_on headers (λ s'. read_on headers s' events) (lua_read_request_body headers s)

abbrev pub arrivals : List (List Bytes) → List (List Input)
arrivals [] = []
arrivals (ps ∷ rest) = deliveries ps ∷ arrivals rest

abbrev pub all_bytes : List (List Bytes) → Bytes
all_bytes [] = []
all_bytes (ps ∷ rest) = concat ps ++ all_bytes rest

-- Each arrival has bytes.
abbrev pub IsArrival : List Bytes → Type 0
IsArrival ps = All IsPiece ps × (0 < length (concat ps))

length-all_bytes :
    (ps : List Bytes) (rest : List (List Bytes)) → IsArrival ps → 0 < length (all_bytes (ps ∷ rest))
length-all_bytes ps rest a = omega (arith, length-append {0} (concat ps) (all_bytes rest), a.1)

read_on-all_bytes :
    (headers : Bytes) (s : Reading) (ps : List Bytes) (rest : List (List Bytes))
    → IsReading s (length (all_bytes (ps ∷ rest)))
    → IsArrival ps
    → All IsArrival rest
    → read_on headers s (arrivals (ps ∷ rest)) ≡ (all_bytes (ps ∷ rest), error (codes "eof"))
unfolding read_on go_on again
read_on-all_bytes headers s ps [] r (h, p) hs =
    let later = λ (x : Reading). read_on headers x [] in
    let s' = stop_reading (more s (length (concat ps))) in
    let r' : IsReading s' 0 = stop_reading-IsReading _ 0 (
      more-IsReading s (length (concat ps)) 0
        (subst (IsReading s) (length-append (concat ps) []) r)) in
    ap (go_on headers later) (callback-text s ps h p)
    ∙ ap (again later (concat ps)) (next_call-eof headers s' r')
    ∙ ap (λ t. (t, error (codes "eof"))) (sym (append-nil (concat ps)))
read_on-all_bytes headers s ps (qs ∷ rest) r (h, p) (k, ks) =
    let later = λ (x : Reading). read_on headers x (arrivals (qs ∷ rest)) in
    let s' = stop_reading (more s (length (concat ps))) in
    let left = length (all_bytes (qs ∷ rest)) in
    let r' : IsReading s' left = stop_reading-IsReading _ left (
      more-IsReading s (length (concat ps)) left
        (subst (IsReading s) (length-append (concat ps) (all_bytes (qs ∷ rest))) r)) in
    ap (go_on headers later) (callback-text s ps h p)
    ∙ ap (again later (concat ps))
        (next_call-suspended headers s' left r' (length-all_bytes qs rest k))
    ∙ ap (λ (o : Bytes × BodyReply). (concat ps ++ o.0, o.1))
        (read_on-all_bytes headers (awaiting s') qs rest (awaiting-IsReading s' left r') k ks)

-- The first call hands on what came with the head.
first_call :
    (headers : Bytes) (s : Reading)
    → s.has_contents ≡ true
    → lua_read_request_body headers s ≡ (
      record s { has_contents = false },
      text (drop s.epd.header_length (take s.epd.data_len headers)),
    )
unfolding lua_read_request_body
first_call headers s h = if_true s.has_contents _ h

read_rest :
    (headers : Bytes) (s : Reading) (first : Bytes) (arrived : List (List Bytes))
    → IsReading s (length (all_bytes arrived))
    → All IsArrival arrived
    → again (λ x. read_on headers x (arrivals arrived)) first (lua_read_request_body headers s)
      ≡ (first ++ all_bytes arrived, error (codes "eof"))
unfolding again
read_rest headers s first [] r h =
    ap (again (λ x. read_on headers x []) first) (next_call-eof headers s r)
    ∙ ap (λ t. (t, error (codes "eof"))) (sym (append-nil first))
read_rest headers s first (ps ∷ rest) r (h, hs) =
    let left = length (all_bytes (ps ∷ rest)) in
    let later = λ (x : Reading). read_on headers x (arrivals (ps ∷ rest)) in
    ap (again later first) (next_call-suspended headers s left r (length-all_bytes ps rest h))
    ∙ ap (λ (o : Bytes × BodyReply). (first ++ o.0, o.1))
        (read_on-all_bytes headers (awaiting s) ps rest (awaiting-IsReading s left r) h hs)

-- A Lua program on an open connection reads the body until it gets an error, and calls again after
-- each part. The head came with a first part of the body, and the rest comes in any number of
-- arrivals, each of any pieces, while there is memory: the program reads the first part, then the
-- rest in order, and then is told that the body has ended.
pub read_all-body :
    (headers : Bytes) (s : Reading) (body : ℕ) (arrived : List (List Bytes))
    → s.has_contents ≡ true
    → s.is_open ≡ true
    → s.epd.content_length ≡ pos body
    → s.epd.header_length ≤ s.epd.data_len
    → body + s.epd.header_length ≡ s.epd.data_len + length (all_bytes arrived)
    → All IsArrival arrived
    → read_all headers s (arrivals arrived) ≡ (
      drop s.epd.header_length (take s.epd.data_len headers) ++ all_bytes arrived,
      error (codes "eof"),
    )
unfolding read_all go_on again
read_all-body headers s body arrived contents open_fd len head_in missing h =
    let s' : Reading = record s { has_contents = false } in
    let first = drop s.epd.header_length (take s.epd.data_len headers) in
    let r : IsReading s' (length (all_bytes arrived)) = record {
      no_contents = refl;
      open_fd = open_fd;
      body = body;
      content_length = len;
      missing = missing;
      head_in = head_in;
    } in
    let later = λ (x : Reading). read_on headers x (arrivals arrived) in
    ap (go_on headers later) (first_call headers s contents)
    ∙ read_rest headers s' first arrived r h
