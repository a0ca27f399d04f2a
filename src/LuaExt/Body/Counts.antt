-- ===== src/LuaExt/Body/Counts.antt =====
-- The counters of a worker while a Lua program reads the body of a request.
use alilua.Prelude.{
  ℕ, ◌+◌, ◌<◌, ◌≡◌, refl, ap, sym, ◌∙◌, Bool, true, false, not, inl, inr, ◌⊎◌, List, [], ◌∷◌, ◌++◌,
  Bytes, length, leb, ltb, if_ind, arith, length-append, if_true, if_false, if◌then◌else◌,
}
use mathlib.Core.Path.{subst}
use alilua.Prelude.Int.{pos, ◌-ℤ◌, int_laws}
use alilua.Client.{Client}
use alilua.Client.Counts.{IsCounted, active}
use alilua.Network.Epd.{is_read, read, process}
use alilua.Network.Read.{Input, received, would_block, broken}
use alilua.Network.Read.Counts.{client_of, Counts, leave-Counts}
use alilua.LuaExt.Body.{
  BodyReply, text, Reading, stop_reading, close_reading, Stop, at_end, at_block, at_error,
  at_memory, next_size, read_parts, no_part, network_be_read_request_body,
}

-- The first answer of `recv` is that the client has closed its side.
abbrev pub starts_closed : List Input → Bool
starts_closed (received [] ∷ rest) = true
starts_closed _ = false

stop_reading-same : (s : Reading) → is_read s.epd.status ≡ false → stop_reading s ≡ s
unfolding stop_reading
stop_reading-same s h = if_false (is_read s.epd.status) _ h

closed-status :
    (s : Reading) → is_read s.epd.status ≡ true → is_read (close_reading s).epd.status ≡ false
unfolding close_reading stop_reading
closed-status s h =
    if_ind (λ (x : Reading). is_read x.epd.status ≡ false) (is_read s.epd.status) (λ _. refl)
      (λ e. absurd (cc))

module _ (thread : Bool) (cs : List Client) where
  abbrev CountsOf : Reading → Type 0
  CountsOf s = Counts thread s.is_open cs s.serv s.epd.status

  -- The connection reads and is open.
  record IsOpen (s : Reading) : Type 0 where
    reads : s.epd.status ≡ read
    open_fd : s.is_open ≡ true
    counts : CountsOf s

  open-Counts : (s : Reading) → IsOpen s → Counts thread true cs s.serv read
  open-Counts s o =
      subst (λ b. Counts thread b cs s.serv read) o.open_fd
        (subst (λ x. Counts thread s.is_open cs s.serv x) o.reads o.counts)

  close_reading-CountsOf : (s : Reading) → IsOpen s → CountsOf (close_reading s)
  unfolding close_reading stop_reading
  close_reading-CountsOf s o =
      let l = leave-Counts thread true cs s.serv (open-Counts s o) in
      subst CountsOf (sym (if_true (is_read s.epd.status) _ (ap is_read o.reads))) (record {
        reading_eq = l.reading_eq;
        sending_eq = l.sending_eq;
        active_eq = ap (λ n. n -ℤ pos 1) l.active_eq ∙ omega int_laws;
      })

  stop_reading-CountsOf : (s : Reading) → IsOpen s → CountsOf (stop_reading s)
  unfolding stop_reading
  stop_reading-CountsOf s o =
      let l = leave-Counts thread true cs s.serv (open-Counts s o) in
      subst CountsOf (sym (if_true (is_read s.epd.status) _ (ap is_read o.reads))) (
        subst
          (λ b.
            Counts thread b cs (record (s.serv) { reading_counts = s.serv.reading_counts -ℤ pos 1 })
              process)
          (sym o.open_fd) l)

  -- How the loop leaves the connection.
  abbrev Stopped : Reading × Bytes × Stop → Type 0
  Stopped (s, buf, at_end) = CountsOf s × (is_read s.epd.status ≡ false) × (0 < length buf)
  Stopped (s, buf, at_block) = IsOpen s
  Stopped (s, buf, at_error) = IsOpen s
  Stopped (s, buf, at_memory) = IsOpen s

  read_parts-Stopped :
      (realloc : ℕ → Bool) (s : Reading) (size : ℕ) (buf : Bytes) (inputs : List Input)
      → IsOpen s
      → (starts_closed inputs ≡ false) ⊎ (0 < length buf)
      → Stopped (read_parts realloc s size buf inputs)
  unfolding read_parts
  read_parts-Stopped realloc s size buf [] o h = o
  read_parts-Stopped realloc s size buf (would_block ∷ rest) o h = o
  read_parts-Stopped realloc s size buf (broken ∷ rest) o h = o
  read_parts-Stopped realloc s size buf (received [] ∷ rest) o (inl h) = absurd (cc)
  read_parts-Stopped realloc s size buf (received [] ∷ rest) o (inr h) =
      (close_reading-CountsOf s o, closed-status s (ap is_read o.reads), h)
  read_parts-Stopped realloc s size buf (received (b ∷ bs) ∷ rest) o h =
      let buf' = buf ++ b ∷ bs in
      let s' : Reading = record s {
        epd = record (s.epd) { data_len = s.epd.data_len + length (b ∷ bs) };
      } in
      let o' : IsOpen s' = record { reads = o.reads; open_fd = o.open_fd; counts = o.counts } in
      let some_bytes : 0 < length buf' = omega (arith, length-append {0} buf (b ∷ bs)) in
      if_ind Stopped (not (leb size (length buf')))
        (λ _. read_parts-Stopped realloc s' size buf' rest o' (inr some_bytes))
        (λ _.
          if_ind Stopped (realloc (next_size size))
            (λ _. read_parts-Stopped realloc s' (next_size size) buf' rest o' (inr some_bytes))
            (λ _. o'))

  -- What is done with the result of the loop.
  finish-CountsOf :
      (s : Reading) (buf : Bytes) (stop : Stop)
      → Stopped (s, buf, stop)
      → CountsOf (if ltb 0 (length buf) then (stop_reading s, text buf) else no_part s stop).0
  unfolding no_part
  finish-CountsOf s buf at_end (h, st, some_bytes) =
      if_ind (λ (r : Reading × BodyReply). CountsOf r.0) (ltb 0 (length buf))
        (λ _. subst CountsOf (sym (stop_reading-same s st)) h) (λ none_. absurd (ground arith))
  finish-CountsOf s buf at_block o =
      if_ind (λ (r : Reading × BodyReply). CountsOf r.0) (ltb 0 (length buf))
        (λ _. stop_reading-CountsOf s o) (λ _. o.counts)
  finish-CountsOf s buf at_error o =
      if_ind (λ (r : Reading × BodyReply). CountsOf r.0) (ltb 0 (length buf))
        (λ _. stop_reading-CountsOf s o) (λ _. close_reading-CountsOf s o)
  finish-CountsOf s buf at_memory o =
      if_ind (λ (r : Reading × BodyReply). CountsOf r.0) (ltb 0 (length buf))
        (λ _. stop_reading-CountsOf s o) (λ _. o.counts)

-- If the counters count the connections while this one reads a body, and the first answer of `recv` is
-- not that the client has closed its side, then they count them again with the state that
-- `network_be_read_request_body` leaves this one in, whatever memory there is and whatever `recv`
-- answers then.
pub network_be_read_request_body-IsCounted :
    (thread malloc : Bool) (cs : List Client) (realloc : ℕ → Bool) (s : Reading)
    (inputs : List Input)
    → s.epd.status ≡ read
    → s.is_open ≡ true
    → IsCounted s.serv (client_of thread s.is_open s.epd.status ∷ cs)
    → starts_closed inputs ≡ false
    → IsCounted (network_be_read_request_body malloc realloc s inputs).0.serv (
        client_of thread
          (network_be_read_request_body malloc realloc s inputs).0.is_open
          (network_be_read_request_body malloc realloc s inputs).0.epd.status
        ∷ cs)
unfolding network_be_read_request_body
network_be_read_request_body-IsCounted thread malloc cs realloc s inputs st op h first =
    let o : IsOpen thread cs s = record { reads = st; open_fd = op; counts = h } in
    let (s', buf, stop) = read_parts realloc s 8192 [] inputs in
    if_ind (λ (r : Reading × BodyReply). CountsOf thread cs r.0) (not malloc)
      (λ _. close_reading-CountsOf thread cs s o)
      (λ _.
        finish-CountsOf thread cs s' buf stop
          (read_parts-Stopped thread cs realloc s 8192 [] inputs o (inl first)))

close_reading-active_counts :
    (s : Reading) → (close_reading s).serv.active_counts ≡ s.serv.active_counts -ℤ pos 1
unfolding close_reading stop_reading
close_reading-active_counts s =
    if_ind (λ (x : Reading). x.serv.active_counts ≡ s.serv.active_counts -ℤ pos 1)
      (is_read s.epd.status) (λ _. refl) (λ _. refl)

-- But if that is the first answer, then `active_counts` is one less than the number of connections
-- that are open.
pub network_be_read_request_body-active_counts :
    (thread : Bool) (cs : List Client) (realloc : ℕ → Bool) (s : Reading) (rest : List Input)
    → s.epd.status ≡ read
    → s.is_open ≡ true
    → IsCounted s.serv (client_of thread s.is_open s.epd.status ∷ cs)
    → (network_be_read_request_body true realloc s (received [] ∷ rest)).0.serv.active_counts
      ≡ pos (active cs) -ℤ pos 1
unfolding network_be_read_request_body read_parts no_part close_reading stop_reading
network_be_read_request_body-active_counts thread cs realloc s rest st op h =
    let start : s.serv.active_counts ≡ pos (1 + active cs) =
      (subst (λ b. IsCounted s.serv (client_of thread b s.epd.status ∷ cs)) op h).active_eq in
    close_reading-active_counts (close_reading s)
    ∙ ap (λ n. n -ℤ pos 1)
        (close_reading-active_counts s ∙ ap (λ n. n -ℤ pos 1) start ∙ omega int_laws)
