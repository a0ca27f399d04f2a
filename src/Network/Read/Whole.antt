-- ===== src/Network/Read/Whole.antt =====
-- A request is received in whatever pieces it comes, and what it asks for is read from it.
use alilua.Prelude.{
  ℕ, zero, suc, ◌+◌, ◌-◌, ◌<◌, ◌≤◌, ◌≡◌, ◌≢◌, refl, ap, sym, ◌∙◌, true, false, List, [], ◌∷◌, ◌++◌,
  Bytes, length, get_or, take, ◌==◌, All, arith, append_assoc, append-nil, length-append, none,
  some, codes, ap₂, not, drop, if_false, length-take-le, Option-cases, Bool-cases, inl, inr,
}
use mathlib.Core.Path.{subst}
use alilua.Prelude.Int.{pos, leb_ℤ}
use alilua.ServStatus.{ServStatus}
use alilua.Network.Epd.{Epd, bytes_of}
use alilua.Network.Write.{concat}
use alilua.Network.Reader.{Reader, Config, enlarge, open_buffer, count_reading, ends_blank}
use alilua.Network.Reader.Blank.{Finds, has_end, has_end-take}
use alilua.Network.Read.{
  processes, ReadOutcome, is_none, count_job, asks_status, expects_continue, launch, put_nuls,
  begin_job, network_be_read, start_job, read_loop,
}
use alilua.Network.Read.Pieces.{
  deliveries, IsPiece, Allows, collecting, complete, Holds, collecting-Holds, read_round-open,
  read_round-complete,
}
use alilua.Network.Read.Lines.{IsLine, join, has_end-join, ends_blank-join}

-- A job is started on the text of a head, which two zeros end, without a body.
pub record Started (text : Bytes) (o : ReadOutcome) : Type 0 where
  pub started : o.next ≡ processes
  pub headers : o.reader.headers ≡ some (text ++ 0 ∷ 0 ∷ [])
  pub header_len : o.reader.header_len ≡ length text
  pub content_length : o.reader.epd.content_length ≡ pos 0

-- A first part of a text that leaves something out.
prefix-take : (a b t : Bytes) (x : ℕ) → 0 < length b → a ++ b ≡ t ++ x ∷ [] → a ≡ take (length a) t
prefix-take [] b t x h e = refl
prefix-take (y ∷ ys) b [] x h e = absurd (omega (arith, ap length e, length-append {0} ys b))
prefix-take (y ∷ ys) b (z ∷ zs) x h e =
    let first : y ≡ z = cc in
    let rest : ys ++ b ≡ zs ++ x ∷ [] = cc in λ i. first i ∷ prefix-take ys b zs x h rest i

Allows-le : (c : Config) (m n : ℕ) → m ≤ n → Allows c n → Allows c m
Allows-le c m n h a = let w = a.within in record { memory = a.memory; within = ground arith }

length-concat : (p : Bytes) (ps : List Bytes) → IsPiece p → 0 < length (concat (p ∷ ps))
length-concat p ps h = omega (arith, length-append {0} p (concat ps))

-- A head with its last newline: no blank line before that, and no method of a request with a body.
record IsHead (head text : Bytes) : Type 0 where
  split : head ≡ text ++ b'\n' ∷ []
  open_before : has_end text ≡ false
  blank : ends_blank head ≡ true
  long : 4 ≤ length head
  not_P : get_or head 0 0 ≢ b'P'
  not_p : get_or head 0 0 ≢ b'p'

module _ (c : Config) (finds : Finds c.stristr) (now : ℕ) (head text : Bytes)
    (is_head : IsHead head text) (allows : Allows c (length head)) where
  read_loop-pieces :
      (serv : ServStatus) (r : Reader) (seen p : Bytes) (ps : List Bytes)
      → Holds r seen
      → leb_ℤ (pos 0) r.epd.content_length ≡ false
      → IsPiece p
      → All IsPiece ps
      → seen ++ (p ++ concat ps) ≡ head
      → (size : ℕ) × (read_loop c now serv r (deliveries (p ∷ ps))
          ≡ start_job c now (count_reading serv r) (complete r size head))
  unfolding read_loop count_reading
  read_loop-pieces serv r seen [] ps h u k ks e = absurd (omega arith)
  read_loop-pieces serv r seen (x ∷ xs) [] h u k ks e =
      let all : seen ++ x ∷ xs ≡ head = ap (λ t. seen ++ t) (sym (append-nil (x ∷ xs))) ∙ e in
      let (size, d) =
        read_round-complete c finds now serv r seen (x ∷ xs) h
          (subst (λ t. Allows c (length t)) (sym all) allows)
          (subst (λ t. 4 ≤ length t) (sym all) is_head.long)
          (subst (λ t. ends_blank t ≡ true) (sym all) is_head.blank)
          (subst (λ t. get_or t 0 0 ≢ b'P') (sym all) is_head.not_P)
          (subst (λ t. get_or t 0 0 ≢ b'p') (sym all) is_head.not_p) u in
      (
        size,
        rw (d, read_loop)
            (ap (λ t. start_job c now (count_reading serv r) (complete r size t)) all),
      )
  read_loop-pieces serv r seen (x ∷ xs) (q ∷ qs) h u k (kq, ks) e =
      let more = concat (q ∷ qs) in
      let parts : (seen ++ x ∷ xs) ++ more ≡ head = append_assoc seen (x ∷ xs) more ∙ e in
      let short : length (seen ++ x ∷ xs) ≤ length head =
        omega (arith, ap length parts, length-append {0} (seen ++ x ∷ xs) more) in
      let part =
        prefix-take (seen ++ x ∷ xs) more text b'\n' (length-concat q qs kq)
          (parts ∙ is_head.split) in
      let is_open : has_end (seen ++ x ∷ xs) ≡ false =
        ap has_end part ∙ has_end-take (length (seen ++ x ∷ xs)) text is_head.open_before in
      let (size, d) =
        read_round-open c finds now serv r seen (x ∷ xs) h (Allows-le c _ _ short allows) is_open in
      let (size', d') =
        read_loop-pieces (count_reading serv r) (collecting r size (seen ++ x ∷ xs))
          (seen ++ x ∷ xs) q qs (collecting-Holds r size (seen ++ x ∷ xs)) u kq ks parts in
      (size', rw (d, read_loop) d')

-- A connection that waits for a request.
pub record IsFresh (r : Reader) : Type 0 where
  pub no_data : r.epd.data_len ≡ 0
  pub no_head : r.epd.header_length ≡ 0
  pub unknown : leb_ℤ (pos 0) r.epd.content_length ≡ false

take-zero : (n : ℕ) (t : Bytes) → n ≡ 0 → take n t ≡ []
take-zero n t e = rw e refl

IsFresh-Holds : (r : Reader) → IsFresh r → Holds r []
IsFresh-Holds r f = record {
  held = take-zero r.epd.data_len (bytes_of r.headers) f.no_data;
  counted = f.no_data;
  fresh = λ _. refl;
  no_end = f.no_head;
}

open_buffer-fresh :
    (c : Config) (r : Reader)
    → ((k : ℕ) → c.malloc k ≡ true)
    → IsFresh r
    → (r' : Reader) × (open_buffer c r ≡ some r') × (r'.epd ≡ r.epd)
unfolding open_buffer enlarge
open_buffer-fresh c r m f = elim (Option-cases r.headers) [
  | inl e ↦
      (record r { headers = some []; buf_size = c.buffer_size }, rw (e, m c.buffer_size) refl, refl)
  | inr (b, e) ↦ elim (Bool-cases (r.epd.data_len == r.buf_size)) [
    | inl d ↦ (
      record r { buf_size = r.buf_size + c.buffer_size },
      rw (e, d, m (r.buf_size + c.buffer_size)) refl,
      refl,
    )
    | inr d ↦ (r, rw (e, d) refl, refl)
  ]
]

pub take-append : (s t : Bytes) → take (length s) (s ++ t) ≡ s
take-append [] t = refl
take-append (c ∷ cs) t = ap (◌∷◌ c) (take-append cs t)

drop_all : (n : ℕ) (t : Bytes) → length t ≤ n → drop n t ≡ []
drop_all zero [] h = refl
drop_all zero (c ∷ cs) h = absurd (omega arith)
drop_all (suc n) [] h = refl
drop_all (suc n) (c ∷ cs) h = drop_all n cs (omega arith)

put_nuls-append :
    (text : Bytes) (x : ℕ) (len : ℕ)
    → len ≡ length text + 1
    → put_nuls (text ++ x ∷ []) len (len - 1) ≡ text ++ 0 ∷ 0 ∷ []
unfolding put_nuls
put_nuls-append text x len h =
    let all = text ++ x ∷ [] in
    let len_all : length all ≡ len = length-append {0} text (x ∷ []) ∙ sym h in
    let before : len - 1 ≡ length text = omega arith in
    let behind : len - 1 + 1 ≡ len = omega arith in
    let rest : drop (len - 1 + 1) (take len all) ≡ [] =
      drop_all (len - 1 + 1) (take len all) (omega (arith, length-take-le {0} len all)) in
    rw (rest, before) (ap (λ t. t ++ 0 ∷ 0 ∷ []) (take-append text (x ∷ [])))

launch-processes :
    (c : Config) (serv : ServStatus) (r : Reader) (text : Bytes)
    → r.headers ≡ some (text ++ 0 ∷ 0 ∷ [])
    → r.header_len ≡ length text
    → r.epd.header_length ≡ length text + 1
    → r.epd.content_length ≡ pos 0
    → c.stristr (text ++ 0 ∷ 0 ∷ []) (codes "100-continue") (length text + 1) ≡ none
    → asks_status text ≡ false
    → Started text (launch c serv r)
unfolding launch expects_continue
launch-processes c serv r text h l n z no_continue no_status =
    let no : expects_continue c r ≡ false =
      ap₂ (λ t k. not (is_none (c.stristr (bytes_of t) (codes "100-continue") k))) h n
      ∙ ap (λ o. not (is_none o)) no_continue in
    let not_asked : asks_status (take r.header_len (bytes_of r.headers)) ≡ false =
      ap₂ (λ t k. asks_status (take k (bytes_of t))) h l
      ∙ ap asks_status (take-append text (0 ∷ 0 ∷ []))
      ∙ no_status in
    let done : launch c serv r ≡ record { serv = serv; reader = r; next = processes } =
      if_false (expects_continue c r) _ no
      ∙ if_false (asks_status (take r.header_len (bytes_of r.headers))) _ not_asked in
    subst (Started text) (sym done)
      (record { started = refl; headers = h; header_len = l; content_length = z })

start_job-complete :
    (c : Config) (now : ℕ) (serv : ServStatus) (r : Reader) (size : ℕ) (text : Bytes)
    → c.stristr (text ++ 0 ∷ 0 ∷ []) (codes "100-continue") (length text + 1) ≡ none
    → asks_status text ≡ false
    → Started text (start_job c now serv (complete r size (text ++ b'\n' ∷ [])))
unfolding start_job begin_job
start_job-complete c now serv r size text no_continue no_status =
    let len = length-append {0} text (b'\n' ∷ []) in
    launch-processes c (count_job now serv) _ text
      (ap some (put_nuls-append text b'\n' (length (text ++ b'\n' ∷ [])) len)) (omega (arith, len))
      len refl no_continue no_status

join-pos : (ls : List Bytes) → 0 < length (join ls)
join-pos [] = omega arith
join-pos (l ∷ ls) = omega (arith, length-append {0} l (b'\r' ∷ b'\n' ∷ join ls))

long_join : (l : Bytes) (ls : List Bytes) → 0 < length l → 4 ≤ length (join (l ∷ ls) ++ b'\n' ∷ [])
long_join l ls h = omega (
  arith,
  length-append {0} (join (l ∷ ls)) (b'\n' ∷ []),
  length-append {0} l (b'\r' ∷ b'\n' ∷ join ls),
  join-pos ls,
)

-- With memory, a `stristr` that finds only what stands there, and a limit that allows the head: on a
-- connection that waits for a request, a head of non-empty lines without CR and newline, whose method
-- is not one of those with a body, starts its job in whatever pieces it is received, with the text up
-- to its last newline, if it neither asks for the status page nor expects "100-continue".
pub network_be_read-Started :
    (c : Config) (now : ℕ) (serv : ServStatus) (r : Reader) (l : Bytes) (ls : List Bytes)
    (p : Bytes) (ps : List Bytes)
    → Finds c.stristr
    → Allows c (length (join (l ∷ ls)) + 1)
    → IsFresh r
    → All IsLine (l ∷ ls)
    → get_or l 0 0 ≢ b'P'
    → get_or l 0 0 ≢ b'p'
    → c.stristr (join (l ∷ ls) ++ 0 ∷ 0 ∷ []) (codes "100-continue") (length (join (l ∷ ls)) + 1)
      ≡ none
    → asks_status (join (l ∷ ls)) ≡ false
    → All IsPiece (p ∷ ps)
    → concat (p ∷ ps) ≡ join (l ∷ ls) ++ b'\n' ∷ []
    → Started (join (l ∷ ls)) (network_be_read c now serv r (deliveries (p ∷ ps)))
unfolding network_be_read
network_be_read-Started c now serv r [] ls p ps finds a f (k, ks) not_P not_p no_continue no_status
      pieces e =
    absurd (omega (arith, k.0))
network_be_read-Started c now serv r (x ∷ xs) ls p ps finds a f lines not_P not_p no_continue
      no_status pieces e =
    let text = join ((x ∷ xs) ∷ ls) in
    let len = length-append {0} text (b'\n' ∷ []) in
    let (r', opened, kept) = open_buffer-fresh c r a.memory f in
    let f' : IsFresh r' = record {
      no_data = ap (λ (v : Epd). v.data_len) kept ∙ f.no_data;
      no_head = ap (λ (v : Epd). v.header_length) kept ∙ f.no_head;
      unknown = ap (λ (v : Epd). leb_ℤ (pos 0) v.content_length) kept ∙ f.unknown;
    } in
    let is_head : IsHead (text ++ b'\n' ∷ []) text = record {
      split = refl;
      open_before = has_end-join ((x ∷ xs) ∷ ls) lines;
      blank = ends_blank-join (x ∷ xs) ls;
      long = long_join (x ∷ xs) ls (lines.0).0;
      not_P = not_P;
      not_p = not_p;
    } in
    let (size, d) =
      read_loop-pieces c finds now (text ++ b'\n' ∷ []) text is_head (subst (Allows c) (sym len) a)
        serv r' [] p ps (IsFresh-Holds r' f') f'.unknown pieces.0 pieces.1 e in
    rw (opened, network_be_read, d)
      (start_job-complete c now (count_reading serv r') r' size text no_continue no_status)
