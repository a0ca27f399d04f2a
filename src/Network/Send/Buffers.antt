-- ===== src/Network/Send/Buffers.antt =====
-- The buffers of a response that is being collected: what they hold, and when they are in order.
use mathlib.Core.Path.{subst}
use alilua.Prelude.{
  ℕ, zero, suc, ◌+◌, ◌<◌, ◌≤◌, ◌≡◌, refl, sym, ap, ◌∙◌, Bool, Option, none, some, inl, inr, [],
  ◌++◌, Bytes, length, take, update, ◌==◌, arith, Bool-cases, Option-cases, append-nil,
  append_assoc, update_self, update_ne,
}
use alilua.Prelude.Int.{ℤ, pos, negsuc}
use alilua.Network.Epd.{Epd, bytes_of, body}
use alilua.Network.Send.{first_buffer, current_buffer, fill, next_buffer}

pub body-update_gt :
    (iov : ℕ → Option Bytes) (n i : ℕ) (v : Option Bytes)
    → n < i
    → body (update iov i v) n ≡ body iov n
body-update_gt iov zero i v h = refl
body-update_gt iov (suc n) i v h =
    rw (body-update_gt iov n i v (omega arith), update_ne iov i v (suc n) (omega arith)) refl

pub body-update_self :
    (iov : ℕ → Option Bytes) (n : ℕ) (v : Option Bytes)
    → body (update iov (suc n) v) (suc n) ≡ body iov n ++ bytes_of v
body-update_self iov n v =
    rw (body-update_gt iov n (suc n) v (omega arith), update_self iov (suc n) v) refl

-- The response has its first buffer, and `iov_buf_count` names a buffer of the body.
pub record IsFilling (epd : Epd) : Type 0 where
  pub first : Bytes
  pub has_first : epd.iov 1 ≡ some first
  pub last : ℕ
  pub count_is : epd.iov_buf_count ≡ suc last

-- The bytes of the response that wait in the buffers.
abbrev pub contents : Epd → Bytes
contents epd = body epd.iov epd.iov_buf_count

abbrev pub Returned : ℕ → ℕ → Option ℤ → Type 0
Returned k total (some (pos n)) = n + k ≡ total
Returned k total (some (negsuc n)) = Unit
Returned k total none = ⊥

-- Nothing but the buffers and their counters differs.
abbrev pub Others : Epd → Epd → Type 0
Others epd e =
    record e {
      iov = epd.iov;
      iov_buf_count = epd.iov_buf_count;
      response_content_length = epd.response_content_length;
    }
    ≡ epd

-- `r` is what sending `piece` from `epd` may give: the first `k` bytes of it were copied.
pub record Sent (epd : Epd) (piece : Bytes) (r : Epd × Option ℤ) : Type 0 where
  pub copied : ℕ
  pub within : copied ≤ length piece
  pub written : contents r.0 ≡ contents epd ++ take copied piece
  pub counted : r.0.response_content_length ≡ epd.response_content_length + copied
  pub returned : Returned copied (length piece) r.1
  pub filling : IsFilling r.0
  pub timeout_same : r.0.process_timeout ≡ epd.process_timeout
  pub sendfile_same : r.0.sendfile ≡ epd.sendfile
  pub others_same : Others epd r.0

-- A write to the buffer that is being filled.
abbrev pub set_current : Epd → Option Bytes → Epd
set_current epd v = record epd { iov = update epd.iov epd.iov_buf_count v }

pub contents-set_current :
    (epd : Epd) (f : IsFilling epd) (v : Option Bytes)
    → contents (set_current epd v) ≡ body epd.iov f.last ++ bytes_of v
contents-set_current epd f v = rw f.count_is (body-update_self epd.iov f.last v)

pub contents_split :
    (epd : Epd) (f : IsFilling epd)
    → contents epd ≡ body epd.iov f.last ++ bytes_of (epd.iov epd.iov_buf_count)
contents_split epd f = rw f.count_is refl

set_current-IsFilling :
    (epd : Epd) (b : Bytes) → IsFilling epd → IsFilling (set_current epd (some b))
set_current-IsFilling epd b f = elim (Bool-cases (epd.iov_buf_count == 1)) [
  | inl e ↦ record { first = b; has_first = ground arith; last = f.last; count_is = f.count_is }
  | inr e ↦ record {
    first = f.first;
    has_first = ground arith;
    last = f.last;
    count_is = f.count_is;
  }
]

pub fill-contents :
    (epd : Epd) (len : ℕ) (piece : Bytes)
    → IsFilling epd
    → contents (fill epd len piece) ≡ contents epd ++ take len piece
unfolding fill
fill-contents epd len piece f =
    let used = bytes_of (epd.iov epd.iov_buf_count) in
    contents-set_current epd f (some (used ++ take len piece))
    ∙ sym (append_assoc (body epd.iov f.last) used (take len piece))
    ∙ ap (λ t. t ++ take len piece) (sym (contents_split epd f))

pub fill-IsFilling :
    (epd : Epd) (len : ℕ) (piece : Bytes) → IsFilling epd → IsFilling (fill epd len piece)
unfolding fill
fill-IsFilling epd len piece f =
    let g = set_current-IsFilling epd (bytes_of (epd.iov epd.iov_buf_count) ++ take len piece) f in
    record { first = g.first; has_first = g.has_first; last = g.last; count_is = g.count_is }

pub next_buffer-contents : (epd : Epd) → contents (next_buffer epd) ≡ contents epd
unfolding next_buffer
next_buffer-contents epd =
    let n = epd.iov_buf_count in
    let e : n + 1 ≡ suc n = omega arith in
    rw e (body-update_self epd.iov n none ∙ append-nil (body epd.iov n))

pub next_buffer-IsFilling : (epd : Epd) → IsFilling epd → IsFilling (next_buffer epd)
unfolding next_buffer
next_buffer-IsFilling epd f = record {
  first = f.first;
  has_first = ground arith;
  last = epd.iov_buf_count;
  count_is = omega arith;
}

-- What `current_buffer` gives: the same response, with a buffer to fill.
pub record Opened (epd e2 : Epd) : Type 0 where
  pub filling : IsFilling e2
  pub same : contents e2 ≡ contents epd
  pub count_same : e2.iov_buf_count ≡ epd.iov_buf_count
  pub length_same : e2.response_content_length ≡ epd.response_content_length
  pub timeout_same : e2.process_timeout ≡ epd.process_timeout
  pub sendfile_same : e2.sendfile ≡ epd.sendfile
  pub others_same : Others epd e2

module _ (malloc : ℕ → Bool) where
  pub first_buffer-IsFilling : (epd : Epd) → IsFilling epd → first_buffer malloc epd ≡ some epd
  unfolding first_buffer
  first_buffer-IsFilling epd f = rw (first_buffer, f.has_first) refl

  set_current-Opened :
      (epd : Epd)
      → IsFilling epd
      → epd.iov epd.iov_buf_count ≡ none
      → Opened epd (set_current epd (some []))
  set_current-Opened epd f missing = record {
    filling = set_current-IsFilling epd [] f;
    same =
        contents-set_current epd f (some [])
        ∙ ap (λ b. body epd.iov f.last ++ bytes_of b) (sym missing)
        ∙ sym (contents_split epd f);
    count_same = refl;
    length_same = refl;
    timeout_same = refl;
    sendfile_same = refl;
    others_same = refl;
  }

  pub current_buffer-Opened :
      (epd : Epd) {e2 : Epd} → IsFilling epd → current_buffer malloc epd ≡ some e2 → Opened epd e2
  unfolding current_buffer
  current_buffer-Opened epd {e2} f e = elim (Option-cases (epd.iov epd.iov_buf_count)) [
    | inl missing ↦
        let eq : set_current epd (some []) ≡ e2 = ground arith in
        subst (Opened epd) eq (set_current-Opened epd f missing)
    | inr (b, found) ↦
        let eq : epd ≡ e2 = ground arith in
        subst (Opened epd) eq (record {
          filling = f;
          same = refl;
          count_same = refl;
          length_same = refl;
          timeout_same = refl;
          sendfile_same = refl;
          others_same = refl;
        })
  ]
