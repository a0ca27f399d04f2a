-- ===== src/Network/Clear/Fresh.antt =====
-- A connection that is kept alive is ready for its next request.
use alilua.Prelude.{
  ◌≡◌, refl, sym, Bool, true, false, not, none, some, List, ◌∷◌, ◌&&◌, if◌then◌else◌, arith, ◌<◌, ℕ,
}
use mathlib.Core.Path.{subst}
use alilua.Prelude.Int.{pos, leb_ℤ}
use alilua.ServStatus.{ServStatus}
use alilua.Client.{Client}
use alilua.Client.Counts.{IsCounted}
use alilua.Network.Epd.{process, max_iov_count}
use alilua.Network.Reader.{on_request, Reader, Config}
use alilua.Network.Reader.Room.{IsReady}
use alilua.Network.Read.Counts.{client_of, IsReceiving}
use alilua.Network.Read.Limit.{IsShort}
use alilua.Network.Read.Whole.{IsFresh}
use alilua.Network.Clear.{free_epd_request, clear_response, keep_or_close, network_end_process}

-- What the theorems on `network_be_read` start from.
pub record Awaits (r : Reader) : Type 0 where
  pub fresh : IsFresh r
  pub receiving : IsReceiving r
  pub ready : IsReady r
  pub short : (c : Config) → IsShort c r
  pub no_buffer : r.headers ≡ none
  pub no_response : (i : ℕ) → i < max_iov_count → r.epd.iov i ≡ none
  pub listens : r.callback ≡ on_request

cleared-Awaits : (r : Reader) → Awaits (free_epd_request (clear_response r))
unfolding free_epd_request clear_response
cleared-Awaits r = record {
  fresh = record { no_data = refl; no_head = refl; unknown = refl };
  receiving = record { not_sending = refl; empty = λ _. refl };
  ready = record {
    sound = record { written = omega arith; in_buffer = omega arith; head_in = omega arith };
    fresh = λ _. refl;
  };
  short = λ c. record { no_end = refl; short = omega arith };
  no_buffer = refl;
  no_response = λ i h. ground arith;
  listens = refl;
}

if_some : (b : Bool) (x r : Reader) → (if b then some x else none) ≡ some r → (r ≡ x) × (b ≡ true)
if_some true x r e = (cc, refl)
if_some false x r e = absurd (cc)

and_last : (s t e : Bool) → (s && t && not e) ≡ true → e ≡ false
and_last s t false h = refl
and_last s t true h = absurd (ground arith)

kept_is :
    (exiting : Bool) (r r' : Reader)
    → keep_or_close exiting r ≡ some r'
    → (r' ≡ free_epd_request r) × (exiting ≡ false)
unfolding keep_or_close
kept_is exiting r r' e =
    let s = leb_ℤ (pos 1) r.epd.keepalive in
    let t = leb_ℤ r.epd.keepalive (pos 1) in
    let (eq, all) = if_some (s && t && not exiting) (free_epd_request r) r' e in
    (eq, and_last s t exiting all)

-- If a request ends and the connection is kept, then the worker is not exiting, and the connection is
-- as it has to be when a request comes: no bytes, no head, no buffers of a response, and
-- `network_be_read` listens; and counters that counted the connections while the request was processed
-- count them still.
pub network_end_process-Awaits :
    (thread is_open exiting : Bool) (cs : List Client) (serv : ServStatus) (r r' : Reader)
    → IsCounted serv (client_of thread is_open process ∷ cs)
    → network_end_process exiting r ≡ some r'
    → Awaits r' × (exiting ≡ false) × IsCounted serv (client_of thread is_open r'.epd.status ∷ cs)
unfolding network_end_process
network_end_process-Awaits thread is_open exiting cs serv r r' h e =
    let (eq, going) = kept_is exiting (clear_response r) r' e in
    (
      subst Awaits (sym eq) (cleared-Awaits r),
      going,
      subst (λ (x : Reader). IsCounted serv (client_of thread is_open x.epd.status ∷ cs)) (sym eq)
          (unfold free_epd_request clear_response in
            record {
              reading_eq = h.reading_eq;
              sending_eq = h.sending_eq;
              active_eq = h.active_eq;
            }),
    )
