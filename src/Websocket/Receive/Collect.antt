-- ===== src/Websocket/Receive/Collect.antt =====
-- How the bytes of one frame are collected, however the network cuts them.
use alilua.Prelude.{
  ℕ, ◌<◌, ◌≡◌, refl, sym, ap, ◌∙◌, Bool, false, List, [], ◌∷◌, ◌++◌, Bytes, leb, arith, length, All,
  Bool-cases, inl, inr, length-append, append-nil, append_assoc,
}
use alilua.Prelude.Int.{pos, negsuc, ◌-ℤ◌}
use alilua.ServStatus.{ServStatus}
use alilua.Network.Epd.{read, wait}
use alilua.Websocket.Receive.{
  Ws, Message, Received, store, take_head, deliver, receive, Recv, got, websocket_be_read,
}

-- A connection that has read a head and holds the bytes `b` of its frame.
abbrev pub collecting : Ws → Bool → ℕ → ℕ → Bytes → Ws
collecting ws masked offset total b = record ws {
  status = read;
  buf = b;
  content_length = pos total;
  frame_mask = masked;
  masking_key_offset = offset;
}

receive_more :
    (serv : ServStatus) (ws : Ws) (masked : Bool) (offset total : ℕ) (b c : Bytes) (stale : ℕ → ℕ)
    → receive serv (collecting ws masked offset total b) c stale
      ≡ deliver stale serv (collecting ws masked offset total (b ++ c)) (pos total)
unfolding receive take_head store
receive_more serv ws masked offset total b c stale = ground arith

-- `rest` after a call that did not close the connection.
abbrev pub then_receive : Received → List Recv → Received
then_receive r rest =
    let later = websocket_be_read r.serv r.ws rest in
    record later { messages = r.messages ++ later.messages }

abbrev pub arriving : List (Bytes × (ℕ → ℕ)) → List Recv
arriving [] = []
arriving ((c, stale) ∷ cs) = got c stale ∷ arriving cs

abbrev pub whole : List (Bytes × (ℕ → ℕ)) → Bytes
whole [] = []
whole ((c, stale) ∷ cs) = c ++ whole cs

abbrev pub IsSome : Bytes × (ℕ → ℕ) → Type 0
IsSome (c, stale) = 0 < length c

-- Back to waiting after one message.
abbrev pub handed_on : ServStatus → Ws → Bool → ℕ → Message → Received
handed_on serv ws masked offset m = record {
  serv = record serv { reading_counts = serv.reading_counts -ℤ pos 1 };
  ws = record ws {
    status = wait;
    buf = [];
    content_length = negsuc 0;
    frame_mask = masked;
    masking_key_offset = offset;
  };
  messages = m ∷ [];
  close_sent = false;
}

deliver_early :
    (serv : ServStatus) (ws : Ws) (masked : Bool) (offset total : ℕ) (b : Bytes) (stale : ℕ → ℕ)
    → length b < total
    → deliver stale serv (collecting ws masked offset total b) (pos total) ≡ record {
      serv = serv;
      ws = collecting ws masked offset total b;
      messages = [];
      close_sent = false;
    }
unfolding deliver
deliver_early serv ws masked offset total b stale h = ground arith

pub read_more :
    (serv : ServStatus) (ws : Ws) (masked : Bool) (offset total : ℕ) (b c : Bytes) (stale : ℕ → ℕ)
    (rest : List Recv)
    → websocket_be_read serv (collecting ws masked offset total b) (got c stale ∷ rest)
      ≡ then_receive
          (deliver stale serv (collecting ws masked offset total (b ++ c)) (pos total))
          rest
unfolding websocket_be_read deliver
read_more serv ws masked offset total b c stale rest =
    rw (receive_more serv ws masked offset total b c stale)
      (elim (Bool-cases (leb total (length (b ++ c)))) [ inl e ↦ rw e refl | inr e ↦ rw e refl ])

module _ (serv : ServStatus) (ws : Ws) (masked : Bool) (offset total : ℕ) (f : Bytes) (m : Message)
    (delivers : (stale : ℕ → ℕ)
      → deliver stale serv (collecting ws masked offset total f) (pos total)
        ≡ handed_on serv ws masked offset m) where
  pub collected :
      (cs : List (Bytes × (ℕ → ℕ))) (b : Bytes) (stale : ℕ → ℕ)
      → b ++ whole cs ≡ f
      → length f ≡ total
      → All IsSome cs
      → then_receive
          (deliver stale serv (collecting ws masked offset total b) (pos total))
          (arriving cs)
        ≡ handed_on serv ws masked offset m
  unfolding websocket_be_read
  collected [] b stale e hl hs =
      let e' : b ≡ f = sym (append-nil b) ∙ e in rw e' (rw (delivers stale) refl)
  collected ((c, stale') ∷ cs) b stale e hl (hc, hs) =
      let shorter : length b < total =
        omega (arith, ap length e, length-append b (c ++ whole cs), length-append c (whole cs)) in
      rw (deliver_early serv ws masked offset total b stale shorter) (
        read_more serv ws masked offset total b c stale' (arriving cs)
        ∙ collected cs (b ++ c) stale' (append_assoc b c (whole cs) ∙ e) hl hs)
