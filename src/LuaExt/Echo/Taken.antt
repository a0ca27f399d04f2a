-- ===== src/LuaExt/Echo/Taken.antt =====
-- What `_lua_echo` does with each argument: none is lost and none comes twice.
use alilua.Prelude.{
  ℕ, zero, suc, ◌-◌, ◌<◌, ◌≡◌, ◌≢◌, refl, sym, ap, ap₂, ◌∙◌, true, false, Option, none, some, inl,
  inr, ◌⊎◌, List, [], ◌∷◌, ◌++◌, Bytes, length, take, drop, All, arith, append-nil, append_assoc,
  take_all, take-append-drop, length-drop,
}
use alilua.Prelude.Int.{ℤ, pos, negsuc}
use alilua.Network.Epd.{Epd, max_iov_count}
use alilua.Network.Send.{network_send}
use alilua.Network.Send.Buffers.{IsFilling, contents, Sent}
use alilua.Network.Send.Laws.{network_send-Sent}
use alilua.Network.Send.Whole.{always, IsNumber, network_send-IsNumber}
use alilua.Network.Write.{concat}
use alilua.LuaExt.Echo.{Echo, keep_rest, after_send, echo_one, echo_all}

-- A response that takes output.
pub record IsReady (epd : Epd) : Type 0 where
  pub filling : IsFilling epd
  pub in_time : epd.process_timeout ≢ 1
  pub no_file : epd.sendfile ≡ false

abbrev pub IsOutput : Bytes → Type 0
IsOutput piece = 0 < length piece

-- The outcome for one argument: it was copied, or all but a rest of it, which waits.
pub record Taken (s : Echo) (piece : Bytes) (t : Echo) : Type 0 where
  pub ready : IsReady t.epd
  pub written :
      (contents t.epd ≡ contents s.epd ++ piece) × (t.next_out ≡ s.next_out)
      ⊎ ((rest : Bytes) × (t.next_out ≡ some rest)
          × (contents t.epd ++ rest ≡ contents s.epd ++ piece)
          × (t.have ≡ pos (length rest))
          × (0 < length rest))

Sent-IsReady :
    (s : Echo) (piece : Bytes) (epd : Epd) (have : ℤ)
    → IsReady s.epd
    → Sent s.epd piece (epd, some have)
    → IsReady epd
Sent-IsReady s piece epd have o w = record {
  filling = w.filling;
  in_time = λ e. o.in_time (sym w.timeout_same ∙ e);
  no_file = w.sendfile_same ∙ o.no_file;
}

after_send-Taken :
    (s : Echo) (piece : Bytes) (r : Epd × Option ℤ)
    → IsReady s.epd
    → Sent s.epd piece r
    → IsNumber r.1
    → Taken s piece (after_send true s piece r)
unfolding after_send keep_rest
after_send-Taken s piece (epd, some (pos zero)) o w h = record {
  ready = Sent-IsReady s piece epd (pos zero) o w;
  written = inl (
    w.written ∙ ap (λ t. contents s.epd ++ t) (take_all w.copied piece (omega (arith, w.returned))),
    refl,
  );
}
after_send-Taken s piece (epd, some (pos (suc n))) o w h =
    let k : length piece - suc n ≡ w.copied = omega (arith, w.returned) in
    let left : length (drop (length piece - suc n) piece) ≡ suc n =
      omega (arith, w.returned, length-drop (length piece - suc n) piece) in
    record {
      ready = Sent-IsReady s piece epd (pos (suc n)) o w;
      written = inr (
        drop (length piece - suc n) piece,
        refl,
        ap₂ (λ t j. t ++ drop j piece) w.written k
            ∙ append_assoc (contents s.epd) (take w.copied piece) (drop w.copied piece)
            ∙ ap (λ t. contents s.epd ++ t) (take-append-drop w.copied piece),
        ap pos (sym left),
        omega (arith, left),
      );
    }
after_send-Taken s piece (epd, some (negsuc n)) o w h = absurd h
after_send-Taken s piece (epd, none) o w h = absurd h

module _ (size : ℕ) where
  pub echo_one-Taken :
      (s : Echo) (piece : Bytes)
      → IsReady s.epd
      → IsOutput piece
      → Taken s piece (echo_one size always true s piece)
  unfolding echo_one
  echo_one-Taken s piece o h =
      after_send-Taken s piece (network_send size always max_iov_count s.epd piece) o
        (network_send-Sent size always max_iov_count s.epd piece o.filling o.in_time (omega arith)
          (omega arith))
        (network_send-IsNumber size max_iov_count s.epd piece o.filling o.in_time o.no_file h
          (omega arith) (omega arith))

  -- What waits stays, or something else waits.
  echo_all-some :
      (s : Echo) (ps : List Bytes) (rest : Bytes)
      → IsReady s.epd
      → All IsOutput ps
      → s.next_out ≡ some rest
      → (other : Bytes) × ((echo_all size always true s ps).next_out ≡ some other)
  unfolding echo_all
  echo_all-some s [] rest o h e = (rest, e)
  echo_all-some s (p ∷ ps) rest o (h, hs) e =
      let t = echo_one-Taken s p o h in
      elim t.written [
        | inl (w, same) ↦
            echo_all-some (echo_one size always true s p) ps rest t.ready hs (same ∙ e)
        | inr (r, found, w, _, _) ↦
            echo_all-some (echo_one size always true s p) ps r t.ready hs found
      ]

  -- As long as nothing waits, all was copied.
  pub echo_all-none :
      (s : Echo) (ps : List Bytes)
      → IsReady s.epd
      → All IsOutput ps
      → (echo_all size always true s ps).next_out ≡ none
      → IsReady (echo_all size always true s ps).epd
        × (contents (echo_all size always true s ps).epd ≡ contents s.epd ++ concat ps)
  unfolding echo_all
  echo_all-none s [] o h e = (o, sym (append-nil (contents s.epd)))
  echo_all-none s (p ∷ ps) o (h, hs) e =
      let s' = echo_one size always true s p in
      let t = echo_one-Taken s p o h in
      elim t.written [
        | inl (w, same) ↦
            let (o', all) = echo_all-none s' ps t.ready hs e in
            (o', all ∙ ap (λ x. x ++ concat ps) w ∙ append_assoc (contents s.epd) p (concat ps))
        | inr (r, found, w, _, _) ↦
            let (other, waits) = echo_all-some s' ps r t.ready hs found in absurd (cc)
      ]

  -- One after the other.
  pub echo_all-append :
      (s : Echo) (ps qs : List Bytes)
      → echo_all size always true s (ps ++ qs)
        ≡ echo_all size always true (echo_all size always true s ps) qs
  unfolding echo_all
  echo_all-append s [] qs = refl
  echo_all-append s (p ∷ ps) qs = echo_all-append (echo_one size always true s p) ps qs
