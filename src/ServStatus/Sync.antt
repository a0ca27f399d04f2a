-- ===== src/ServStatus/Sync.antt =====
-- The counters in shared memory against those of the workers, over any interleaving of their work
-- and their calls of `sync_serv_status`.
use alilua.Prelude.{
  ℕ, ◌+◌, ◌%◌, ◌^◌, ◌<◌, ◌≡◌, refl, sym, ap, ◌∙◌, false, inl, inr, List, [], ◌∷◌, ◌++◌, leb, arith,
  Bool-cases,
}
use alilua.Prelude.Int.{ℤ, pos, ◌+ℤ◌, int_laws}
use alilua.ServStatus.{
  ServStatus, Worker, add_change, add_slots, add_to_shm, clear_slot, remember, sync_serv_status,
  on_exit_handler,
}

-- The counters of connections in a state.
pub data Level : Type 0 where
  waiting reading sending active : Level

-- Those, and the slots `sec_process_counts[0]` to `[4]`.
pub data Gauge : Type 0 where
  level : Level → Gauge
  slot : (i : ℕ) → i < 5 → Gauge

abbrev pub gauge : Gauge → ServStatus → ℤ
gauge (level waiting) s = s.waiting_counts
gauge (level reading) s = s.reading_counts
gauge (level sending) s = s.sending_counts
gauge (level active) s = s.active_counts
gauge (slot i h) s = s.sec_process_counts i

-- One call moves the shared counter by exactly what the worker's copy moves.
gauge-add_to_shm :
    (g : Gauge) (shm : ServStatus) (w : Worker)
    → gauge g (add_to_shm shm w) ≡ add_change (gauge g shm) (gauge g w.serv) (gauge g w.tmp)
unfolding add_to_shm add_slots
gauge-add_to_shm (level waiting) shm w = refl
gauge-add_to_shm (level reading) shm w = refl
gauge-add_to_shm (level sending) shm w = refl
gauge-add_to_shm (level active) shm w = refl
gauge-add_to_shm (slot i h) shm w = ground arith

gauge-remember : (g : Gauge) (now : ℕ) (w : Worker) → gauge g (remember now w).tmp ≡ gauge g w.serv
unfolding remember
gauge-remember (level waiting) now w = refl
gauge-remember (level reading) now w = refl
gauge-remember (level sending) now w = refl
gauge-remember (level active) now w = refl
gauge-remember (slot i h) now w = refl

-- The sum of a counter over the workers, as they last reported it.
abbrev pub reported : Gauge → List Worker → ℤ
reported g [] = pos 0
reported g (w ∷ ws) = gauge g w.tmp +ℤ reported g ws

-- The processes: the shared counters, and the workers in order.
pub record System : Type 0 where
  pub shm : ServStatus
  pub workers : List Worker

change_nothing : (x y : ℤ) → add_change x y y ≡ x
change_nothing x y = omega int_laws

-- What may happen: a worker's request handling gives its counters any new values, or a worker calls
-- `sync_serv_status`.
pub data Change (s t : System) : Type 0 where
  work :
      (before after : List Worker) (w : Worker) (serv : ServStatus)
      → s.workers ≡ before ++ w ∷ after
      → t ≡ record s { workers = before ++ (record w { serv = serv }) ∷ after }
      → Change s t
  sync :
      (before after : List Worker) (w : Worker) (now : ℕ)
      → s.workers ≡ before ++ w ∷ after
      → t ≡ record {
        shm = (sync_serv_status now s.shm w).0;
        workers = before ++ (sync_serv_status now s.shm w).1 ∷ after;
      }
      → Change s t

pub data Reach (s : System) : System → Type 0 where
  here : Reach s s
  next : {t u : System} → Reach s t → Change t u → Reach s u

-- The shared counter is the sum of what the workers last reported.
abbrev pub IsBalanced : Gauge → System → Type 0
IsBalanced g s = gauge g s.shm ≡ reported g s.workers

-- A call of `sync_serv_status` moves the shared counter as it moves the worker's report.
pub gauge-sync_serv_status :
    (g : Gauge) (now : ℕ) (shm : ServStatus) (w : Worker)
    → gauge g (sync_serv_status now shm w).0
      ≡ add_change (gauge g shm) (gauge g (sync_serv_status now shm w).1.tmp) (gauge g w.tmp)
unfolding sync_serv_status clear_slot
gauge-sync_serv_status g now shm w = elim (Bool-cases (leb now w.last_sync)) [
  | inl e ↦ rw e (sym (change_nothing (gauge g shm) (gauge g w.tmp)))
  | inr e ↦ rw e (
      gauge-add_to_shm g shm (clear_slot now w)
      ∙ ap (λ x. add_change (gauge g shm) x (gauge g w.tmp))
          (sym (gauge-remember g now (clear_slot now w))))
]

-- The counters of events, which start again at 0 in the worker.
pub data Counter : Type 0 where
  connect success process : Counter

abbrev pub counter : Counter → ServStatus → ℕ
counter connect s = s.connect_counts
counter success s = s.success_counts
counter process s = s.process_counts

-- No event is lost or counted twice: the shared counter and the worker's together stay the same,
-- modulo 2 ^ 64.
pub counter-sync_serv_status :
    (c : Counter) (now : ℕ) (shm : ServStatus) (w : Worker)
    → (counter c (sync_serv_status now shm w).0 + counter c (sync_serv_status now shm w).1.serv)
        % 2 ^ 64
      ≡ (counter c shm + counter c w.serv) % 2 ^ 64
unfolding sync_serv_status add_to_shm clear_slot remember
counter-sync_serv_status connect now shm w = ground arith
counter-sync_serv_status success now shm w = ground arith
counter-sync_serv_status process now shm w = ground arith

-- A worker that exits, and that did not sync later than in nine seconds' time, takes its
-- connections out of the shared counters: what it reported is subtracted, and it has reported 0
-- from then on.
pub gauge-on_exit_handler :
    (l : Level) (now : ℕ) (shm : ServStatus) (w : Worker)
    → w.last_sync < now + 10
    → (gauge (level l) (on_exit_handler false now shm w).0
        ≡ add_change (gauge (level l) shm) (pos 0) (gauge (level l) w.tmp))
      × (gauge (level l) (on_exit_handler false now shm w).1.tmp ≡ pos 0)
unfolding on_exit_handler sync_serv_status add_to_shm clear_slot remember
gauge-on_exit_handler waiting now shm w h = ground arith
gauge-on_exit_handler reading now shm w h = ground arith
gauge-on_exit_handler sending now shm w h = ground arith
gauge-on_exit_handler active now shm w h = ground arith
