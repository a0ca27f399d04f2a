-- ===== src/ServStatus.antt =====
-- src/network.h and src/network-util.c: `serv_status_t`, the counters that each worker keeps, and
-- `sync_serv_status`, which adds their changes to the counters in shared memory.
pub mod Sync
mod Tests
use alilua.Prelude.{ℕ, ◌+◌, ◌-◌, ◌%◌, ◌^◌, Bool, true, false, leb, update, if◌then◌else◌}
use alilua.Prelude.Int.{ℤ, pos, ◌+ℤ◌, ◌-ℤ◌}

-- An `int` is an integer here; its width is not modelled. `jioning_counts` and `ptime` are never
-- touched by the functions below. `sec_process_counts` is an array of five.
pub record ServStatus : Type 0 where
  pub connect_counts : ℕ
  pub success_counts : ℕ
  pub process_counts : ℕ
  pub waiting_counts : ℤ
  pub reading_counts : ℤ
  pub sending_counts : ℤ
  pub active_counts : ℤ
  pub sec_process_counts : ℕ → ℤ

-- What one worker keeps: `serv_status`, `tmp_status` and `last_sync`.
pub record Worker : Type 0 where
  pub serv : ServStatus
  pub tmp : ServStatus
  pub last_sync : ℕ

-- `uint64_t` addition.
abbrev pub add_u64 : ℕ → ℕ → ℕ
add_u64 a b = (a + b) % 2 ^ 64

-- `shm_serv_status->... += serv_status.... - tmp_status....`
abbrev pub add_change : ℤ → ℤ → ℤ → ℤ
add_change shm serv tmp = shm +ℤ (serv -ℤ tmp)

-- The five statements for the slots 0 to 4.
pub add_slots : (ℕ → ℤ) → (ℕ → ℤ) → (ℕ → ℤ) → ℕ → ℤ
add_slots shm serv tmp i = if leb i 4 then add_change (shm i) (serv i) (tmp i) else shm i

-- Between `shm_lock` and `shm_unlock`: the counters in shared memory.
pub add_to_shm : ServStatus → Worker → ServStatus
add_to_shm shm w = record {
  connect_counts = add_u64 shm.connect_counts w.serv.connect_counts;
  success_counts = add_u64 shm.success_counts w.serv.success_counts;
  process_counts = add_u64 shm.process_counts w.serv.process_counts;
  waiting_counts = add_change shm.waiting_counts w.serv.waiting_counts w.tmp.waiting_counts;
  reading_counts = add_change shm.reading_counts w.serv.reading_counts w.tmp.reading_counts;
  sending_counts = add_change shm.sending_counts w.serv.sending_counts w.tmp.sending_counts;
  active_counts = add_change shm.active_counts w.serv.active_counts w.tmp.active_counts;
  sec_process_counts =
      add_slots shm.sec_process_counts w.serv.sec_process_counts w.tmp.sec_process_counts;
}

-- The slot that is cleared before the counters are added.
pub clear_slot : ℕ → Worker → Worker
clear_slot now w = record w {
  serv = record (w.serv) {
    sec_process_counts = update w.serv.sec_process_counts ((now - 5) % 5) (pos 0);
  };
}

-- The counters of events start again at 0, and `tmp_status` becomes a copy of `serv_status`.
pub remember : ℕ → Worker → Worker
remember now w =
    let s = record (w.serv) { connect_counts = 0; success_counts = 0; process_counts = 0 } in
    record { serv = s; tmp = s; last_sync = now }

-- `now` is the time in seconds, five at least.
pub sync_serv_status : ℕ → ServStatus → Worker → ServStatus × Worker
sync_serv_status now shm w =
    if leb now w.last_sync
    then (shm, w)
    else (add_to_shm shm (clear_slot now w), remember now (clear_slot now w))

-- src/worker.c: `on_exit_handler`, as far as the counters go. `exited` makes a second call do nothing.
pub on_exit_handler : Bool → ℕ → ServStatus → Worker → ServStatus × Worker
on_exit_handler true now shm w = (shm, w)
on_exit_handler false now shm w = sync_serv_status (now + 10) shm (record w {
  serv = record (w.serv) {
    waiting_counts = pos 0;
    reading_counts = pos 0;
    sending_counts = pos 0;
    active_counts = pos 0;
  };
})
