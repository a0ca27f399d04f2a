-- ===== src/ServStatus/Tests.antt =====
-- Two workers and the shared counters.
use alilua.Prelude.{◌≡◌, refl, [], ◌∷◌}
use alilua.Prelude.Int.{pos, ◌+ℤ◌, ◌-ℤ◌}
use alilua.ServStatus.{ServStatus, Worker, add_to_shm, clear_slot, sync_serv_status}
use alilua.ServStatus.Sync.{System}

abbrev zeros : ServStatus
zeros = record {
  connect_counts = 0;
  success_counts = 0;
  process_counts = 0;
  waiting_counts = pos 0;
  reading_counts = pos 0;
  sending_counts = pos 0;
  active_counts = pos 0;
  sec_process_counts = λ i. pos 0;
}

abbrev fresh : Worker
fresh = record { serv = zeros; tmp = zeros; last_sync = 0 }

-- A worker with two connections, one of them being read, after three that came.
abbrev two_open : ServStatus
two_open = record zeros { connect_counts = 3; reading_counts = pos 1; active_counts = pos 2 }

abbrev busy : Worker
busy = record fresh { serv = two_open }

sync_runs : (sync_serv_status 100 zeros busy).0.active_counts ≡ pos 2
unfolding sync_serv_status add_to_shm clear_slot ◌+ℤ◌ ◌-ℤ◌
sync_runs = refl

sync_too_soon :
    (sync_serv_status 100 zeros (record busy { last_sync = 100 })).0.active_counts ≡ pos 0
unfolding sync_serv_status
sync_too_soon = refl

abbrev start : System
start = record { shm = zeros; workers = fresh ∷ fresh ∷ [] }

abbrev synced : System
synced = record {
  shm = (sync_serv_status 100 zeros busy).0;
  workers = fresh ∷ (sync_serv_status 100 zeros busy).1 ∷ [];
}
