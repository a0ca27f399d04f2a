-- ===== src/Client/Tests.antt =====
-- The counters with three connections, one of which times out while it is sent to.
use alilua.Prelude.{refl, true, false, List, [], ◌∷◌}
use alilua.Prelude.Int.{pos}
use alilua.ServStatus.{ServStatus}
use alilua.Network.Epd.{read, process, send}
use alilua.Client.{Client, timeout_handle}
use alilua.Client.Counts.{IsCounted, left_of, timeout_handle-IsCounted}
use alilua.Samples.{one_connection}

abbrev sender : Client
sender = record { status = send; has_thread = true; is_open = true }

abbrev others : List Client
others =
    record { status = read; has_thread = false; is_open = true }
    ∷ record { status = process; has_thread = true; is_open = true }
    ∷ []

abbrev counters : ServStatus
counters = record one_connection {
  connect_counts = 3;
  process_counts = 0;
  reading_counts = pos 1;
  sending_counts = pos 1;
  active_counts = pos 3;
}

counted : IsCounted counters (sender ∷ others)
counted = record { reading_eq = refl; sending_eq = refl; active_eq = refl }

timeout_handle-IsCounted_example :
    IsCounted (timeout_handle counters sender).0 (left_of (timeout_handle counters sender).1 others)
timeout_handle-IsCounted_example = timeout_handle-IsCounted counters sender others counted
