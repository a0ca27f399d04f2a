-- ===== src/Samples.antt =====
-- Data for runs of the functions: the counters of a worker with one connection whose job runs, and
-- what the coevent library and the configuration give.
use alilua.Prelude.{ℕ, ◌+◌, none, [], ◌∷◌, codes}
use alilua.Prelude.Int.{pos}
use alilua.ServStatus.{ServStatus}
use alilua.Network.Build.{Site}

abbrev pub one_connection : ServStatus
one_connection = record {
  connect_counts = 1;
  success_counts = 0;
  process_counts = 1;
  waiting_counts = pos 0;
  reading_counts = pos 0;
  sending_counts = pos 0;
  active_counts = pos 1;
  sec_process_counts = λ i. pos 0;
}

abbrev pub sample_site : ℕ → Site
sample_site ep_d_buf_size = record {
  stristr = λ text wanted n. none;
  ultostr = λ n. (n + b'0') ∷ [];
  ep_d_buf_size = ep_d_buf_size;
  decimal = λ n. (n + b'0') ∷ [];
  version = codes "1";
  hostname = codes "h";
  now_gmt = codes "now";
}
