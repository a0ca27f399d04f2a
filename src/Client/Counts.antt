-- ===== src/Client/Counts.antt =====
-- The counters of a worker count its connections.
use alilua.Prelude.{
  ℕ, ◌+◌, ◌≡◌, refl, ap, ◌∙◌, Bool, true, false, List, [], ◌∷◌, if◌then◌else◌, arith,
}
use alilua.Prelude.Int.{ℤ, pos, ◌-ℤ◌}
use alilua.ServStatus.{ServStatus}
use alilua.Network.Epd.{is_read, is_send, Step, read, process, send, wait}
use alilua.Client.{
  Client, leave_status, close_fd, close_client, Fate, goes_on, freed, timeout_handle,
  lua_f_check_websocket_close,
}

abbrev pub one_if : Bool → ℕ
one_if b = if b then 1 else 0

abbrev pub reading : List Client → ℕ
reading [] = 0
reading (c ∷ cs) = one_if (is_read c.status) + reading cs

abbrev pub sending : List Client → ℕ
sending [] = 0
sending (c ∷ cs) = one_if (is_send c.status) + sending cs

abbrev pub active : List Client → ℕ
active [] = 0
active (c ∷ cs) = one_if (c.is_open) + active cs

-- The counters count the connections of a list.
pub record IsCounted (serv : ServStatus) (cs : List Client) : Type 0 where
  pub reading_eq : serv.reading_counts ≡ pos (reading cs)
  pub sending_eq : serv.sending_counts ≡ pos (sending cs)
  pub active_eq : serv.active_counts ≡ pos (active cs)

-- The connections that are left.
abbrev pub left_of : Fate → List Client → List Client
left_of (goes_on c) cs = c ∷ cs
left_of freed cs = cs

minus_one : (n : ℕ) (a : ℤ) → a ≡ pos (1 + n) → a -ℤ pos 1 ≡ pos n
minus_one n a e = rw e (unfold ◌-ℤ◌ in ground arith)

plus_zero : (n : ℕ) (a : ℤ) → a ≡ pos (0 + n) → a ≡ pos n
plus_zero n a e = e ∙ ap pos (omega arith)

zero_plus : (n : ℕ) (a : ℤ) → a ≡ pos n → a ≡ pos (0 + n)
zero_plus n a e = e ∙ ap pos (omega arith)

-- A connection that is neither reading nor sending.
abbrev IsQuiet : Step → Type 0
IsQuiet s = (is_read s ≡ false) × (is_send s ≡ false)

leave_status_lem :
    (serv : ServStatus) (s s' : Step) (t o : Bool) (cs : List Client)
    → IsQuiet s'
    → IsCounted serv (record { status = s; has_thread = t; is_open = o } ∷ cs)
    → IsCounted (leave_status serv s) (record { status = s'; has_thread = t; is_open = o } ∷ cs)
unfolding leave_status
leave_status_lem serv read s' t o cs (r, d) h = record {
  reading_eq = rw r (zero_plus _ _ (minus_one _ _ h.reading_eq));
  sending_eq = rw d h.sending_eq;
  active_eq = h.active_eq;
}
leave_status_lem serv send s' t o cs (r, d) h = record {
  reading_eq = rw r h.reading_eq;
  sending_eq = rw d (zero_plus _ _ (minus_one _ _ h.sending_eq));
  active_eq = h.active_eq;
}
leave_status_lem serv process s' t o cs (r, d) h = record {
  reading_eq = rw r h.reading_eq;
  sending_eq = rw d h.sending_eq;
  active_eq = h.active_eq;
}
leave_status_lem serv wait s' t o cs (r, d) h = record {
  reading_eq = rw r h.reading_eq;
  sending_eq = rw d h.sending_eq;
  active_eq = h.active_eq;
}

close_fd_lem :
    (serv : ServStatus) (s : Step) (t o : Bool) (cs : List Client)
    → IsQuiet s
    → IsCounted serv (record { status = s; has_thread = t; is_open = o } ∷ cs)
    → IsCounted (close_fd serv o) cs
unfolding close_fd
close_fd_lem serv s t true cs (r, d) h = record {
  reading_eq =
      plus_zero _ _
        (coe 0 1 (i. serv.reading_counts ≡ pos (one_if (r i) + reading cs)) h.reading_eq);
  sending_eq =
      plus_zero _ _
        (coe 0 1 (i. serv.sending_counts ≡ pos (one_if (d i) + sending cs)) h.sending_eq);
  active_eq = minus_one _ _ h.active_eq;
}
close_fd_lem serv s t false cs (r, d) h = record {
  reading_eq =
      plus_zero _ _
        (coe 0 1 (i. serv.reading_counts ≡ pos (one_if (r i) + reading cs)) h.reading_eq);
  sending_eq =
      plus_zero _ _
        (coe 0 1 (i. serv.sending_counts ≡ pos (one_if (d i) + sending cs)) h.sending_eq);
  active_eq = plus_zero _ _ h.active_eq;
}

-- If the counters count the connections, they count the others after `close_client` on one.
pub close_client-IsCounted :
    (serv : ServStatus) (c : Client) (cs : List Client)
    → IsCounted serv (c ∷ cs)
    → IsCounted (close_client serv c) cs
unfolding close_client
close_client-IsCounted serv c cs h =
    close_fd_lem (leave_status serv c.status) wait c.has_thread c.is_open cs (refl, refl)
      (leave_status_lem serv c.status wait c.has_thread c.is_open cs (refl, refl) h)

timed_out :
    (serv : ServStatus) (s : Step) (t o : Bool) (cs : List Client)
    → IsCounted serv (record { status = s; has_thread = t; is_open = o } ∷ cs)
    → IsCounted
        (timeout_handle serv (record { status = s; has_thread = t; is_open = o })).0
        (left_of (timeout_handle serv (record { status = s; has_thread = t; is_open = o })).1 cs)
unfolding timeout_handle
timed_out serv read t o cs h = leave_status_lem serv read process t o cs (refl, refl) h
timed_out serv send t o cs h =
    close_client-IsCounted (leave_status serv send)
      (record { status = wait; has_thread = t; is_open = o }) cs
      (leave_status_lem serv send wait t o cs (refl, refl) h)
timed_out serv process true o cs h = leave_status_lem serv process process true o cs (refl, refl) h
timed_out serv process false o cs h =
    close_client-IsCounted (leave_status serv process)
      (record { status = wait; has_thread = false; is_open = o }) cs
      (leave_status_lem serv process wait false o cs (refl, refl) h)
timed_out serv wait t o cs h =
    close_client-IsCounted (leave_status serv wait)
      (record { status = wait; has_thread = t; is_open = o }) cs
      (leave_status_lem serv wait wait t o cs (refl, refl) h)

-- If the counters count the connections, then after a timeout of one they count those that are
-- left: none is subtracted twice, whether the connection goes on or is freed.
pub timeout_handle-IsCounted :
    (serv : ServStatus) (c : Client) (cs : List Client)
    → IsCounted serv (c ∷ cs)
    → IsCounted (timeout_handle serv c).0 (left_of (timeout_handle serv c).1 cs)
timeout_handle-IsCounted serv c cs h = timed_out serv c.status c.has_thread c.is_open cs h

-- If the counters count the connections, they count those that are left after
-- `lua_f_check_websocket_close` on one, whether it is closed or not.
pub lua_f_check_websocket_close-IsCounted :
    (serv : ServStatus) (c : Client) (cs : List Client) (ended exiting : Bool)
    → IsCounted serv (c ∷ cs)
    → IsCounted
        (lua_f_check_websocket_close serv c ended exiting).0
        (left_of (lua_f_check_websocket_close serv c ended exiting).1 cs)
unfolding lua_f_check_websocket_close close_client
lua_f_check_websocket_close-IsCounted serv c cs true exiting h = close_client-IsCounted serv c cs h
lua_f_check_websocket_close-IsCounted serv c cs false true h = close_client-IsCounted serv c cs h
lua_f_check_websocket_close-IsCounted serv c cs false false h = h
