-- ===== src/CanWorker/Failover.antt =====
-- The change to the backup interface in app/src/can_worker.cpp.
use youyeetoo_rk3588_toolkit.Prelude.{
  ℕ, ◌+◌, ◌≤◌, ◌≡◌, refl, ◌∙◌, ℤ, pos, Bool, true, false, not, ◌||◌, ◌⊎◌, List, [], ◌∷◌, All, arith,
  is_nonneg, eq_ℤ_iff, leb, ltb, if◌then◌else◌, Bool-cases, inl, inr, length,
}
use youyeetoo_rk3588_toolkit.Prelude.Text.{Text}
use youyeetoo_rk3588_toolkit.FileSystem.{FileSystem}
use youyeetoo_rk3588_toolkit.Can.{CanConfig, CommandMap}
use youyeetoo_rk3588_toolkit.CanWorker.{
  CanWorker, ReadOutcome, would_block, read_error, short_read, received, transmit, receive,
  switch_over, send_telemetry, report_status, start_worker,
}
use youyeetoo_rk3588_toolkit.CanWorker.Loop.{
  Round, PollOutcome, ready, interrupted, poll_failed, transmit_all, receive_all, bus_round,
  loop_round, rounds,
}

-- Frames go to the backup interface, which is open, after the change, and before it to the primary
-- interface if that is open.
pub record IsRouted (w : CanWorker) : Type 0 where
  pub target : w.active_tx_fd ≡ (
      if w.using_backup
      then w.backup_fd
      else if is_nonneg w.primary_fd
      then w.primary_fd
      else w.backup_fd)
  pub open_backup : (not w.using_backup || is_nonneg w.backup_fd) ≡ true

pub receive-IsRouted :
    (fd : ℤ) (outcome : ReadOutcome) (w : CanWorker) (fs : FileSystem)
    → IsRouted w
    → IsRouted (receive fd outcome (w, fs)).0
unfolding receive
receive-IsRouted fd would_block w fs h = h
receive-IsRouted fd read_error w fs h = record { target = h.target; open_backup = h.open_backup }
receive-IsRouted fd short_read w fs h = h
receive-IsRouted fd (received can_id dlc bytes) w fs h = record {
  target = h.target;
  open_backup = h.open_backup;
}

pub receive_all-IsRouted :
    (reads : List (ℤ × ReadOutcome)) (w : CanWorker) (fs : FileSystem)
    → IsRouted w
    → IsRouted (receive_all reads (w, fs)).0
unfolding receive_all
receive_all-IsRouted [] w fs h = h
receive_all-IsRouted ((fd, outcome) ∷ rest) w fs h =
    receive_all-IsRouted rest (receive fd outcome (w, fs)).0 (receive fd outcome (w, fs)).1
      (receive-IsRouted fd outcome w fs h)

-- What the sending of frames and of the status leaves alone.
abbrev pub SameRoute : CanWorker → CanWorker → Type 0
SameRoute w w' =
    (w'.active_tx_fd ≡ w.active_tx_fd)
    × (w'.using_backup ≡ w.using_backup)
    × (w'.primary_fd ≡ w.primary_fd)
    × (w'.backup_fd ≡ w.backup_fd)
    × (w'.primary_errors ≡ w.primary_errors)
    × (w'.cfg ≡ w.cfg)

pub transmit-SameRoute :
    (msg : Text) (write_ok : Bool) (w : CanWorker) → SameRoute w (transmit msg write_ok w).0
unfolding transmit
transmit-SameRoute msg write_ok w = ground arith

pub SameRoute-IsRouted : (w w' : CanWorker) → SameRoute w w' → IsRouted w → IsRouted w'
SameRoute-IsRouted w w' (a, u, p, b, _, _) h = record {
  target = rw (a, u, p, b) h.target;
  open_backup = rw (u, b) h.open_backup;
}

pub transmit_all-IsRouted :
    (messages : List (Text × Bool)) (w : CanWorker)
    → IsRouted w
    → IsRouted (transmit_all messages w).0
unfolding transmit_all
transmit_all-IsRouted [] w h = h
transmit_all-IsRouted ((msg, write_ok) ∷ rest) w h =
    transmit_all-IsRouted rest (transmit msg write_ok w).0
      (SameRoute-IsRouted w (transmit msg write_ok w).0 (transmit-SameRoute msg write_ok w) h)

pub switch_over-IsRouted : (w : CanWorker) → IsRouted w → IsRouted (switch_over w)
unfolding switch_over
switch_over-IsRouted w h =
    let target = h.target in
    let open_backup = h.open_backup in record { target = ground arith; open_backup = ground arith }

pub send_telemetry-SameRoute :
    (now : ℕ) (write_ok : Bool) (w : CanWorker) → SameRoute w (send_telemetry now write_ok w).0
unfolding send_telemetry
send_telemetry-SameRoute now write_ok w = ground arith

pub report_status-SameRoute : (now : ℕ) (w : CanWorker) → SameRoute w (report_status now w).0
unfolding report_status
report_status-SameRoute now w = ground arith

bus_round-IsRouted :
    (r : Round) (w : CanWorker) (fs : FileSystem) → IsRouted w → IsRouted (bus_round r w fs).worker
unfolding bus_round
bus_round-IsRouted r w fs h =
    let w1 = (receive_all r.reads (w, fs)).0 in
    let w2 = switch_over w1 in
    let w3 = (send_telemetry r.now r.telemetry_write_ok w2).0 in
    SameRoute-IsRouted w3 (report_status r.now w3).0 (report_status-SameRoute r.now w3) (
      SameRoute-IsRouted w2 w3 (send_telemetry-SameRoute r.now r.telemetry_write_ok w2)
        (switch_over-IsRouted w1 (receive_all-IsRouted r.reads w fs h)))

pub PollOutcome-cases : (p : PollOutcome) → (p ≡ ready) ⊎ ((p ≡ interrupted) ⊎ (p ≡ poll_failed))
PollOutcome-cases ready = inl refl
PollOutcome-cases interrupted = inr (inl refl)
PollOutcome-cases poll_failed = inr (inr refl)

pub loop_round-IsRouted :
    (r : Round) (w : CanWorker) (fs : FileSystem) → IsRouted w → IsRouted (loop_round r w fs).worker
unfolding loop_round
loop_round-IsRouted r w fs h =
    let w' = (transmit_all r.messages w).0 in
    let h' = transmit_all-IsRouted r.messages w h in
    elim (PollOutcome-cases r.poll) [
      | inl e ↦ rw e (elim (Bool-cases r.hangup) [
        | inl hung ↦ rw hung h
        | inr there ↦ rw there (elim (Bool-cases r.channel_error) [
          | inl broken ↦ rw broken h'
          | inr fine ↦ rw fine (bus_round-IsRouted r w' fs h')
        ])
      ])
      | inr (inl e) ↦ rw e h
      | inr (inr e) ↦ rw e h
    ]

pub rounds-IsRouted :
    (rs : List Round) (w : CanWorker) (fs : FileSystem) → IsRouted w → IsRouted (rounds rs w fs).0
unfolding rounds
rounds-IsRouted [] w fs h = h
rounds-IsRouted (r ∷ rs) w fs h =
    let o = loop_round r w fs in
    let h' = loop_round-IsRouted r w fs h in
    elim (Bool-cases o.goes_on) [
      | inl on ↦ rw on (rounds-IsRouted rs o.worker o.files h')
      | inr over ↦ rw over h'
    ]

-- A round without messages in which the only readable socket is `fd` and its read fails.
pub record IsFailing (fd : ℤ) (r : Round) : Type 0 where
  pub polled : r.poll ≡ ready
  pub there : r.hangup ≡ false
  pub quiet : r.messages ≡ []
  pub fine : r.channel_error ≡ false
  pub reads : r.reads ≡ (fd, read_error) ∷ []
  pub reported : r.status_send_ok ≡ true

switch_after :
    (w : CanWorker) (t : ℕ)
    → is_nonneg w.backup_fd ≡ true
    → w.cfg.rx_error_threshold ≡ pos t
    → ((switch_over w).using_backup ≡ (w.using_backup || leb t w.primary_errors))
      × ((switch_over w).primary_errors ≡ w.primary_errors)
      × ((switch_over w).primary_fd ≡ w.primary_fd)
      × ((switch_over w).backup_fd ≡ w.backup_fd)
      × ((switch_over w).cfg ≡ w.cfg)
unfolding switch_over
switch_after w t backup threshold = ground arith

-- What a failed read of the primary interface and the rest of its round do.
failing_bus :
    (r : Round) (w : CanWorker) (fs : FileSystem) (t : ℕ)
    → is_nonneg w.backup_fd ≡ true
    → w.cfg.rx_error_threshold ≡ pos t
    → r.reads ≡ (w.primary_fd, read_error) ∷ []
    → r.status_send_ok ≡ true
    → let o = bus_round r w fs in
      (o.goes_on ≡ true)
      × (o.worker.using_backup ≡ (w.using_backup || leb t (w.primary_errors + 1)))
      × (o.worker.primary_errors ≡ w.primary_errors + 1)
      × (o.worker.primary_fd ≡ w.primary_fd)
      × (o.worker.backup_fd ≡ w.backup_fd)
      × (o.worker.cfg ≡ w.cfg)
unfolding bus_round receive_all receive
failing_bus r w fs t backup threshold reads reported =
    let self = (eq_ℤ_iff w.primary_fd w.primary_fd).1 refl in
    let w1 = record w { error_count = w.error_count + 1; primary_errors = w.primary_errors + 1 } in
    let w2 = switch_over w1 in
    let w3 = (send_telemetry r.now r.telemetry_write_ok w2).0 in
    let (using, errors, primary, backup', cfg) = switch_after w1 t backup threshold in
    let (_, u3, p3, b3, e3, c3) = send_telemetry-SameRoute r.now r.telemetry_write_ok w2 in
    let (_, u4, p4, b4, e4, c4) = report_status-SameRoute r.now w3 in
    rw (reads, reported, self)
      (refl, u4 ∙ u3 ∙ using, e4 ∙ e3 ∙ errors, p4 ∙ p3 ∙ primary, b4 ∙ b3 ∙ backup', c4 ∙ c3 ∙ cfg)

failing_round :
    (r : Round) (w : CanWorker) (fs : FileSystem) (t : ℕ)
    → IsFailing w.primary_fd r
    → is_nonneg w.backup_fd ≡ true
    → w.cfg.rx_error_threshold ≡ pos t
    → let o = loop_round r w fs in
      (o.goes_on ≡ true)
      × (o.worker.using_backup ≡ (w.using_backup || leb t (w.primary_errors + 1)))
      × (o.worker.primary_errors ≡ w.primary_errors + 1)
      × (o.worker.primary_fd ≡ w.primary_fd)
      × (o.worker.backup_fd ≡ w.backup_fd)
      × (o.worker.cfg ≡ w.cfg)
unfolding loop_round transmit_all
failing_round r w fs t h backup threshold =
    rw (h.polled, h.there, h.quiet, h.fine)
      (failing_bus r w fs t backup threshold h.reads h.reported)

-- If every read of the primary interface fails in as many rounds as are left to the threshold of
-- errors, the worker has changed to the backup interface, and frames go there, if that is open and
-- the threshold was not yet reached.
pub failover :
    (rs : List Round) (w : CanWorker) (fs : FileSystem) (t : ℕ)
    → IsRouted w
    → is_nonneg w.backup_fd ≡ true
    → w.cfg.rx_error_threshold ≡ pos t
    → All (IsFailing w.primary_fd) rs
    → (w.using_backup || ltb w.primary_errors t) ≡ true
    → t ≤ w.primary_errors + length rs
    → ((rounds rs w fs).0.using_backup ≡ true) × ((rounds rs w fs).0.active_tx_fd ≡ w.backup_fd)
unfolding rounds
failover [] w fs t routed backup threshold failing below enough =
    let target = routed.target in ground arith
failover (r ∷ rs) w fs t routed backup threshold (h, hs) below enough =
    let o = loop_round r w fs in
    let (on, using, errors, primary, same, cfg) = failing_round r w fs t h backup threshold in
    let (there, sent) =
      failover rs o.worker o.files t (loop_round-IsRouted r w fs routed) (rw same backup)
        (rw cfg threshold) (rw primary hs) (rw (using, errors) (ground arith))
        (rw errors (omega arith)) in
    rw on (there, sent ∙ same)

-- Through any rounds from the start, frames go to the backup interface, which is open, after the
-- change, and before it to the primary interface if that is open and else to the backup one.
pub start_and_run-IsRouted :
    (cfg : CanConfig) (m : CommandMap) (inbox : Text) (primary_fd backup_fd : ℤ) (now : ℕ)
    (rs : List Round) (fs : FileSystem)
    → IsRouted (rounds rs (start_worker cfg m inbox primary_fd backup_fd now) fs).0
unfolding start_worker
start_and_run-IsRouted cfg m inbox primary_fd backup_fd now rs fs =
    rounds-IsRouted rs (start_worker cfg m inbox primary_fd backup_fd now) fs
      (record { target = refl; open_backup = refl })
