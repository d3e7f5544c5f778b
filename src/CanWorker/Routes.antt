-- ===== src/CanWorker/Routes.antt =====
-- The descriptors that app/src/can_worker.cpp writes its frames to.
use youyeetoo_rk3588_toolkit.Prelude.{
  ℕ, ◌+◌, ◌≤◌, ◌≡◌, refl, sym, ap, ◌∙◌, ℤ, pos, Bool, true, not, ◌||◌, List, [], ◌∷◌, ◌++◌, All,
  arith, is_nonneg, ltb, Bool-cases, inl, inr, length,
}
use mathlib.Core.Path.{subst}
use youyeetoo_rk3588_toolkit.Prelude.Text.{Text}
use youyeetoo_rk3588_toolkit.FileSystem.{FileSystem}
use youyeetoo_rk3588_toolkit.CanWorker.{
  CanWorker, ReadOutcome, would_block, read_error, short_read, received, transmit, receive,
  switch_over, send_telemetry, report_status,
}
use youyeetoo_rk3588_toolkit.CanWorker.Loop.{
  Round, transmit_all, receive_all, bus_round, loop_round, rounds,
}
use youyeetoo_rk3588_toolkit.CanWorker.Failover.{
  IsRouted, IsFailing, transmit-SameRoute, send_telemetry-SameRoute, report_status-SameRoute,
  SameRoute-IsRouted, switch_over-IsRouted, loop_round-IsRouted, receive_all-IsRouted,
  transmit_all-IsRouted, rounds-IsRouted, failover, PollOutcome-cases,
}
use youyeetoo_rk3588_toolkit.CanWorker.Sends.{
  To, Sends, then-Sends, steady-Sends, quiet-Sends, append_nil, is_empty_iff,
}

stays_self : (b : Bool) → (not b || b) ≡ true
stays_self b = ground arith

transmit-To :
    (msg : Text) (write_ok : Bool) (w : CanWorker) → To w.active_tx_fd (transmit msg write_ok w).1
unfolding transmit
transmit-To msg write_ok w = ground arith

send_telemetry-To :
    (now : ℕ) (write_ok : Bool) (w : CanWorker)
    → To w.active_tx_fd (send_telemetry now write_ok w).1
unfolding send_telemetry
send_telemetry-To now write_ok w = ground arith

transmit_all-Sends :
    (messages : List (Text × Bool)) (w : CanWorker)
    → IsRouted w
    → Sends w (transmit_all messages w).0 (transmit_all messages w).1
unfolding transmit_all
transmit_all-Sends [] w routed = quiet-Sends w w refl refl (stays_self w.using_backup)
transmit_all-Sends ((msg, write_ok) ∷ rest) w routed =
    let (w', sent) = transmit msg write_ok w in
    let same = transmit-SameRoute msg write_ok w in
    then-Sends w w' (transmit_all rest w').0 sent (transmit_all rest w').1
      (steady-Sends w w' sent routed same (transmit-To msg write_ok w))
      (transmit_all-Sends rest w' (SameRoute-IsRouted w w' same routed))

receive-Sends :
    (fd : ℤ) (outcome : ReadOutcome) (w : CanWorker) (fs : FileSystem)
    → Sends w (receive fd outcome (w, fs)).0 []
unfolding receive
receive-Sends fd would_block w fs = quiet-Sends w w refl refl (stays_self w.using_backup)
receive-Sends fd read_error w fs = quiet-Sends w _ refl refl (stays_self w.using_backup)
receive-Sends fd short_read w fs = quiet-Sends w w refl refl (stays_self w.using_backup)
receive-Sends fd (received can_id dlc bytes) w fs =
    quiet-Sends w _ refl refl (stays_self w.using_backup)

receive_all-Sends :
    (reads : List (ℤ × ReadOutcome)) (w : CanWorker) (fs : FileSystem)
    → Sends w (receive_all reads (w, fs)).0 []
unfolding receive_all
receive_all-Sends [] w fs = quiet-Sends w w refl refl (stays_self w.using_backup)
receive_all-Sends ((fd, outcome) ∷ rest) w fs =
    let (w', fs') = receive fd outcome (w, fs) in
    then-Sends w w' (receive_all rest (w', fs')).0 [] [] (receive-Sends fd outcome w fs)
      (receive_all-Sends rest w' fs')

switch_over-Sends : (w : CanWorker) → Sends w (switch_over w) []
unfolding switch_over
switch_over-Sends w = quiet-Sends w (switch_over w) (ground arith) (ground arith) (ground arith)

bus_round-Sends :
    (r : Round) (w : CanWorker) (fs : FileSystem)
    → IsRouted w
    → Sends w (bus_round r w fs).worker (bus_round r w fs).sent
unfolding bus_round
bus_round-Sends r w fs routed =
    let w1 = (receive_all r.reads (w, fs)).0 in
    let w2 = switch_over w1 in
    let (w3, sent) = send_telemetry r.now r.telemetry_write_ok w2 in
    let w4 = (report_status r.now w3).0 in
    let routed2 = switch_over-IsRouted w1 (receive_all-IsRouted r.reads w fs routed) in
    let same3 = send_telemetry-SameRoute r.now r.telemetry_write_ok w2 in
    let last : Sends w2 w4 (sent ++ []) =
      then-Sends w2 w3 w4 sent []
        (steady-Sends w2 w3 sent routed2 same3 (send_telemetry-To r.now r.telemetry_write_ok w2))
        (steady-Sends w3 w4 [] (SameRoute-IsRouted w2 w3 same3 routed2)
          (report_status-SameRoute r.now w3) tt) in
    subst (Sends w w4) (append_nil sent) (
      then-Sends w w1 w4 [] (sent ++ []) (receive_all-Sends r.reads w fs)
        (then-Sends w1 w2 w4 [] (sent ++ []) (switch_over-Sends w1) last))

loop_round-Sends :
    (r : Round) (w : CanWorker) (fs : FileSystem)
    → IsRouted w
    → Sends w (loop_round r w fs).worker (loop_round r w fs).sent
unfolding loop_round
loop_round-Sends r w fs routed =
    let (w', sent) = transmit_all r.messages w in
    let nothing : Sends w w [] = quiet-Sends w w refl refl (stays_self w.using_backup) in
    let messages : Sends w w' sent = transmit_all-Sends r.messages w routed in
    elim (PollOutcome-cases r.poll) [
      | inl e ↦ rw e (elim (Bool-cases r.hangup) [
        | inl hung ↦ rw hung nothing
        | inr there ↦ rw there (elim (Bool-cases r.channel_error) [
          | inl broken ↦ rw broken messages
          | inr fine ↦ rw fine (
              then-Sends w w' (bus_round r w' fs).worker sent (bus_round r w' fs).sent messages
                (bus_round-Sends r w' fs (transmit_all-IsRouted r.messages w routed)))
        ])
      ])
      | inr (inl e) ↦ rw e nothing
      | inr (inr e) ↦ rw e nothing
    ]

rounds-Sends :
    (rs : List Round) (w : CanWorker) (fs : FileSystem)
    → IsRouted w
    → Sends w (rounds rs w fs).0 (rounds rs w fs).2
unfolding rounds
rounds-Sends [] w fs routed = quiet-Sends w w refl refl (stays_self w.using_backup)
rounds-Sends (r ∷ rs) w fs routed =
    let o = loop_round r w fs in
    let now : Sends w o.worker o.sent = loop_round-Sends r w fs routed in
    elim (Bool-cases o.goes_on) [
      | inl on ↦
          let (w', _, more) = rounds rs o.worker o.files in
          rw on (
            then-Sends w o.worker w' o.sent more now
              (rounds-Sends rs o.worker o.files (loop_round-IsRouted r w fs routed)))
      | inr over ↦ rw over now
    ]

-- If the only thing that happens in some rounds is that a read of the primary interface fails (poll
-- succeeds, the parent's channel is there and without error, it has no messages, and it takes the
-- status), in as many rounds as are left to the threshold of errors, then the worker has changed to
-- the backup interface, and in whatever rounds follow every frame is written to it; if that is open,
-- frames were routed as from the start, and the threshold was not yet reached.
pub failover_sends :
    (rs later : List Round) (w : CanWorker) (fs : FileSystem) (t : ℕ)
    → IsRouted w
    → is_nonneg w.backup_fd ≡ true
    → w.cfg.rx_error_threshold ≡ pos t
    → All (IsFailing w.primary_fd) rs
    → (w.using_backup || ltb w.primary_errors t) ≡ true
    → t ≤ w.primary_errors + length rs
    → let (w', fs', sent) = rounds rs w fs in
      (w'.using_backup ≡ true) × To w.backup_fd (rounds later w' fs').2
failover_sends rs later w fs t routed backup threshold failing below enough =
    let (changed, _) = failover rs w fs t routed backup threshold failing below enough in
    let (w', fs', _) = rounds rs w fs in
    let now : Sends w w' (rounds rs w fs).2 = rounds-Sends rs w fs routed in
    let behind : Sends w' (rounds later w' fs').0 (rounds later w' fs').2 =
      rounds-Sends later w' fs' (rounds-IsRouted rs w fs routed) in
    let none_before : behind.before ≡ [] =
      is_empty_iff behind.before (ground (arith, behind.switched)) in
    (
      changed,
      subst (λ l. To w.backup_fd l) (sym (behind.joined ∙ ap (λ l. l ++ behind.after) none_before))
          (subst (λ b. To b behind.after) now.same_backup behind.to_backup),
    )
