-- ===== src/TelemetryManager/Evaluation.antt =====
-- The lifecycle, the health and the summary of app/src/telemetry_manager.cpp.
use youyeetoo_rk3588_toolkit.Prelude.{
  ℕ, ◌≡◌, ◌⊎◌, ◌↔◌, refl, ap, ◌∙◌, Bool, true, false, List, [], ◌∷◌, ◌++◌, Option, none, some,
  arith, get_or, drop,
}
use youyeetoo_rk3588_toolkit.Prelude.Text.{Text, codes, split}
use youyeetoo_rk3588_toolkit.Prelude.Splitting.{Lacks, lacks-Lacks, Lacks-append, split-append}
use youyeetoo_rk3588_toolkit.Number.{to_string, read_digits}
use youyeetoo_rk3588_toolkit.Number.Decimal.{AllDigits, to_string-AllDigits, read_digits-to_string}
use youyeetoo_rk3588_toolkit.Camera.{CameraDeviceState, CameraControllerSnapshot, idle, busy}
use youyeetoo_rk3588_toolkit.Service.{Service}
use youyeetoo_rk3588_toolkit.TaskManager.{ICameraManager, TaskManager}
use youyeetoo_rk3588_toolkit.Telemetry.{TelemetryCommandInterface}
use youyeetoo_rk3588_toolkit.TelemetryManager.{
  ServiceLifecycleState, starting, running, degraded, stopped, fatal_state, MainServiceSnapshot,
  bool_to_yes_no, lifecycle_state_to_string, summary_details, build_summary, build_snapshot,
  evaluate_lifecycle, evaluate_health,
}

digits-Lacks : (s : Text) → AllDigits s → Lacks 32 s
digits-Lacks [] h = tt
digits-Lacks (c ∷ s) (h, hs) = (ground arith, digits-Lacks s hs)

lifecycle-Lacks :
    (l : ServiceLifecycleState) → Lacks 32 (codes "lifecycle=" ++ lifecycle_state_to_string l)
unfolding lifecycle_state_to_string codes
lifecycle-Lacks starting = lacks-Lacks 32 (codes "lifecycle=STARTING") refl
lifecycle-Lacks running = lacks-Lacks 32 (codes "lifecycle=RUNNING") refl
lifecycle-Lacks degraded = lacks-Lacks 32 (codes "lifecycle=DEGRADED") refl
lifecycle-Lacks stopped = lacks-Lacks 32 (codes "lifecycle=STOPPED") refl
lifecycle-Lacks fatal_state = lacks-Lacks 32 (codes "lifecycle=FATAL") refl

healthy-Lacks : (b : Bool) → Lacks 32 (codes "healthy=" ++ bool_to_yes_no b)
unfolding bool_to_yes_no codes
healthy-Lacks true = lacks-Lacks 32 (codes "healthy=yes") refl
healthy-Lacks false = lacks-Lacks 32 (codes "healthy=no") refl

loop-Lacks : (n : ℕ) → Lacks 32 (codes "loop=" ++ to_string n)
unfolding codes
loop-Lacks n =
    Lacks-append 32 (codes "loop=") (to_string n) (lacks-Lacks 32 (codes "loop=") refl)
      (digits-Lacks (to_string n) (to_string-AllDigits n))

profile-Lacks : Lacks 32 (codes "profile=BOARD_CONTROLLER")
unfolding codes
profile-Lacks = lacks-Lacks 32 (codes "profile=BOARD_CONTROLLER") refl

fourth_word :
    (a b c d rest : Text)
    → Lacks 32 a
    → Lacks 32 b
    → Lacks 32 c
    → Lacks 32 d
    → get_or (split 32 (a ++ (32 ∷ (b ++ (32 ∷ (c ++ (32 ∷ (d ++ (32 ∷ rest))))))))) 3 [] ≡ d
fourth_word a b c d rest la lb lc ld =
    rw
      (
        split-append 32 a (b ++ (32 ∷ (c ++ (32 ∷ (d ++ (32 ∷ rest)))))) la,
        split-append 32 b (c ++ (32 ∷ (d ++ (32 ∷ rest)))) lb,
        split-append 32 c (d ++ (32 ∷ rest)) lc,
        split-append 32 d rest ld,
      )
      refl

append_assoc : (a b c : Text) → (a ++ b) ++ c ≡ a ++ (b ++ c)
append_assoc [] b c = refl
append_assoc (x ∷ a) b c = ap (λ (s : Text). x ∷ s) (append_assoc a b c)

-- Four words and more, with something behind them.
words-append :
    (a b c d rest more : Text)
    → (a ++ (32 ∷ (b ++ (32 ∷ (c ++ (32 ∷ (d ++ (32 ∷ rest)))))))) ++ more
      ≡ a ++ (32 ∷ (b ++ (32 ∷ (c ++ (32 ∷ (d ++ (32 ∷ (rest ++ more))))))))
words-append a b c d rest more =
    append_assoc a (32 ∷ (b ++ (32 ∷ (c ++ (32 ∷ (d ++ (32 ∷ rest))))))) more
    ∙ ap (λ t. a ++ (32 ∷ t))
        (append_assoc b (32 ∷ (c ++ (32 ∷ (d ++ (32 ∷ rest))))) more
          ∙ ap (λ t. b ++ (32 ∷ t))
              (append_assoc c (32 ∷ (d ++ (32 ∷ rest))) more
                ∙ ap (λ t. c ++ (32 ∷ t)) (append_assoc d (32 ∷ rest) more)))

-- The number behind "loop=" in the fourth word of a text.
unfoldable pub logged_count : Text → Option ℕ
unfolding read_digits split
logged_count s = read_digits 10 none (drop 5 (get_or (split 32 s) 3 []))

-- The loop count is read back from a summary, whatever follows it.
pub logged_count-build_summary :
    (s : MainServiceSnapshot) (more : Text)
    → logged_count (build_summary s ++ more) ≡ some s.loop_count
unfolding logged_count build_summary codes
logged_count-build_summary s more =
    let profile : Text = codes "profile=BOARD_CONTROLLER" in
    let lifecycle : Text = codes "lifecycle=" ++ lifecycle_state_to_string s.lifecycle_state in
    let healthy : Text = codes "healthy=" ++ bool_to_yes_no s.healthy in
    let loop : Text = codes "loop=" ++ to_string s.loop_count in
    ap logged_count (words-append profile lifecycle healthy loop (summary_details s) more)
    ∙ ap (λ w. read_digits 10 none (drop 5 w))
        (fourth_word profile lifecycle healthy loop (summary_details s ++ more) profile-Lacks
          (lifecycle-Lacks s.lifecycle_state) (healthy-Lacks s.healthy) (loop-Lacks s.loop_count))
    ∙ read_digits-to_string s.loop_count

is_running_device :
    (device : CameraDeviceState) (bootstrapped : Bool)
    → (evaluate_health (evaluate_lifecycle device bootstrapped) ≡ true)
      ↔ ((bootstrapped ≡ true) × ((device ≡ idle) ⊎ (device ≡ busy)))
unfolding evaluate_lifecycle evaluate_health
is_running_device device bootstrapped = ground arith

-- The service is healthy exactly if it has been bootstrapped and the camera is idle or busy.
pub build_snapshot-healthy :
    (cm : ICameraManager) (loop_count : ℕ) (camera : CameraControllerSnapshot)
    (tm : TaskManager cm.State) (services : List (Text × Service)) (tci : TelemetryCommandInterface)
    → ((build_snapshot cm loop_count camera tm services tci).healthy ≡ true)
      ↔ ((tm.bootstrapped ≡ true) × ((camera.device_state ≡ idle) ⊎ (camera.device_state ≡ busy)))
unfolding build_snapshot
build_snapshot-healthy cm loop_count camera tm services tci =
    is_running_device camera.device_state tm.bootstrapped
