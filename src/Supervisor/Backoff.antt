-- ===== src/Supervisor/Backoff.antt =====
-- BackoffSeconds of app/src/worker_supervisor.cpp, and the delay that a dead worker waits.
use Prim.Native.Nat.{min}
use youyeetoo_rk3588_toolkit.Prelude.{
  ℕ, zero, suc, ◌+◌, ◌*◌, ◌^◌, ◌≤◌, ◌≡◌, minus_one, eq_ℤ_iff, arith, refl, if◌then◌else◌, ltb, leb,
}
use youyeetoo_rk3588_toolkit.Supervisor.{WorkerState, backoff_seconds, reap_worker, due}

backoff_late : (n : ℕ) → 5 ≤ n → backoff_seconds n ≡ 30
unfolding backoff_seconds
backoff_late n h = let capped : min n 5 ≡ 5 = omega arith in rw capped (ground arith)

-- From the first restart on, the delay lies between 2 and 30 seconds.
pub backoff_range : (n : ℕ) → (2 ≤ backoff_seconds (n + 1)) × (backoff_seconds (n + 1) ≤ 30)
unfolding backoff_seconds
backoff_range zero = omega arith
backoff_range (suc zero) = omega arith
backoff_range (suc (suc zero)) = omega arith
backoff_range (suc (suc (suc zero))) = omega arith
backoff_range (suc (suc (suc (suc n)))) =
    omega (arith, backoff_late (suc (suc (suc (suc n))) + 1) (omega arith))

-- The delay never shrinks as restarts add up, is 1, 2, 4, 8, 16 seconds for the counts 0 to 4,
-- and is 30 seconds for every count from 5 on.
pub backoff_schedule :
    (n : ℕ)
    → (backoff_seconds n ≤ backoff_seconds (n + 1))
      × (backoff_seconds n ≡ (if ltb n 5 then 2 ^ n else 30))
unfolding backoff_seconds
backoff_schedule zero = (omega arith, refl)
backoff_schedule (suc zero) = (omega arith, refl)
backoff_schedule (suc (suc zero)) = (omega arith, refl)
backoff_schedule (suc (suc (suc zero))) = (omega arith, refl)
backoff_schedule (suc (suc (suc (suc zero)))) = (omega arith, refl)
backoff_schedule (suc (suc (suc (suc (suc n))))) =
    let late = backoff_late (suc (suc (suc (suc (suc n))))) (omega arith) in
    (
      omega (arith, late, backoff_late (suc (suc (suc (suc (suc n)))) + 1) (omega arith)),
      ground (arith, late),
    )

-- A worker whose process is found dead at time `now` is no longer running, and its restart count is
-- one higher. It is due for a restart exactly from `now` plus the back-off on, which lies between 2
-- and 30 seconds, whatever the count was.
pub dead_worker_waits :
    (ws : WorkerState) (now later : ℕ)
    → ((reap_worker ws.pid now ws).pid ≡ minus_one)
      × ((reap_worker ws.pid now ws).restart_count ≡ ws.restart_count + 1)
      × (due later (reap_worker ws.pid now ws)
          ≡ leb (now + backoff_seconds (ws.restart_count + 1) * 1000) later)
      × (2000 ≤ backoff_seconds (ws.restart_count + 1) * 1000)
      × (backoff_seconds (ws.restart_count + 1) * 1000 ≤ 30000)
unfolding reap_worker
dead_worker_waits ws now later =
    let same = (eq_ℤ_iff ws.pid ws.pid).1 refl in
    let range = backoff_range ws.restart_count in
    (ground (arith, same), ground (arith, same), ground (arith, same), omega arith, omega arith)
