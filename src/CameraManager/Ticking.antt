-- ===== src/CameraManager/Ticking.antt =====
-- Tick of app/src/camera_manager.cpp gives a result for all its sessions.
use youyeetoo_rk3588_toolkit.Prelude.{arith, ◌≡◌, refl, List, [], ◌∷◌, Option, none, some}
use youyeetoo_rk3588_toolkit.Prelude.Text.{Text}
use youyeetoo_rk3588_toolkit.CameraController.{Platform}
use youyeetoo_rk3588_toolkit.CameraController.Finish.Ticks.{tick-ends}
use youyeetoo_rk3588_toolkit.CameraManager.{
  CameraSession, CameraManager, session_of, shared_with, after_session,
}
use youyeetoo_rk3588_toolkit.CameraManager.Requests.{tick_named, tick}

then-ends :
    {A B : Type 0} (o : Option A) (next : A → Option B)
    → ((a : A) × (o ≡ some a))
    → ((a : A) → (b : B) × (next a ≡ some b))
    → (b : B) × ((elim o [ none ↦ none | some a ↦ next a ]) ≡ some b)
then-ends none next (a, e) h = ground arith
then-ends (some x) next e h = h x

module _ (p : Platform) where
  open p use {Device}

  tick_named-ends :
      (sessions : List (Text × CameraSession Device)) (cm : CameraManager Device)
      → (r : List (Text × CameraSession Device) × CameraManager Device) × (tick_named p sessions cm
          ≡ some r)
  unfolding tick_named
  tick_named-ends [] cm = (([], cm), refl)
  tick_named-ends ((key, s) ∷ rest) cm = then-ends _ _ (tick-ends p (session_of s cm)) (λ t.
      then-ends _ _ (tick_named-ends rest (shared_with t cm))
        (λ r. (((key, after_session s t) ∷ r.0, r.1), refl)))

  -- A tick of the manager gives a result in every state of its sessions.
  pub tick-manager_ends :
      (cm : CameraManager Device) → (cm' : CameraManager Device) × (tick p cm ≡ some cm')
  unfolding tick
  tick-manager_ends cm = then-ends _ _ (tick-ends p (session_of cm.default_session cm)) (λ t.
      then-ends _ _
        (tick_named-ends cm.named_sessions
          (record (shared_with t cm) { default_session = after_session cm.default_session t }))
        (λ r. (record (r.1) { named_sessions = r.0 }, refl)))
