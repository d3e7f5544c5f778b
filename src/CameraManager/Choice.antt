-- ===== src/CameraManager/Choice.antt =====
-- The sessions of app/src/camera_manager.cpp: the reference to the session that is chosen for a task
-- fits it, and what HasActiveTask, IsTaskFinished and snapshot say of a session with a new task.
use youyeetoo_rk3588_toolkit.Prelude.{
  arith, ◌≡◌, refl, sym, ap, ◌∙◌, Bool, true, false, not, ◌&&◌, ◌||◌, List, [], ◌∷◌, Option, none,
  some, All, if◌then◌else◌,
}
use youyeetoo_rk3588_toolkit.Prelude.Text.{
  Text, codes, text_eq, text_eq_refl, text_eq_iff, is_empty,
}
use youyeetoo_rk3588_toolkit.Prelude.Dict.{lookup}
use youyeetoo_rk3588_toolkit.Camera.{CameraTaskRequest, queued}
use youyeetoo_rk3588_toolkit.CameraController.{
  Platform, CameraController, is_task_finished, is_final,
}
use youyeetoo_rk3588_toolkit.CameraController.Lifecycle.{IsQueued}
use youyeetoo_rk3588_toolkit.CameraManager.{
  CameraSession, CameraManager, SessionRef, default, named, session_key, put, put_session,
  has_active_task, any_active, is_active_task_finished, active_snapshot,
}
use youyeetoo_rk3588_toolkit.CameraManager.Requests.{
  choose_session, get_or_create_session, find_named, find_session_by_actual_serial, new_session,
}

lookup-put {ℓ} :
    {V : Type ℓ} (k : Text) (v : V) (m : List (Text × V)) → lookup k (put k v m) ≡ some v
unfolding lookup put
lookup-put k v [] = ground (arith, text_eq_refl k)
lookup-put k v ((j, w) ∷ m) = ground (arith, text_eq_refl k, lookup-put k v m)

any_active-put :
    {D : Type 0} (k : Text) (s : CameraSession D) (m : List (Text × CameraSession D))
    → s.controller.has_task ≡ true
    → any_active (put k s m) ≡ true
unfolding any_active put
any_active-put k s [] h = ground arith
any_active-put k s ((j, t) ∷ m) h = ground (arith, any_active-put k s m h)

-- A reference to a session fits its target: the key is the target, and none that is reserved.
unfoldable pub IsRef : {D : Type 0} → SessionRef → CameraSession D → Type 0
IsRef default s = s.target_serial ≡ []
IsRef (named key) s =
    (s.target_serial ≡ key) × (is_empty key ≡ false) × (text_eq key (codes "__default__") ≡ false)

-- The references to all sessions fit.
unfoldable pub IsKeyed : {D : Type 0} → CameraManager D → Type 0
unfolding IsRef
IsKeyed cm = IsRef default cm.default_session × All (λ e. IsRef (named e.0) e.1) cm.named_sessions

lookup-IsRef :
    {D : Type 0} (k : Text) (m : List (Text × CameraSession D)) (s : CameraSession D)
    → All (λ e. IsRef (named e.0) e.1) m
    → lookup k m ≡ some s
    → IsRef (named k) s
unfolding lookup IsRef
lookup-IsRef k [] s h e = ground arith
lookup-IsRef k ((j, t) ∷ m) s (h, hs) e = ground (arith, text_eq_iff j k, lookup-IsRef k m s hs)

-- What the manager says behind a task that a session has taken.
unfoldable pub IsActive : {D : Type 0} → CameraManager D → Type 0
IsActive cm =
    (has_active_task cm ≡ true)
    × ((active_snapshot cm).task_state ≡ queued)
    × (is_active_task_finished cm ≡ false)

reserved_nonempty : is_empty (codes "__default__") ≡ false
unfolding codes
reserved_nonempty = refl

pub put_session-IsActive :
    {D : Type 0} (ref : SessionRef) (s : CameraSession D) (cm : CameraManager D)
    → IsRef ref s
    → s.controller.has_task ≡ true
    → s.controller.snapshot.task_state ≡ queued
    → cm.last_active_session_key ≡ session_key s.target_serial
    → IsActive (put_session ref s cm)
unfolding IsRef IsActive put_session has_active_task active_snapshot is_active_task_finished
    is_task_finished is_final
put_session-IsActive default s cm r h q e =
    let key : cm.last_active_session_key ≡ codes "__default__" = e ∙ ap session_key r in
    ground (arith, key, text_eq_refl (codes "__default__"), reserved_nonempty)
put_session-IsActive (named key) s cm r h q e =
    let own : session_key key ≡ key = ground (arith, r) in
    let last : cm.last_active_session_key ≡ key = e ∙ ap session_key r.0 ∙ own in
    ground
      (arith, last, lookup-put key s cm.named_sessions, any_active-put key s cm.named_sessions h)

pub IsQueued-state :
    (request : CameraTaskRequest) (c : CameraController)
    → IsQueued request c
    → (c.has_task ≡ true) × (c.snapshot.task_state ≡ queued)
unfolding IsQueued
IsQueued-state request c h = (h.0, h.1)

pub either_way : {A : Type 0} {b : Bool} → b ≡ true → b ≡ false → A
either_way h k = ground arith

module _ (p : Platform) where
  open p use {Device, current_serial_number}

  -- A session that was chosen, with the reference to it, if there is one.
  unfoldable pub Fits : Option (SessionRef × CameraSession Device) → Type 0
  unfolding IsRef
  Fits none = Unit
  Fits (some (ref, s)) = IsRef ref s

  if-Fits :
      (b : Bool) (x y : Option (SessionRef × CameraSession Device))
      → Fits x
      → Fits y
      → Fits (if b then x else y)
  if-Fits true x y h k = h
  if-Fits false x y h k = k

  unless-Fits :
      (b : Bool) (x y : SessionRef × CameraSession Device)
      → Fits (some x)
      → (b ≡ false → Fits (some y))
      → Fits (some (if b then x else y))
  unless-Fits true x y h k = h
  unless-Fits false x y h k = k refl

  find_named-Fits :
      (serial : Text) (m : List (Text × CameraSession Device))
      → All (λ e. IsRef (named e.0) e.1) m
      → Fits (find_named p serial m)
  unfolding find_named Fits
  find_named-Fits serial [] h = tt
  find_named-Fits serial ((k, s) ∷ m) (h, hs) =
      if-Fits (text_eq (current_serial_number s.device) serial) (some (named k, s)) _ h
        (find_named-Fits serial m hs)

  find_session_by_actual_serial-Fits :
      (serial : Text) (cm : CameraManager Device)
      → IsKeyed cm
      → Fits (find_session_by_actual_serial p serial cm)
  unfolding find_session_by_actual_serial Fits IsKeyed
  find_session_by_actual_serial-Fits serial cm (d, ns) = if-Fits (is_empty serial) none _ tt (
      if-Fits (text_eq (current_serial_number cm.default_session.device) serial)
        (some (default, cm.default_session)) _ d (find_named-Fits serial cm.named_sessions ns))

  get_or_create_session-Fits :
      (adapter : Device) (serial : Text) (cm : CameraManager Device)
      → IsKeyed cm
      → text_eq serial (codes "__default__") ≡ false
      → Fits (some (get_or_create_session p adapter serial cm))
  unfolding get_or_create_session Fits IsKeyed new_session IsRef
  get_or_create_session-Fits adapter serial cm (d, ns) k =
      unless-Fits
        (is_empty serial
          || (not (is_empty cm.options.serial_number) && text_eq serial cm.options.serial_number))
        (default, cm.default_session) _ d
        (λ e.
          by_key (session_key serial) (lookup (session_key serial) cm.named_sessions) (ground arith)
            refl)
    where
      by_key :
          (key : Text) (o : Option (CameraSession Device))
          → (key ≡ serial) × (is_empty serial ≡ false)
          → lookup key cm.named_sessions ≡ o
          → Fits (
              some (elim o [
                | some s ↦ (named key, s)
                | none ↦ (named key, new_session p adapter serial cm)
              ]))
      by_key key (some s) (same, there) e = lookup-IsRef key cm.named_sessions s ns e
      by_key key none (same, there) e =
          (sym same, ap is_empty same ∙ there, ap (λ t. text_eq t (codes "__default__")) same ∙ k)

  pub choose_session-Fits :
      (adapter : Device) (serial : Text) (cm : CameraManager Device)
      → IsKeyed cm
      → text_eq serial (codes "__default__") ≡ false
      → Fits (some (choose_session p adapter serial cm))
  unfolding choose_session
  choose_session-Fits adapter serial cm h k =
      either (find_session_by_actual_serial p serial cm)
        (find_session_by_actual_serial-Fits serial cm h)
    where
      either :
          (o : Option (SessionRef × CameraSession Device))
          → Fits o
          → Fits (
              some (elim o [
                | some chosen ↦ chosen
                | none ↦ get_or_create_session p adapter serial cm
              ]))
      either (some chosen) f = f
      either none f = get_or_create_session-Fits adapter serial cm h k
