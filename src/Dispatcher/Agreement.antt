-- ===== src/Dispatcher/Agreement.antt =====
-- The command names of app/src/command_dispatcher.cpp and those of app/src/task_manager.cpp.
use youyeetoo_rk3588_toolkit.Prelude.{◌≡◌, refl, List, [], ◌∷◌, arith, is_some, ◌∙◌, ap, sym}
use youyeetoo_rk3588_toolkit.Prelude.Text.{Text}
use youyeetoo_rk3588_toolkit.Prelude.Dict.{lookup}
use youyeetoo_rk3588_toolkit.TaskManager.{camera_tasks}
use youyeetoo_rk3588_toolkit.Dispatcher.{camera_commands, contains}

keys {ℓ} : {V : Type ℓ} → List (Text × V) → List Text
keys [] = []
keys ((k, v) ∷ m) = k ∷ keys m

contains-keys {ℓ} :
    {V : Type ℓ} (m : List (Text × V)) (name : Text)
    → contains (keys m) name ≡ is_some (lookup name m)
unfolding contains keys lookup
contains-keys [] name = refl
contains-keys ((k, v) ∷ m) name = ground (arith, contains-keys m name)

keys-camera_tasks : keys camera_tasks ≡ camera_commands
unfolding keys camera_tasks camera_commands
keys-camera_tasks = refl

-- The dispatcher submits exactly the camera task names that the task manager knows, so that the
-- task manager never meets a name of the dispatcher that it has to reject as unsupported.
pub camera_commands-agree :
    (name : Text) → contains camera_commands name ≡ is_some (lookup name camera_tasks)
camera_commands-agree name =
    ap (λ (names : List Text). contains names name) (sym keys-camera_tasks)
    ∙ contains-keys camera_tasks name
