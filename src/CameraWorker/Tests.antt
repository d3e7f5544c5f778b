-- ===== src/CameraWorker/Tests.antt =====
-- The messages of app/src/camera_worker.cpp at concrete inputs.
use youyeetoo_rk3588_toolkit.Prelude.{◌≡◌, refl, [], ◌∷◌}
use youyeetoo_rk3588_toolkit.Prelude.Text.{Text}
use youyeetoo_rk3588_toolkit.CameraWorker.{kv_encode, kv_decode}

-- A value with a newline and a backslash.
abbrev hard_value : Text
hard_value = 97 ∷ 10 ∷ b'\\' ∷ b'n' ∷ []

escaped : kv_encode hard_value ≡ 97 ∷ b'\\' ∷ b'n' ∷ b'\\' ∷ b'\\' ∷ b'n' ∷ []
unfolding kv_encode
escaped = refl

last_backslash : kv_decode (97 ∷ b'\\' ∷ []) ≡ 97 ∷ b'\\' ∷ []
unfolding kv_decode
last_backslash = refl
