-- ===== src/CameraController/Supplements.antt =====
-- The cameras that BeginListDevicesTask of app/src/camera_controller.cpp lists: those of the adapter,
-- supplemented by what the camera manager knows.
use youyeetoo_rk3588_toolkit.Prelude.{Bool, not, ◌&&◌, ◌||◌, List, [], ◌∷◌, if◌then◌else◌}
use youyeetoo_rk3588_toolkit.Prelude.Text.{Text, codes, is_empty, text_eq}
use youyeetoo_rk3588_toolkit.Camera.{CameraInfo}

-- The loop of BeginListDevicesTask over the listed cameras, for one supplement of the same number:
-- only what is missing is taken from it.
unfoldable pub supplement_camera : CameraInfo → CameraInfo → CameraInfo
supplement_camera supplement existing = record existing {
  camera_name =
      fill (is_placeholder existing.camera_name) existing.camera_name supplement.camera_name;
  firmware_version =
      fill (is_placeholder existing.firmware_version) existing.firmware_version
        supplement.firmware_version;
  model_key = fill (is_unknown existing.model_key) existing.model_key supplement.model_key;
  capabilities =
      fill (is_empty existing.capabilities) existing.capabilities supplement.capabilities;
}
  where
    fill : Bool → Text → Text → Text
    fill missing old new = if missing && not (is_empty new) then new else old

    is_placeholder : Text → Bool
    is_placeholder t = is_empty t || text_eq t (codes "(active-session)")

    is_unknown : Text → Bool
    is_unknown t = (is_empty t || text_eq t (codes "Unknown")) || text_eq t (codes "unknown")

unfoldable pub add_supplement : CameraInfo → List CameraInfo → List CameraInfo
unfolding supplement_camera
add_supplement supplement [] = supplement ∷ []
add_supplement supplement (camera ∷ cameras) =
    let rest = add_supplement supplement cameras in
    if text_eq camera.serial_number supplement.serial_number
    then supplement_camera supplement camera ∷ cameras
    else camera ∷ rest

unfoldable pub add_supplements : List CameraInfo → List CameraInfo → List CameraInfo
unfolding add_supplement
add_supplements [] cameras = cameras
add_supplements (supplement ∷ rest) cameras =
    add_supplements rest
      (if is_empty supplement.serial_number then cameras else add_supplement supplement cameras)
