-- ===== src/UserDataStore.antt =====
-- The paths of app/src/user_data_store.cpp.
use youyeetoo_rk3588_toolkit.Prelude.{
  ℕ, Bool, false, ◌&&◌, ◌||◌, List, [], ◌∷◌, ◌++◌, none, some, leb, if◌then◌else◌, map,
}
use youyeetoo_rk3588_toolkit.Prelude.Text.{Text, codes, text_eq, is_digit, is_empty}
use youyeetoo_rk3588_toolkit.FileSystem.{FileSystem, lines, path_append}

-- std::isalnum in the C locale
abbrev pub is_alnum : ℕ → Bool
is_alnum c = is_digit c || (leb b'A' c && leb c b'Z') || (leb b'a' c && leb c b'z')

unfoldable pub sanitize_namespace : Text → Text
sanitize_namespace value = map (λ ch. if is_alnum ch then ch else b'_') value

unfoldable pub build_namespaced_path : Text → Text → Text → Text → Text
build_namespaced_path base_name extension camera_namespace runtime_root =
    let stem = runtime_root ++ (b'/' ∷ base_name) in
    (if is_empty camera_namespace then stem else stem ++ (b'_' ∷ camera_namespace)) ++ extension

unfoldable pub storage_mode_flag_path : Text
storage_mode_flag_path = codes "/run/youyeetoo/storage_mode"

abbrev first_line : List Text → Text
first_line [] = []
first_line (l ∷ ls) = l

unfoldable pub use_nvme_storage_mode : FileSystem → Bool
unfolding storage_mode_flag_path lines
use_nvme_storage_mode fs = elim (fs.contents storage_mode_flag_path) [
  | none ↦ false
  | some text ↦ text_eq (first_line (lines text)) (codes "nvme_ok")
]

unfoldable pub camera_root_dir : FileSystem → Text
unfolding use_nvme_storage_mode
camera_root_dir fs =
    if use_nvme_storage_mode fs
    then codes "/data/youyeetoo/camera"
    else codes "/opt/youyeetoo_app/runtime_data/camera"

unfoldable pub runtime_root_dir : FileSystem → Text
unfolding use_nvme_storage_mode
runtime_root_dir fs =
    if use_nvme_storage_mode fs
    then codes "/data/youyeetoo/runtime"
    else codes "/var/opt/youyeetoo/runtime"

unfoldable pub build_runtime_path : Text → Text → Text → FileSystem → Text
unfolding sanitize_namespace build_namespaced_path runtime_root_dir
build_runtime_path base_name extension camera_namespace fs =
    build_namespaced_path base_name extension (sanitize_namespace camera_namespace)
      (runtime_root_dir fs)

-- FileSystemUserDataStore::DefaultOutputDir, for the store's own, sanitized namespace.
unfoldable pub default_output_dir : Text → FileSystem → Text
unfolding camera_root_dir
default_output_dir camera_namespace fs =
    if is_empty camera_namespace
    then camera_root_dir fs
    else path_append (camera_root_dir fs) camera_namespace
