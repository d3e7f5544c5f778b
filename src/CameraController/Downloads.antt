-- ===== src/CameraController/Downloads.antt =====
-- The download of one file in app/src/camera_controller.cpp: to a path with the suffix .part, from
-- which it is renamed when it is complete.
pub mod Atomic
use youyeetoo_rk3588_toolkit.Prelude.{
  ℕ, ◌+◌, ◌-◌, ◌*◌, Bool, true, false, not, ◌&&◌, ◌||◌, [], ◌∷◌, ◌++◌, Option, none, some, ℤ, pos,
  negsuc, leb, length, drop, if◌then◌else◌,
}
use youyeetoo_rk3588_toolkit.Prelude.Text.{Text, codes, is_empty, text_eq}
use youyeetoo_rk3588_toolkit.Number.{to_string}
use youyeetoo_rk3588_toolkit.FileSystem.{FileSystem, exists, remove, rename}
use youyeetoo_rk3588_toolkit.CameraController.{Platform, Session, fail}
use youyeetoo_rk3588_toolkit.CameraController.Queries.{on_snapshot}
use youyeetoo_rk3588_toolkit.CameraController.Results.{write_metadata_file}

-- std::tolower in the C locale
abbrev lower : ℕ → ℕ
lower c = if leb b'A' c && leb c b'Z' then c + 32 else c

abbrev lower_text : Text → Text
lower_text [] = []
lower_text (c ∷ s) = lower c ∷ lower_text s

-- EndsWithIgnoreCase
unfoldable pub ends_with_ignore_case : Text → Text → Bool
unfolding text_eq
ends_with_ignore_case value suffix =
    leb (length suffix) (length value)
    && text_eq (lower_text (drop (length value - length suffix) value)) (lower_text suffix)

-- IsVideoLikeMediaPath
unfoldable pub is_video_like_media_path : Text → Bool
unfolding ends_with_ignore_case
is_video_like_media_path path =
    (ends_with_ignore_case path (codes ".insv") || ends_with_ignore_case path (codes ".mp4"))
    || ends_with_ignore_case path (codes ".lrv")

-- The larger of an `int` and a number.
abbrev at_least : ℕ → ℤ → ℕ
at_least n (pos k) = if leb n k then k else n
at_least n (negsuc k) = n

-- DownloadTimeoutMsForRemotePath
unfoldable pub download_timeout_ms : ℤ → Text → ℕ
unfolding is_video_like_media_path
download_timeout_ms timeout_ms remote_path =
    let base = at_least 60_000 timeout_ms in
    if is_video_like_media_path remote_path then at_least 180_000 (pos (base * 3)) else base

abbrev pub part_path : Text → Text
part_path local_path = local_path ++ codes ".part"

module _ (p : Platform) where
  open p use {Device, clock, download_media, rename_error}

  abbrev pub with_files : FileSystem → Session Device → Session Device
  with_files files s = record s { files = files }

  -- What follows in FinalizeSingleDownload when the SDK has failed.
  unfoldable pub download_failed :
      Text → Text → ℕ → (started : ℕ) → Text → Session Device → Session Device
  unfolding fail remove to_string
  download_failed remote_path temp_path timeout_ms started sdk_error s =
      fail p
        (codes "failed to download remote_path="
          ++ remote_path
          ++ codes " local_temp_path="
          ++ temp_path
          ++ codes " timeout_ms="
          ++ to_string timeout_ms
          ++ codes " elapsed="
          ++ (to_string (clock s.device - started) ++ codes "ms")
          ++ codes " sdk_error="
          ++ (if is_empty sdk_error then codes "unknown" else sdk_error))
        (with_files (remove temp_path s.files) s)

  -- What follows when the file is in its place.
  unfoldable pub record_download : Text → Text → Bool → Session Device → Bool × Session Device
  unfolding fail write_metadata_file
  record_download remote_path local_path recovered s =
      let (failure, s') = write_metadata_file p local_path remote_path recovered s in
      elim failure [
        | none ↦ (true, on_snapshot p (λ n. record n { outputs = n.outputs ++ local_path ∷ [] }) s')
        | some _ ↦ (
          false,
          fail p
              (codes "failed to write metadata remote_path="
                ++ remote_path
                ++ codes " local_final_path="
                ++ local_path)
              s',
        )
      ]

  -- What follows the attempt to rename the temporary file.
  unfoldable pub renamed :
      Text → Text → Bool → Option FileSystem → Session Device → Bool × Session Device
  unfolding remove fail record_download
  renamed remote_path local_path recovered (some files) s =
      record_download remote_path local_path recovered (with_files files s)
  renamed remote_path local_path recovered none s =
      let temp_path = part_path local_path in
      (
        false,
        fail p
            (codes "failed to finalize download remote_path="
              ++ remote_path
              ++ codes " local_temp_path="
              ++ temp_path
              ++ codes " local_final_path="
              ++ local_path
              ++ codes " rename_error="
              ++ rename_error temp_path local_path s.device)
            (with_files (remove temp_path s.files) s),
      )

  -- What follows the download by the SDK, which started at the given time.
  unfoldable pub fetched :
      Text
      → Text
      → (timeout_ms started : ℕ) → Bool
      → Option Text
      → Session Device
      → Bool × Session Device
  unfolding download_failed rename renamed
  fetched remote_path local_path timeout_ms started recovered (some sdk_error) s =
      (false, download_failed remote_path (part_path local_path) timeout_ms started sdk_error s)
  fetched remote_path local_path timeout_ms started recovered none s =
      renamed remote_path local_path recovered (rename (part_path local_path) local_path s.files) s

  -- FinalizeSingleDownload
  unfoldable pub finalize_single_download : Text → Text → Session Device → Bool × Session Device
  unfolding download_timeout_ms exists remove fetched
  finalize_single_download remote_path local_path s =
      let temp_path = part_path local_path in
      let timeout_ms = download_timeout_ms s.controller.options.timeout_ms remote_path in
      let recovered =
        exists temp_path s.files
        || (exists local_path s.files && not (exists (local_path ++ codes ".json") s.files)) in
      let (failure, device, files) =
        download_media remote_path temp_path (pos timeout_ms) s.device (remove temp_path s.files) in
      fetched remote_path local_path timeout_ms (clock s.device) recovered failure
        (record s { device = device; files = files })
