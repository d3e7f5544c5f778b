-- ===== src/CameraController/Photo.antt =====
-- The photo tasks of app/src/camera_controller.cpp. BeginPhotoTask and ContinuePhotoTask call each
-- other once for each photo of a sequence; here a call gives back whether it would call
-- BeginPhotoTask again, and `begin_photo` is that recursion, on fuel. `none` is fuel that ran out.
pub mod Termination
use youyeetoo_rk3588_toolkit.Prelude.{
  ℕ, zero, suc, ◌+◌, ◌-◌, Bool, true, false, not, ◌&&◌, List, [], ◌∷◌, ◌++◌, Option, none, some, ℤ,
  pos, negsuc, suc_ℤ, leb_ℤ, add_ℤ, ltb, length, get_elem?, if◌then◌else◌,
}
use youyeetoo_rk3588_toolkit.Prelude.Text.{Text, codes, is_empty}
use youyeetoo_rk3588_toolkit.Number.{to_string}
use youyeetoo_rk3588_toolkit.Camera.{
  CameraTaskType, CameraTaskState, auto_photo_sequence, precheck, capturing, downloading, verifying,
  busy,
}
use youyeetoo_rk3588_toolkit.CameraController.{
  Platform, CameraController, TaskContext, Session, fail, complete, enter, set_task_state,
  set_device_state,
}
use youyeetoo_rk3588_toolkit.CameraController.Files.{
  join_path, file_name_from_url, ensure_directory_exists,
}
use youyeetoo_rk3588_toolkit.CameraController.Queries.{with_device, on_snapshot}
use youyeetoo_rk3588_toolkit.CameraController.Downloads.{finalize_single_download}

abbrev is_sequence : CameraTaskType → Bool
is_sequence auto_photo_sequence = true
is_sequence _ = false

abbrev pub is_downloading : CameraTaskState → Bool
is_downloading downloading = true
is_downloading _ = false

abbrev pub is_verifying : CameraTaskState → Bool
is_verifying verifying = true
is_verifying _ = false

-- How many photos there are between two counts.
pub gap : (completed total : ℤ) → ℕ
gap (pos c) (pos t) = t - c
gap (pos c) (negsuc t) = 0
gap (negsuc c) (pos t) = t + suc c
gap (negsuc c) (negsuc t) = c - t

-- The photos that the task has still to take.
unfoldable pub remaining : CameraController → ℕ
unfolding gap
remaining c = gap c.snapshot.completed_iterations c.snapshot.total_iterations

module _ (p : Platform) where
  open p use {Device, clock, is_connected, set_normal_photo_mode, take_photo}

  abbrev pub on_task : (TaskContext → TaskContext) → Session Device → Session Device
  on_task f s = record s { controller = record s.controller { task = f s.controller.task } }

  abbrev pub to_state : CameraTaskState → Session Device → Session Device
  to_state state s = record s { controller = set_task_state (clock s.device) state s.controller }

  -- The deadline counted from the time of the tick.
  abbrev extend : ℕ → Session Device → Session Device
  extend now s = on_task (λ t. record t { deadline = add_ℤ now s.controller.options.timeout_ms }) s

  -- DownloadCurrentRemoteFile
  unfoldable pub download_current_remote_file : Session Device → Bool × Session Device
  unfolding fail finalize_single_download
  download_current_remote_file s =
      let task = s.controller.task in
      elim (get_elem? task.pending_remote_urls task.download_index) [
        | none ↦ (false, fail p (codes "download index out of range") s)
        | some remote_path ↦
            finalize_single_download p remote_path
              (join_path task.request.output_dir (file_name_from_url remote_path)) s
      ]

  -- ContinuePhotoTask, the part for the state Verifying.
  unfoldable pub verify_photo : Session Device → Bool × Session Device
  unfolding complete set_task_state to_string
  verify_photo s =
      let s1 =
        on_snapshot p (λ n. record n { completed_iterations = suc_ℤ n.completed_iterations }) s in
      let n = s1.controller.snapshot in
      if not (leb_ℤ n.total_iterations n.completed_iterations)
        && is_sequence s1.controller.task.request.task_type
      then (
        true,
        to_state capturing
            (on_task (λ t. record t { pending_remote_urls = []; download_index = 0 }) s1),
      )
      else (
        false,
        complete p (codes "downloaded " ++ to_string (length n.outputs) ++ codes " file(s)") s1,
      )

  -- ContinuePhotoTask, the part for the state Downloading.
  unfoldable pub download_photo : ℕ → Session Device → Bool × Session Device
  unfolding download_current_remote_file set_task_state verify_photo
  download_photo now s =
      let (downloaded, s1) = download_current_remote_file s in
      let s2 = on_task (λ t. record t { download_index = t.download_index + 1 }) s1 in
      let task = s2.controller.task in
      if downloaded
      then if ltb task.download_index (length task.pending_remote_urls)
        then (false, extend now (to_state downloading s2))
        else verify_photo (to_state verifying s2)
      else (false, s1)

  -- ContinuePhotoTask
  unfoldable pub continue_photo : ℕ → Session Device → Bool × Session Device
  unfolding download_photo verify_photo
  continue_photo now s =
      let state = s.controller.snapshot.task_state in
      if is_downloading state
      then download_photo now s
      else if is_verifying state
      then verify_photo s
      else (false, s)

  -- BeginPhotoTask from the change of the mode on.
  unfoldable pub shoot : ℕ → Session Device → Bool × Session Device
  unfolding fail set_task_state continue_photo
  shoot now s =
      let (switched, device) = set_normal_photo_mode s.device in
      let s1 = with_device p device s in
      let s2 = to_state capturing s1 in
      let (capture, device') = take_photo s2.device in
      let s3 = with_device p device' s2 in
      if switched
      then if is_empty capture.origin_urls
        then (false, fail p (codes "take photo returned no media url") s3)
        else continue_photo now (
            to_state downloading (
              on_task
                (λ t. record t { pending_remote_urls = capture.origin_urls; download_index = 0 })
                s3))
      else (false, fail p (codes "failed to switch to normal photo mode") s1)

  -- BeginPhotoTask
  unfoldable pub begin_once : ℕ → Session Device → Bool × Session Device
  unfolding fail ensure_directory_exists enter shoot
  begin_once now s =
      let (failure, s1) = ensure_directory_exists p s.controller.task.request.output_dir s in
      if is_connected s.device
      then (elim failure [
        | some message ↦ (false, fail p message s1)
        | none ↦ shoot now (extend now (enter p precheck s1))
      ])
      else (false, fail p (codes "camera is not connected") s)

  unfoldable pub begin_photo : (fuel now : ℕ) → Session Device → Option (Session Device)
  unfolding begin_once
  begin_photo zero now s = none
  begin_photo (suc fuel) now s =
      let (again, s') = begin_once now s in
      let rest = begin_photo fuel now s' in if again then rest else some s'

  -- A call that may go on with BeginPhotoTask, as often as there are photos to take.
  unfoldable pub photos : ℕ → Bool × Session Device → Option (Session Device)
  unfolding begin_photo remaining
  photos now (again, s) = if again then begin_photo (suc (remaining s.controller)) now s else some s
