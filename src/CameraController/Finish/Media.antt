-- ===== src/CameraController/Finish/Media.antt =====
-- The tasks on media of app/src/camera_controller.cpp end in the tick that runs them.
use youyeetoo_rk3588_toolkit.Prelude.{
  arith, refl, List, [], ◌∷◌, Option, ℤ, if◌then◌else◌, ◌≡◌, Bool, true, false,
}
use youyeetoo_rk3588_toolkit.Prelude.Text.{Text}
use youyeetoo_rk3588_toolkit.CameraController.{
  is_no_task, Session, Platform, is_final, is_task_finished, fail_task, complete_task, fail,
  complete, reset_task, when_connected, unless_failed,
}
use youyeetoo_rk3588_toolkit.CameraController.Queries.{finish, finish_output, on_result}
use youyeetoo_rk3588_toolkit.CameraController.Files.{join_path, file_name_from_url}
use youyeetoo_rk3588_toolkit.CameraController.Downloads.{
  finalize_single_download, download_failed, fetched, renamed, record_download,
}
use youyeetoo_rk3588_toolkit.CameraController.Media.{
  report_media, download_all, download_batch, batch_of, begin_list_media, begin_download_media,
  begin_batch_download,
}
use youyeetoo_rk3588_toolkit.CameraController.Media.Deletion.{
  begin_delete_media, begin_delete_all_media,
}
use youyeetoo_rk3588_toolkit.CameraController.Finish.{
  IsFinished, if-IsFinished, fail-IsFinished, complete-IsFinished, on_result-IsFinished,
  unless_failed-IsFinished, unless-IsFinished,
}

module _ (p : Platform) where
  open p use {Device}

  report_media-IsFinished :
      (count : Option ℤ) (files : List Text) (s : Session Device)
      → IsFinished (report_media p count files s)
  unfolding report_media
  report_media-IsFinished count files s = search (on_result-IsFinished, complete-IsFinished)

  pub begin_list_media-IsFinished : (s : Session Device) → IsFinished (begin_list_media p s)
  unfolding begin_list_media when_connected
  begin_list_media-IsFinished s = search (if-IsFinished, fail-IsFinished, report_media-IsFinished)

  pub begin_download_media-IsFinished : (s : Session Device) → IsFinished (begin_download_media p s)
  unfolding begin_download_media when_connected unless_failed finish finish_output fail fail_task
      complete complete_task reset_task IsFinished is_no_task is_task_finished is_final on_result
  begin_download_media-IsFinished s = ground arith

  -- A download of one file that does not succeed has ended the task.
  pub finalize_single_download-IsFinished :
      (remote_path local_path : Text) (s : Session Device)
      → (finalize_single_download p remote_path local_path s).0 ≡ false
      → IsFinished (finalize_single_download p remote_path local_path s).1
  unfolding finalize_single_download download_failed fetched renamed record_download fail fail_task
      reset_task IsFinished is_no_task is_task_finished is_final
  finalize_single_download-IsFinished remote_path local_path s h = ground arith

  -- Two steps in a row, of which the first that fails ends the task.
  chain-IsFinished :
      (first rest : Bool × Session Device)
      → (first.0 ≡ false → IsFinished first.1)
      → (rest.0 ≡ false → IsFinished rest.1)
      → (if first.0 then rest else (false, first.1)).0 ≡ false
      → IsFinished (if first.0 then rest else (false, first.1)).1
  chain-IsFinished (true, s) rest h k e = k e
  chain-IsFinished (false, s) rest h k e = h refl

  pub download_all-IsFinished :
      (output_dir : Text) (files : List Text) (s : Session Device)
      → (download_all p output_dir files s).0 ≡ false
      → IsFinished (download_all p output_dir files s).1
  unfolding download_all
  download_all-IsFinished output_dir [] s = ground arith
  download_all-IsFinished output_dir (file ∷ files) s =
      let local_path = join_path output_dir (file_name_from_url file) in
      let first = finalize_single_download p file local_path s in
      chain-IsFinished first (download_all p output_dir files first.1)
        (finalize_single_download-IsFinished file local_path s)
        (download_all-IsFinished output_dir files first.1)

  download_batch-IsFinished :
      (output_dir time_from time_to : Text) (listed selected : List Text) (s : Session Device)
      → IsFinished (download_batch p output_dir time_from time_to listed selected s)
  unfolding download_batch
  download_batch-IsFinished output_dir time_from time_to listed selected s =
      search (unless-IsFinished, on_result-IsFinished, complete-IsFinished, download_all-IsFinished)

  batch_of-IsFinished :
      (output_dir : Text) (files : List Text) (s : Session Device)
      → IsFinished (batch_of p output_dir files s)
  unfolding batch_of
  batch_of-IsFinished output_dir files s =
      search (if-IsFinished, fail-IsFinished, download_batch-IsFinished)

  pub begin_batch_download-IsFinished : (s : Session Device) → IsFinished (begin_batch_download p s)
  unfolding begin_batch_download when_connected
  begin_batch_download-IsFinished s = search (
    if-IsFinished, unless_failed-IsFinished, on_result-IsFinished, fail-IsFinished,
    batch_of-IsFinished,
  )

  pub begin_delete_media-IsFinished : (s : Session Device) → IsFinished (begin_delete_media p s)
  unfolding begin_delete_media when_connected unless_failed finish finish_output fail fail_task
      complete complete_task reset_task IsFinished is_no_task is_task_finished is_final on_result
  begin_delete_media-IsFinished s = ground arith

  pub begin_delete_all_media-IsFinished :
      (s : Session Device) → IsFinished (begin_delete_all_media p s)
  unfolding begin_delete_all_media when_connected unless_failed finish finish_output fail fail_task
      complete complete_task reset_task IsFinished is_no_task is_task_finished is_final on_result
  begin_delete_all_media-IsFinished s = ground arith
