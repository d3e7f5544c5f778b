-- ===== src/CameraController/Photo/Termination.antt =====
-- The recursion of BeginPhotoTask and ContinuePhotoTask in app/src/camera_controller.cpp ends.
use youyeetoo_rk3588_toolkit.Prelude.{
  arith, ◌≡◌, refl, ap, ℕ, suc, zero, Bool, false, Option, some, none, ℤ, pos, negsuc, leb_ℤ, suc_ℤ,
}
use youyeetoo_rk3588_toolkit.Prelude.Text.{Text, codes}
use youyeetoo_rk3588_toolkit.Camera.{verifying, precheck}
use youyeetoo_rk3588_toolkit.CameraController.Files.{join_path, file_name_from_url}
use youyeetoo_rk3588_toolkit.FileSystem.{FileSystem}
use youyeetoo_rk3588_toolkit.CameraController.{Platform, Session, fail, fail_task, reset_task}
use youyeetoo_rk3588_toolkit.CameraController.Files.{write_text_file-controller}
use youyeetoo_rk3588_toolkit.CameraController.Results.{write_metadata_file}
use youyeetoo_rk3588_toolkit.CameraController.Downloads.{
  finalize_single_download, with_files, download_failed, fetched, renamed, record_download,
}
use youyeetoo_rk3588_toolkit.Prelude.{true, ◌+◌, get_elem?, add_ℤ, if◌then◌else◌, ◌∙◌, refl, ◌<◌}
use youyeetoo_rk3588_toolkit.CameraController.{set_task_state, set_device_state, enter}
use youyeetoo_rk3588_toolkit.CameraController.Files.{
  ensure_directory_exists, ensure_directory_exists-controller,
}
use youyeetoo_rk3588_toolkit.CameraController.Photo.{
  gap, remaining, download_current_remote_file, verify_photo, download_photo, continue_photo, shoot,
  begin_once, begin_photo, photos, on_task, to_state,
}

-- One photo more leaves one less to take, unless there is none left.
gap-suc_ℤ : (c t : ℤ) → leb_ℤ t (suc_ℤ c) ≡ false → suc (gap (suc_ℤ c) t) ≡ gap c t
unfolding gap
gap-suc_ℤ (pos c) (pos t) h = ground arith
gap-suc_ℤ (pos c) (negsuc t) h = ground arith
gap-suc_ℤ (negsuc zero) (pos t) h = ground arith
gap-suc_ℤ (negsuc (suc c)) (pos t) h = ground arith
gap-suc_ℤ (negsuc zero) (negsuc t) h = ground arith
gap-suc_ℤ (negsuc (suc c)) (negsuc t) h = ground arith

module _ (p : Platform) where
  open p use {Device}

  -- The photos of the task and those that were taken.
  abbrev counts : Session Device → ℤ × ℤ
  counts s = (s.controller.snapshot.completed_iterations, s.controller.snapshot.total_iterations)

  write_metadata_file-counts :
      (local_path remote_path : Text) (recovered : Bool) (s : Session Device)
      → counts (write_metadata_file p local_path remote_path recovered s).1 ≡ counts s
  unfolding write_metadata_file
  write_metadata_file-counts local_path remote_path recovered s =
      ap (λ c. (c.snapshot.completed_iterations, c.snapshot.total_iterations))
        (write_text_file-controller p _ _ s)

  record_download-counts :
      (remote_path local_path : Text) (recovered : Bool) (s : Session Device)
      → counts (record_download p remote_path local_path recovered s).1 ≡ counts s
  unfolding record_download fail fail_task reset_task
  record_download-counts remote_path local_path recovered s =
      ground (arith, write_metadata_file-counts local_path remote_path recovered s)

  renamed-counts :
      (remote_path local_path : Text) (recovered : Bool) (renaming : Option FileSystem)
      (s : Session Device)
      → counts (renamed p remote_path local_path recovered renaming s).1 ≡ counts s
  unfolding renamed fail fail_task reset_task
  renamed-counts remote_path local_path recovered (some files) s =
      record_download-counts remote_path local_path recovered (with_files p files s)
  renamed-counts remote_path local_path recovered none s = refl

  fetched-counts :
      (remote_path local_path : Text) (timeout_ms started : ℕ) (recovered : Bool)
      (failure : Option Text) (s : Session Device)
      → counts (fetched p remote_path local_path timeout_ms started recovered failure s).1
        ≡ counts s
  unfolding fetched download_failed fail fail_task reset_task
  fetched-counts remote_path local_path timeout_ms started recovered (some message) s = refl
  fetched-counts remote_path local_path timeout_ms started recovered none s =
      renamed-counts remote_path local_path recovered _ s

  finalize_single_download-counts :
      (remote_path local_path : Text) (s : Session Device)
      → counts (finalize_single_download p remote_path local_path s).1 ≡ counts s
  unfolding finalize_single_download
  finalize_single_download-counts remote_path local_path s = search fetched-counts

  -- The call would go on with BeginPhotoTask only for a photo less to take.
  Descends : ℕ → Bool × Session Device → Type 0
  Descends n r = r.0 ≡ true → suc (remaining r.1.controller) ≡ n

  verify_photo-Descends :
      (n : ℕ) (s : Session Device) → remaining s.controller ≡ n → Descends n (verify_photo p s)
  unfolding Descends verify_photo remaining set_task_state
  verify_photo-Descends n s e h =
      let c = s.controller.snapshot.completed_iterations in
      let t = s.controller.snapshot.total_iterations in ground (arith, gap-suc_ℤ c t)

  if-Descends :
      (n : ℕ) (b : Bool) (x y : Bool × Session Device)
      → Descends n x
      → Descends n y
      → Descends n (if b then x else y)
  if-Descends n true x y h k = h
  if-Descends n false x y h k = k

  stop-Descends : (n : ℕ) (s : Session Device) → Descends n (false, s)
  unfolding Descends
  stop-Descends n s h = ground arith

  download_current_remote_file-counts :
      (s : Session Device) → counts (download_current_remote_file p s).1 ≡ counts s
  unfolding download_current_remote_file fail fail_task reset_task
  download_current_remote_file-counts s =
      by_url (get_elem? s.controller.task.pending_remote_urls s.controller.task.download_index)
    where
      by_url :
          (o : Option Text)
          → counts
              (elim o as (λ x. Bool × Session Device) [
                | none ↦ (false, fail p (codes "download index out of range") s)
                | some remote_path ↦
                    finalize_single_download p remote_path
                      (join_path s.controller.task.request.output_dir
                        (file_name_from_url remote_path))
                      s
              ]).1
            ≡ counts s
      by_url none = refl
      by_url (some remote_path) = finalize_single_download-counts remote_path _ s

  counts-remaining :
      (s t : Session Device) → counts s ≡ counts t → remaining s.controller ≡ remaining t.controller
  unfolding remaining
  counts-remaining s t e = ap (λ q. gap q.0 q.1) e

  download_photo-Descends :
      (now n : ℕ) (s : Session Device)
      → remaining s.controller ≡ n
      → Descends n (download_photo p now s)
  unfolding download_photo set_task_state
  download_photo-Descends now n s e =
      let s1 = (download_current_remote_file p s).1 in
      let s2 = on_task p (λ t. record t { download_index = t.download_index + 1 }) s1 in
      let kept : remaining (to_state p verifying s2).controller ≡ n =
        counts-remaining (to_state p verifying s2) s (download_current_remote_file-counts s) ∙ e in
      if-Descends n _ _ _
        (if-Descends n _ _ _ (stop-Descends n _)
          (verify_photo-Descends n (to_state p verifying s2) kept))
        (stop-Descends n _)

  continue_photo-Descends :
      (now n : ℕ) (s : Session Device)
      → remaining s.controller ≡ n
      → Descends n (continue_photo p now s)
  unfolding continue_photo
  continue_photo-Descends now n s e =
      if-Descends n _ _ _ (download_photo-Descends now n s e)
        (if-Descends n _ _ _ (verify_photo-Descends n s e) (stop-Descends n s))

  shoot-Descends :
      (now n : ℕ) (s : Session Device) → remaining s.controller ≡ n → Descends n (shoot p now s)
  unfolding shoot set_task_state remaining
  shoot-Descends now n s e = search (if-Descends, stop-Descends, continue_photo-Descends)

  unless_failed-Descends :
      (n : ℕ) (failure : Option Text) (next : Bool × Session Device) (stop : Text → Session Device)
      → Descends n next
      → Descends n (elim failure [ some message ↦ (false, stop message) | none ↦ next ])
  unless_failed-Descends n none next stop h = h
  unless_failed-Descends n (some message) next stop h = stop-Descends n (stop message)

  begin_once-Descends :
      (now n : ℕ) (s : Session Device)
      → remaining s.controller ≡ n
      → Descends n (begin_once p now s)
  unfolding begin_once set_task_state remaining enter set_device_state
  begin_once-Descends now n s e =
      let output_dir = s.controller.task.request.output_dir in
      let s1 = (ensure_directory_exists p output_dir s).1 in
      let kept : remaining s1.controller ≡ n =
        ap remaining (ensure_directory_exists-controller p output_dir s) ∙ e in
      let ready =
        on_task p (λ t. record t { deadline = add_ℤ now s.controller.options.timeout_ms })
          (enter p precheck s1) in
      if-Descends n (p.is_connected s.device) _ _
        (unless_failed-Descends n (ensure_directory_exists p output_dir s).0 (shoot p now ready)
          (λ m. fail p m s1) (shoot-Descends now n ready kept))
        (stop-Descends n _)

  -- A call and what it goes on with.
  step-ends :
      (n : ℕ) (next : Session Device → Option (Session Device)) (r : Bool × Session Device)
      → Descends n r
      → ((s : Session Device)
          → suc (remaining s.controller) ≡ n
          → (s' : Session Device) × (next s ≡ some s'))
      → (s' : Session Device) × ((if r.0 then next r.1 else some r.1) ≡ some s')
  unfolding Descends
  step-ends n next (true, s) d h = h s (d refl)
  step-ends n next (false, s) d h = (s, refl)

  -- With fuel for more calls than there are photos to take, the recursion ends.
  begin_photo-ends :
      (fuel now : ℕ) (s : Session Device)
      → remaining s.controller < fuel
      → (s' : Session Device) × (begin_photo p fuel now s ≡ some s')
  unfolding begin_photo
  begin_photo-ends zero now s h = ground arith
  begin_photo-ends (suc fuel) now s h =
      step-ends (remaining s.controller) (begin_photo p fuel now) (begin_once p now s)
        (begin_once-Descends now (remaining s.controller) s refl)
        (λ s1 e. begin_photo-ends fuel now s1 (omega arith))

  pub photos-ends :
      (now : ℕ) (r : Bool × Session Device) → (s' : Session Device) × (photos p now r ≡ some s')
  unfolding photos
  photos-ends now (true, s) = begin_photo-ends (suc (remaining s.controller)) now s (omega arith)
  photos-ends now (false, s) = (s, refl)
