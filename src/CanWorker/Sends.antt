-- ===== src/CanWorker/Sends.antt =====
-- Runs of the worker of app/src/can_worker.cpp by the descriptors that they write frames to.
use youyeetoo_rk3588_toolkit.Prelude.{
  ◌≡◌, refl, sym, ap, ◌∙◌, ℤ, true, not, ◌||◌, List, [], ◌∷◌, ◌++◌, All, arith, is_nonneg,
  if◌then◌else◌, Bool-cases, inl, inr,
}
use mathlib.Core.Path.{subst}
use youyeetoo_rk3588_toolkit.Prelude.Text.{is_empty}
use youyeetoo_rk3588_toolkit.Can.{CanFrame}
use youyeetoo_rk3588_toolkit.CanWorker.{CanWorker}
use youyeetoo_rk3588_toolkit.CanWorker.Failover.{IsRouted, SameRoute}

-- The interface that frames go to before the change to the backup interface.
abbrev pub first_route : CanWorker → ℤ
first_route w = if is_nonneg w.primary_fd then w.primary_fd else w.backup_fd

-- All frames are written to the descriptor.
abbrev pub To : ℤ → List (ℤ × CanFrame) → Type 0
To fd = All (λ f. f.0 ≡ fd)

-- The frames of a run from one state of the worker to another: some to the first route, and then
-- some to the backup interface. If the worker has changed before the run, there are none of the
-- former, and if it has not changed behind it, none of the latter.
pub record Sends (w w' : CanWorker) (frames : List (ℤ × CanFrame)) : Type 0 where
  pub before : List (ℤ × CanFrame)
  pub after : List (ℤ × CanFrame)
  pub joined : frames ≡ before ++ after
  pub to_first : To (first_route w) before
  pub to_backup : To w.backup_fd after
  pub switched : (not w.using_backup || is_empty before) ≡ true
  pub unswitched : (w'.using_backup || is_empty after) ≡ true
  pub same_primary : w'.primary_fd ≡ w.primary_fd
  pub same_backup : w'.backup_fd ≡ w.backup_fd
  pub stays : (not w.using_backup || w'.using_backup) ≡ true

To-append : (fd : ℤ) (xs ys : List (ℤ × CanFrame)) → To fd xs → To fd ys → To fd (xs ++ ys)
To-append fd [] ys h k = k
To-append fd (x ∷ xs) ys (h, hs) k = (h, To-append fd xs ys hs k)

append_assoc : (xs ys zs : List (ℤ × CanFrame)) → (xs ++ ys) ++ zs ≡ xs ++ (ys ++ zs)
append_assoc [] ys zs = refl
append_assoc (x ∷ xs) ys zs = ap (λ (l : List (ℤ × CanFrame)). x ∷ l) (append_assoc xs ys zs)

pub append_nil : (xs : List (ℤ × CanFrame)) → xs ++ [] ≡ xs
append_nil [] = refl
append_nil (x ∷ xs) = ap (λ (l : List (ℤ × CanFrame)). x ∷ l) (append_nil xs)

pub is_empty_iff : (xs : List (ℤ × CanFrame)) → is_empty xs ≡ true → xs ≡ []
is_empty_iff [] h = refl
is_empty_iff (x ∷ xs) h = ground arith

pub then-Sends :
    (w1 w2 w3 : CanWorker) (xs ys : List (ℤ × CanFrame))
    → Sends w1 w2 xs
    → Sends w2 w3 ys
    → Sends w1 w3 (xs ++ ys)
then-Sends w1 w2 w3 xs ys h k =
    let first : To (first_route w1) k.before =
      subst (λ p. To (if is_nonneg p then p else w1.backup_fd) k.before) h.same_primary
        (subst (λ b. To (if is_nonneg w2.primary_fd then w2.primary_fd else b) k.before)
          h.same_backup k.to_first) in
    let backup : To w1.backup_fd k.after = subst (λ b. To b k.after) h.same_backup k.to_backup in
    elim (Bool-cases w2.using_backup) [
      | inl changed ↦
          let none_before : k.before ≡ [] = is_empty_iff k.before (ground (arith, k.switched)) in
          record {
            before = h.before;
            after = h.after ++ k.after;
            joined =
                ap (λ l. l ++ ys) h.joined
                ∙ append_assoc h.before h.after ys
                ∙ ap (λ l. h.before ++ (h.after ++ l))
                    (k.joined ∙ ap (λ l. l ++ k.after) none_before);
            to_first = h.to_first;
            to_backup = To-append w1.backup_fd h.after k.after h.to_backup backup;
            switched = h.switched;
            unswitched = ground (arith, k.stays);
            same_primary = k.same_primary ∙ h.same_primary;
            same_backup = k.same_backup ∙ h.same_backup;
            stays = ground (arith, k.stays);
          }
      | inr unchanged ↦
          let none_after : h.after ≡ [] = is_empty_iff h.after (ground (arith, h.unswitched)) in
          record {
            before = h.before ++ k.before;
            after = k.after;
            joined =
                ap (λ l. l ++ ys)
                  (h.joined ∙ ap (λ l. h.before ++ l) none_after ∙ append_nil h.before)
                ∙ ap (λ l. h.before ++ l) k.joined
                ∙ sym (append_assoc h.before k.before k.after);
            to_first = To-append (first_route w1) h.before k.before h.to_first first;
            to_backup = backup;
            switched = ground (arith, h.stays);
            unswitched = k.unswitched;
            same_primary = k.same_primary ∙ h.same_primary;
            same_backup = k.same_backup ∙ h.same_backup;
            stays = ground (arith, h.stays);
          }
    ]

-- Frames to the active interface, by a worker that does not change.
pub steady-Sends :
    (w w' : CanWorker) (frames : List (ℤ × CanFrame))
    → IsRouted w
    → SameRoute w w'
    → To w.active_tx_fd frames
    → Sends w w' frames
steady-Sends w w' frames routed (_, using, primary, backup, _, _) h =
    elim (Bool-cases w.using_backup) [
      | inl changed ↦ record {
        before = [];
        after = frames;
        joined = refl;
        to_first = tt;
        to_backup = subst (λ fd. To fd frames) (routed.target ∙ rw changed refl) h;
        switched = ground arith;
        unswitched = ground arith;
        same_primary = primary;
        same_backup = backup;
        stays = ground arith;
      }
      | inr unchanged ↦ record {
        before = frames;
        after = [];
        joined = sym (append_nil frames);
        to_first = subst (λ fd. To fd frames) (routed.target ∙ rw unchanged refl) h;
        to_backup = tt;
        switched = ground arith;
        unswitched = ground arith;
        same_primary = primary;
        same_backup = backup;
        stays = ground arith;
      }
    ]

-- Nothing is written.
pub quiet-Sends :
    (w w' : CanWorker)
    → w'.primary_fd ≡ w.primary_fd
    → w'.backup_fd ≡ w.backup_fd
    → (not w.using_backup || w'.using_backup) ≡ true
    → Sends w w' []
quiet-Sends w w' primary backup stays = record {
  before = [];
  after = [];
  joined = refl;
  to_first = tt;
  to_backup = tt;
  switched = ground arith;
  unswitched = ground arith;
  same_primary = primary;
  same_backup = backup;
  stays = stays;
}
