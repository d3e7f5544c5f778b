-- ===== src/CanWorker/Beacon.antt =====
-- The telemetry frame that app/src/can_worker.cpp sends, built from a summary of its counters.
use Prim.Native.Nat.{min}
use youyeetoo_rk3588_toolkit.Prelude.{
  ℕ, zero, suc, ◌+◌, ◌≤◌, ◌≡◌, refl, ap, sym, ◌∙◌, Bool, true, false, [], ◌∷◌, ◌++◌, arith, length,
  take, length-append, Bool-cases, inl, inr, ltb, ◌/◌, ◌%◌, if◌then◌else◌,
}
use mathlib.Core.Path.{ap₂}
use youyeetoo_rk3588_toolkit.Prelude.Text.{Text, codes}
use youyeetoo_rk3588_toolkit.Number.{to_string, decimal}
use youyeetoo_rk3588_toolkit.Can.{build_telemetry_frame}
use youyeetoo_rk3588_toolkit.CanWorker.{CanWorker, compact}

take-append-le : (n : ℕ) (s t t' : Text) → n ≤ length s → take n (s ++ t) ≡ take n (s ++ t')
take-append-le zero s t t' h = refl
take-append-le (suc n) [] t t' h = grind arith
take-append-le (suc n) (c ∷ s) t t' h =
    ap (λ (r : Text). c ∷ r) (take-append-le n s t t' (omega arith))

length-append-cons : (s t : Text) (c : ℕ) → 1 ≤ length (s ++ c ∷ t)
length-append-cons [] t c = omega arith
length-append-cons (b ∷ s) t c = omega arith

length-to_string : (n : ℕ) → 1 ≤ length (to_string n)
unfolding to_string decimal
length-to_string n = elim (Bool-cases (ltb n 10)) [
  | inl small ↦ rw small (omega arith)
  | inr large ↦ rw large (length-append-cons (decimal n (n / 10)) [] (48 + n % 10))
]

-- What comes first in a summary, and what comes behind it.
front : Bool → ℕ → Text
front backup rx =
    codes (if backup then "bk" else "ok") ++ codes " r=" ++ to_string rx ++ codes " t="

back : ℕ → ℕ → Text
back tx errors = to_string tx ++ (codes " e=" ++ to_string errors)

append_assoc : (a b c : Text) → (a ++ b) ++ c ≡ a ++ (b ++ c)
append_assoc [] b c = refl
append_assoc (x ∷ a) b c = ap (λ (t : Text). x ∷ t) (append_assoc a b c)

compact_parts :
    (w : CanWorker) → compact w ≡ front w.using_backup w.rx_count ++ back w.tx_count w.error_count
unfolding compact front back
compact_parts w =
    let start = front w.using_backup w.rx_count in
    let tx = to_string w.tx_count in
    append_assoc (start ++ tx) (codes " e=") (to_string w.error_count)
    ∙ append_assoc start tx (codes " e=" ++ to_string w.error_count)

length-front : (backup : Bool) (rx : ℕ) → 8 ≤ length (front backup rx)
unfolding front codes
length-front true rx =
    omega (arith, length-append (to_string rx) (codes " t="), length-to_string rx)
length-front false rx =
    omega (arith, length-append (to_string rx) (codes " t="), length-to_string rx)

cut :
    (id : ℕ) (s t t' : Text)
    → 8 ≤ length s
    → build_telemetry_frame id (s ++ t) ≡ build_telemetry_frame id (s ++ t')
unfolding build_telemetry_frame
cut id s t t' h =
    let size : min (length (s ++ t)) 8 ≡ 8 = omega (arith, length-append s t) in
    let size' : min (length (s ++ t')) 8 ≡ 8 = omega (arith, length-append s t') in
    let same : take 8 (s ++ t) ≡ take 8 (s ++ t') = take-append-le 8 s t t' h in
    rw (size, size', same) refl

-- The telemetry frame of two workers is the same if they use the same interface and have received
-- as many frames, whatever they have sent and whatever errors they have met: the eight bytes of the
-- frame end before those two counters.
pub beacon_omits_errors :
    (id : ℕ) (w w' : CanWorker)
    → w.using_backup ≡ w'.using_backup
    → w.rx_count ≡ w'.rx_count
    → build_telemetry_frame id (compact w) ≡ build_telemetry_frame id (compact w')
beacon_omits_errors id w w' backup rx =
    let tail = back w.tx_count w.error_count in
    let tail' = back w'.tx_count w'.error_count in
    ap (build_telemetry_frame id) (compact_parts w)
    ∙ cut id (front w.using_backup w.rx_count) tail tail' (length-front w.using_backup w.rx_count)
    ∙ ap (λ (s : Text). build_telemetry_frame id (s ++ tail')) (ap₂ front backup rx)
    ∙ ap (build_telemetry_frame id) (sym (compact_parts w'))
