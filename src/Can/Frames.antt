-- ===== src/Can/Frames.antt =====
-- The frames of app/src/can_protocol.cpp: which ones are commands, what their parameters hold, and
-- the form of a telemetry frame.
use Prim.Native.Nat.{min}
use youyeetoo_rk3588_toolkit.Prelude.{
  ℕ, zero, suc, ◌-◌, ◌≤◌, ◌≡◌, refl, ◌&&◌, ◌||◌, not, List, [], ◌∷◌, ◌++◌, arith, ltb, leb, ◌==◌,
  length, get_or, take, replicate, is_some, Option-cases, Bool-cases, inl, inr, ap,
}
use youyeetoo_rk3588_toolkit.Prelude.Text.{Text, is_empty, codes}
use youyeetoo_rk3588_toolkit.Prelude.Splitting.{Lacks, Lacks-append}
use youyeetoo_rk3588_toolkit.Can.{
  CanFrame, CommandMap, find_command, parse_rx_frame, ascii_suffix, add_suffix,
  build_telemetry_frame,
}

-- A frame is a command exactly if it has the expected identifier, at least one byte, and a first
-- byte that the command map knows; a frame with another identifier is passed over without an error,
-- and a frame with the identifier that is no command has an error.
pub parse_rx_frame_decides :
    (command_map : CommandMap) (frame : CanFrame) (id : ℕ)
    → let command = parse_rx_frame command_map frame id in
      let known = is_some (find_command (get_or frame.bytes 0 0) command_map) in
      (command.valid ≡ ((frame.can_id == id) && (leb 1 frame.dlc && known)))
      × (is_empty command.error_description ≡ (not (frame.can_id == id) || command.valid))
unfolding parse_rx_frame codes
parse_rx_frame_decides command_map frame id =
    elim (Option-cases (find_command (get_or frame.bytes 0 0) command_map)) [
      | inl e ↦ rw (e, parse_rx_frame) (ground arith)
      | inr (entry, e) ↦ rw (e, parse_rx_frame) (ground arith)
    ]

-- A suffix has no newline.
pub ascii_suffix-Lacks : (bytes : List ℕ) → Lacks 10 (ascii_suffix bytes)
unfolding ascii_suffix
ascii_suffix-Lacks [] = tt
ascii_suffix-Lacks (c ∷ cs) = elim (Bool-cases (c == 0)) [
  | inl end ↦ rw end tt
  | inr more ↦ rw more (elim (Bool-cases (leb 32 c && ltb c 127)) [
    | inl printable ↦ rw printable (ground arith, ascii_suffix-Lacks cs)
    | inr other ↦ rw other (ascii_suffix-Lacks cs)
  ])
]

pub add_suffix-Lacks :
    (params suffix : Text) → Lacks 10 params → Lacks 10 suffix → Lacks 10 (add_suffix params suffix)
unfolding add_suffix
add_suffix-Lacks params [] h k = h
add_suffix-Lacks [] (c ∷ suffix) h k = k
add_suffix-Lacks (p ∷ params) (c ∷ suffix) h k =
    Lacks-append 10 (p ∷ params) (b' ' ∷ c ∷ suffix) h (refl, k)

length-replicate : (n : ℕ) → length (replicate {A = ℕ} n 0) ≡ n
length-replicate zero = refl
length-replicate (suc n) = ap suc (length-replicate n)

-- Eight bytes, of which the first are the text.
padded :
    (n : ℕ) (s : Text)
    → let len = min (length s) n in
      (length (take len s ++ replicate (n - len) 0) ≡ n)
      × (take len (take len s ++ replicate (n - len) 0) ≡ take n s)
padded zero [] = let none_left : min 0 0 ≡ 0 = omega arith in rw none_left (refl, refl)
padded zero (c ∷ s) =
    let none_left : min (suc (length s)) 0 ≡ 0 = omega arith in rw none_left (refl, refl)
padded (suc n) [] =
    let none_left : min 0 (suc n) ≡ 0 = omega arith in
    let whole : suc n - 0 ≡ suc n = omega arith in
    rw (none_left, whole) (length-replicate (suc n), refl)
padded (suc n) (c ∷ s) =
    let one_more : min (suc (length s)) (suc n) ≡ suc (min (length s) n) = omega arith in
    let same : suc n - suc (min (length s) n) ≡ n - min (length s) n = omega arith in
    let (size, front) = padded n s in
    rw (one_more, same) (ap suc size, ap (λ (t : Text). c ∷ t) front)

-- A telemetry frame carries the given identifier, at most eight bytes in an array of eight, and in
-- them the first bytes of the summary, all of it if it is no longer than that.
pub build_telemetry_frame_fits :
    (tx_id : ℕ) (summary : Text)
    → let frame = build_telemetry_frame tx_id summary in
      (frame.can_id ≡ tx_id)
      × (frame.dlc ≤ 8)
      × (length frame.bytes ≡ 8)
      × (take frame.dlc frame.bytes ≡ take 8 summary)
unfolding build_telemetry_frame
build_telemetry_frame_fits tx_id summary =
    let (eight, front) = padded 8 summary in (refl, omega arith, eight, front)
