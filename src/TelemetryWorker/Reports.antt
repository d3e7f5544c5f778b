-- ===== src/TelemetryWorker/Reports.antt =====
-- What the proxy of app/src/telemetry_worker.cpp reads from the messages of the worker.
use youyeetoo_rk3588_toolkit.Prelude.{
  ℕ, ◌≡◌, refl, ap, ◌∙◌, Bool, true, false, ◌||◌, [], ◌∷◌, ◌++◌, Option, none, some, All, arith,
  ◌==◌,
}
use youyeetoo_rk3588_toolkit.Prelude.Text.{Text, codes, split_at, is_digit}
use youyeetoo_rk3588_toolkit.Prelude.Splitting.{Lacks, split_at-append}
use youyeetoo_rk3588_toolkit.Number.{to_string}
use youyeetoo_rk3588_toolkit.Number.Decimal.{AllDigits, to_string-AllDigits}
use youyeetoo_rk3588_toolkit.CanWorker.Proxy.{after}
use youyeetoo_rk3588_toolkit.TelemetryWorker.{telemetry_message, entry}
use youyeetoo_rk3588_toolkit.TelemetryWorker.Proxy.{get_value}

-- The characters of printed numbers: digits, signs, the point, the exponent, and those of inf and nan.
abbrev pub is_number_char : ℕ → Bool
is_number_char c =
    is_digit c
    || (c == b'+'
        || (c == b'-'
            || (c == b'.'
                || (c == b'e' || (c == b'i' || (c == b'n' || (c == b'f' || c == b'a')))))))

abbrev pub IsPlain : Text → Type 0
IsPlain = All (λ c. is_number_char c ≡ true)

plain-Lacks : (c : ℕ) (v : Text) → is_number_char c ≡ false → IsPlain v → Lacks c v
plain-Lacks c [] h p = tt
plain-Lacks c (b ∷ v) h (p, ps) = (ground arith, plain-Lacks c v h ps)

digits-IsPlain : (v : Text) → AllDigits v → IsPlain v
digits-IsPlain [] h = tt
digits-IsPlain (c ∷ v) (h, hs) = (ground arith, digits-IsPlain v hs)

pub number-IsPlain : (n : ℕ) → IsPlain (to_string n)
number-IsPlain n = digits-IsPlain (to_string n) (to_string-AllDigits n)

-- A text whose first character does not occur in v is found behind v.
after-skip :
    (c : ℕ) (needle v t : Text) → Lacks c v → after (c ∷ needle) (v ++ t) ≡ after (c ∷ needle) t
unfolding after
after-skip c needle [] t h = refl
after-skip c needle (b ∷ v) t (h, hs) =
    let other : (c == b) ≡ false = ground arith in rw (other, after) (after-skip c needle v t hs)

-- Past an entry whose name does not begin the needle.
skip_entry :
    (c : ℕ) (needle name v rest : Text)
    → ((t : Text) → after (c ∷ needle) (name ++ (b'=' ∷ t)) ≡ after (c ∷ needle) t)
    → ((t : Text) → after (c ∷ needle) (10 ∷ t) ≡ after (c ∷ needle) t)
    → is_number_char c ≡ false
    → IsPlain v
    → after (c ∷ needle) (entry name v rest) ≡ after (c ∷ needle) rest
skip_entry c needle name v rest past newline h p =
    past (v ++ (10 ∷ rest)) ∙ after-skip c needle v (10 ∷ rest) (plain-Lacks c v h p) ∙ newline rest

-- The value behind a name that is found.
found :
    (name v rest msg : Text)
    → after (name ++ b'=' ∷ []) msg ≡ some (v ++ (10 ∷ rest))
    → IsPlain v
    → get_value name msg ≡ v
unfolding get_value
found name v rest msg h p =
    let line : Option Text → Text = λ o. elim o [
      | none ↦ []
      | some rest ↦ elim (split_at 10 rest) [ none ↦ rest | some (line, _) ↦ line ]
    ] in
    ap line h
    ∙ ap (λ o. elim o [ none ↦ v ++ (10 ∷ rest) | some (line, _) ↦ line ])
        (split_at-append 10 v rest (plain-Lacks 10 v refl p))

module _ (cpu temp0 temp1 : Text) (mem disk : ℕ × ℕ) (cpu_plain : IsPlain cpu)
    (temp0_plain : IsPlain temp0) (temp1_plain : IsPlain temp1) where
  -- The message, and what of it stands behind each of its entries.
  abbrev behind_disk_used : Text
  behind_disk_used = entry (codes "disk_total_kb") (to_string disk.1) []

  abbrev behind_temp1 : Text
  behind_temp1 = entry (codes "disk_used_kb") (to_string disk.0) behind_disk_used

  abbrev behind_temp0 : Text
  behind_temp0 = entry (codes "board_temp_c") temp1 behind_temp1

  abbrev behind_total : Text
  behind_total = entry (codes "cpu_temp_c") temp0 behind_temp0

  abbrev behind_used : Text
  behind_used = entry (codes "mem_total_kb") (to_string mem.1) behind_total

  abbrev behind_cpu : Text
  behind_cpu = entry (codes "mem_used_kb") (to_string mem.0) behind_used

  abbrev msg : Text
  msg = telemetry_message cpu mem disk temp0 temp1

  pub value_cpu_usage_pct : get_value (codes "cpu_usage_pct") msg ≡ cpu
  unfolding telemetry_message codes after
  value_cpu_usage_pct = found (codes "cpu_usage_pct") cpu behind_cpu msg refl cpu_plain

  pub value_mem_used_kb : get_value (codes "mem_used_kb") msg ≡ to_string mem.0
  unfolding telemetry_message codes after
  value_mem_used_kb =
      found (codes "mem_used_kb") (to_string mem.0) behind_used msg
        (skip_entry b'm' (codes "em_used_kb=") (codes "cpu_usage_pct") cpu behind_cpu (λ t. refl)
          (λ t. refl) refl cpu_plain)
        (number-IsPlain mem.0)

  pub value_mem_total_kb : get_value (codes "mem_total_kb") msg ≡ to_string mem.1
  unfolding telemetry_message codes after
  value_mem_total_kb =
      found (codes "mem_total_kb") (to_string mem.1) behind_total msg
        (skip_entry b'm' (codes "em_total_kb=") (codes "cpu_usage_pct") cpu behind_cpu (λ t. refl)
            (λ t. refl) refl cpu_plain
          ∙ skip_entry b'm' (codes "em_total_kb=") (codes "mem_used_kb") (to_string mem.0)
              behind_used (λ t. refl) (λ t. refl) refl (number-IsPlain mem.0))
        (number-IsPlain mem.1)

  pub value_cpu_temp_c : get_value (codes "cpu_temp_c") msg ≡ temp0
  unfolding telemetry_message codes after
  value_cpu_temp_c =
      found (codes "cpu_temp_c") temp0 behind_temp0 msg
        (skip_entry b'c' (codes "pu_temp_c=") (codes "cpu_usage_pct") cpu behind_cpu (λ t. refl)
            (λ t. refl) refl cpu_plain
          ∙ skip_entry b'c' (codes "pu_temp_c=") (codes "mem_used_kb") (to_string mem.0) behind_used
              (λ t. refl) (λ t. refl) refl (number-IsPlain mem.0)
          ∙ skip_entry b'c' (codes "pu_temp_c=") (codes "mem_total_kb") (to_string mem.1)
              behind_total (λ t. refl) (λ t. refl) refl (number-IsPlain mem.1))
        temp0_plain

  pub value_board_temp_c : get_value (codes "board_temp_c") msg ≡ temp1
  unfolding telemetry_message codes after
  value_board_temp_c =
      found (codes "board_temp_c") temp1 behind_temp1 msg
        (skip_entry b'b' (codes "oard_temp_c=") (codes "cpu_usage_pct") cpu behind_cpu (λ t. refl)
            (λ t. refl) refl cpu_plain
          ∙ skip_entry b'b' (codes "oard_temp_c=") (codes "mem_used_kb") (to_string mem.0)
              behind_used (λ t. refl) (λ t. refl) refl (number-IsPlain mem.0)
          ∙ skip_entry b'b' (codes "oard_temp_c=") (codes "mem_total_kb") (to_string mem.1)
              behind_total (λ t. refl) (λ t. refl) refl (number-IsPlain mem.1)
          ∙ skip_entry b'b' (codes "oard_temp_c=") (codes "cpu_temp_c") temp0 behind_temp0
              (λ t. refl) (λ t. refl) refl temp0_plain)
        temp1_plain

  pub value_disk_used_kb : get_value (codes "disk_used_kb") msg ≡ to_string disk.0
  unfolding telemetry_message codes after
  value_disk_used_kb =
      found (codes "disk_used_kb") (to_string disk.0) behind_disk_used msg
        (skip_entry b'd' (codes "isk_used_kb=") (codes "cpu_usage_pct") cpu behind_cpu (λ t. refl)
            (λ t. refl) refl cpu_plain
          ∙ skip_entry b'd' (codes "isk_used_kb=") (codes "mem_used_kb") (to_string mem.0)
              behind_used (λ t. refl) (λ t. refl) refl (number-IsPlain mem.0)
          ∙ skip_entry b'd' (codes "isk_used_kb=") (codes "mem_total_kb") (to_string mem.1)
              behind_total (λ t. refl) (λ t. refl) refl (number-IsPlain mem.1)
          ∙ skip_entry b'd' (codes "isk_used_kb=") (codes "cpu_temp_c") temp0 behind_temp0
              (λ t. refl) (λ t. refl) refl temp0_plain
          ∙ skip_entry b'd' (codes "isk_used_kb=") (codes "board_temp_c") temp1 behind_temp1
              (λ t. refl) (λ t. refl) refl temp1_plain)
        (number-IsPlain disk.0)

  pub value_disk_total_kb : get_value (codes "disk_total_kb") msg ≡ to_string disk.1
  unfolding telemetry_message codes after
  value_disk_total_kb =
      found (codes "disk_total_kb") (to_string disk.1) [] msg
        (skip_entry b'd' (codes "isk_total_kb=") (codes "cpu_usage_pct") cpu behind_cpu (λ t. refl)
            (λ t. refl) refl cpu_plain
          ∙ skip_entry b'd' (codes "isk_total_kb=") (codes "mem_used_kb") (to_string mem.0)
              behind_used (λ t. refl) (λ t. refl) refl (number-IsPlain mem.0)
          ∙ skip_entry b'd' (codes "isk_total_kb=") (codes "mem_total_kb") (to_string mem.1)
              behind_total (λ t. refl) (λ t. refl) refl (number-IsPlain mem.1)
          ∙ skip_entry b'd' (codes "isk_total_kb=") (codes "cpu_temp_c") temp0 behind_temp0
              (λ t. refl) (λ t. refl) refl temp0_plain
          ∙ skip_entry b'd' (codes "isk_total_kb=") (codes "board_temp_c") temp1 behind_temp1
              (λ t. refl) (λ t. refl) refl temp1_plain
          ∙ skip_entry b'd' (codes "isk_total_kb=") (codes "disk_used_kb") (to_string disk.0)
              behind_disk_used (λ t. refl) (λ t. refl) refl (number-IsPlain disk.0))
        (number-IsPlain disk.1)
