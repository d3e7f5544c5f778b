-- ===== src/TelemetryWorker/Bounds.antt =====
-- The measurements of app/src/telemetry_worker.cpp stay within 64 bits.
use youyeetoo_rk3588_toolkit.Prelude.{
  ℕ, ◌+◌, ◌-◌, ◌*◌, ◌^◌, ◌<◌, List, [], ◌∷◌, Option, none, some, arith, ltb, if◌then◌else◌,
  Bool-cases, ltb→lt, inl, inr,
}
use youyeetoo_rk3588_toolkit.Prelude.Text.{Text, is_digit, split_whitespace}
use youyeetoo_rk3588_toolkit.TelemetryWorker.{
  Expected, MemInfo, key, value, unit, nothing, note_entry, read_word, read_words, read_number,
  read_mem_info, read_disk_usage, FileSystemStat,
}

abbrev IsSmall : Option (ℕ × Text) → Type 0
IsSmall none = Unit
IsSmall (some (n, rest)) = n < 2 ^ 64

in_range : (n : ℕ) (w : Text) → IsSmall (if ltb n (2 ^ 64) then some (n, w) else none)
in_range n w = elim (Bool-cases (ltb n (2 ^ 64))) [
  | inl small ↦ rw small (ltb→lt n (2 ^ 64) small)
  | inr large ↦ rw large tt
]

read_number-IsSmall : (acc : Option ℕ) (w : Text) → IsSmall (read_number acc w)
unfolding read_number
read_number-IsSmall none [] = tt
read_number-IsSmall (some n) [] = in_range n []
read_number-IsSmall none (c ∷ w) = elim (Bool-cases (is_digit c)) [
  | inl digit ↦ rw digit (read_number-IsSmall (some (c - 48)) w)
  | inr other ↦ rw other tt
]
read_number-IsSmall (some n) (c ∷ w) = elim (Bool-cases (is_digit c)) [
  | inl digit ↦ rw digit (read_number-IsSmall (some (n * 10 + (c - 48))) w)
  | inr other ↦ rw other (in_range n (c ∷ w))
]

-- Both numbers of memory fit.
abbrev IsBounded : Expected × MemInfo → Type 0
IsBounded st = (st.1.total_kb < 2 ^ 64) × (st.1.available_kb < 2 ^ 64)

note_entry-IsBounded :
    (name : Text) (val : ℕ) (mem : MemInfo) (e f : Expected)
    → val < 2 ^ 64
    → IsBounded (e, mem)
    → IsBounded (f, note_entry name val mem)
unfolding note_entry
note_entry-IsBounded name val mem e f h b = ground arith

value-IsBounded :
    (name w : Text) (mem : MemInfo) (o : Option (ℕ × Text))
    → IsSmall o
    → IsBounded (value name, mem)
    → IsBounded (elim o [
      | none ↦ (nothing, mem)
      | some (val, []) ↦ (unit, note_entry name val mem)
      | some (val, c ∷ rest) ↦ (key, note_entry name val mem)
    ])
value-IsBounded name w mem none s b = b
value-IsBounded name w mem (some (val, [])) s b = note_entry-IsBounded name val mem key unit s b
value-IsBounded name w mem (some (val, c ∷ rest)) s b =
    note_entry-IsBounded name val mem key key s b

read_word-IsBounded :
    (w : Text) (e : Expected) (mem : MemInfo)
    → IsBounded (e, mem)
    → IsBounded (read_word w (e, mem))
unfolding read_word
read_word-IsBounded w nothing mem b = b
read_word-IsBounded w unit mem b = b
read_word-IsBounded w key mem b = b
read_word-IsBounded w (value name) mem b =
    value-IsBounded name w mem (read_number none w) (read_number-IsSmall none w) b

read_words-IsBounded :
    (ws : List Text) (st : Expected × MemInfo) → IsBounded st → IsBounded (read_words ws st)
unfolding read_words
read_words-IsBounded [] st b = b
read_words-IsBounded (w ∷ ws) st b =
    read_words-IsBounded ws (read_word w st) (read_word-IsBounded w st.0 st.1 b)

difference : (a b : ℕ) → a < 2 ^ 64 → (if ltb b a then a - b else 0) < 2 ^ 64
difference a b h = ground arith

pub read_mem_info_range :
    (text : Text) → ((read_mem_info text).0 < 2 ^ 64) × ((read_mem_info text).1 < 2 ^ 64)
unfolding read_mem_info
read_mem_info_range text =
    let mem =
      (read_words (split_whitespace text) (key, record { total_kb = 0; available_kb = 0 })).1 in
    let (total, available) =
      read_words-IsBounded (split_whitespace text) (key, record { total_kb = 0; available_kb = 0 })
        (omega arith, omega arith) in
    (difference mem.total_kb mem.available_kb total, total)

pub read_disk_usage_range :
    (o : Option FileSystemStat)
    → ((read_disk_usage o).0 < 2 ^ 64) × ((read_disk_usage o).1 < 2 ^ 64)
unfolding read_disk_usage
read_disk_usage_range o = ground arith
