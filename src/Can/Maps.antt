-- ===== src/Can/Maps.antt =====
-- The command maps that LoadCommandMap of app/src/can_protocol.cpp loads.
use youyeetoo_rk3588_toolkit.Prelude.{
  ℕ, ◌+◌, ◌*◌, ◌%◌, ◌^◌, ◌<◌, ◌≡◌, refl, false, List, [], ◌∷◌, Option, none, some, arith, ltb, ◌==◌,
  All, Bool-cases, ==_iff, inl, inr, if◌then◌else◌,
}
use youyeetoo_rk3588_toolkit.Prelude.Text.{Text, is_empty, split_at}
use youyeetoo_rk3588_toolkit.Prelude.Splitting.{Lacks, split-Lacks}
use youyeetoo_rk3588_toolkit.Prelude.Trimming.{trim_by-All}
use youyeetoo_rk3588_toolkit.Number.{stoul0}
use youyeetoo_rk3588_toolkit.FileSystem.{lines}
use youyeetoo_rk3588_toolkit.Can.{
  CommandMap, find_command, set_command, map_fields, add_command, load_map_line, load_map_lines,
  load_command_map, trim, is_blank, is_read, parse_hex_uint32,
}

-- A byte with a command of one line, and its parameters on one line.
abbrev pub IsEntry : ℕ × (Text × Text) → Type 0
IsEntry entry =
    (entry.0 < 256) × (is_empty entry.1.0 ≡ false) × Lacks 10 entry.1.0 × Lacks 10 entry.1.1

abbrev pub IsFound : ℕ → Option (Text × Text) → Type 0
IsFound byte none = Unit
IsFound byte (some entry) = IsEntry (byte, entry)

pub find_command-IsFound :
    (byte : ℕ) (m : CommandMap) → All IsEntry m → IsFound byte (find_command byte m)
unfolding find_command
find_command-IsFound byte [] h = tt
find_command-IsFound byte ((b, entry) ∷ m) (h, hs) = elim (Bool-cases (b == byte)) [
  | inl same ↦ rw same (rw (← (==_iff b byte).0 same) h)
  | inr other ↦ rw other (find_command-IsFound byte m hs)
]

set_command-IsEntry :
    (byte : ℕ) (entry : Text × Text) (m : CommandMap)
    → IsEntry (byte, entry)
    → All IsEntry m
    → All IsEntry (set_command byte entry m)
unfolding set_command
set_command-IsEntry byte entry [] h hs = (h, tt)
set_command-IsEntry byte entry ((b, old) ∷ m) h (k, ks) = elim (Bool-cases (b == byte)) [
  | inl same ↦ rw same (rw ((==_iff b byte).0 same) h, ks)
  | inr other ↦ rw other (k, set_command-IsEntry byte entry m h ks)
]

-- A command that was set is found under its byte, and no other byte's command changes.
pub find_command-set_command :
    (byte other : ℕ) (entry : Text × Text) (m : CommandMap)
    → find_command other (set_command byte entry m)
      ≡ (if byte == other then some entry else find_command other m)
unfolding find_command set_command
find_command-set_command byte other entry [] = ground arith
find_command-set_command byte other entry ((b, old) ∷ m) =
    ground (arith, find_command-set_command byte other entry m)

abbrev PartsLack : Option (Text × Text) → Type 0
PartsLack none = Unit
PartsLack (some (a, b)) = Lacks 10 a × Lacks 10 b

split_at-PartsLack : (d : ℕ) (s : Text) → Lacks 10 s → PartsLack (split_at d s)
unfolding split_at
split_at-PartsLack d [] h = tt
split_at-PartsLack d (c ∷ s) (h, hs) = elim (Bool-cases (c == d)) [
  | inl here ↦ rw here (tt, hs)
  | inr later ↦ rw later (behind c (split_at d s) h (split_at-PartsLack d s hs))
]
  where
    behind :
        (c : ℕ) (o : Option (Text × Text))
        → (c == 10) ≡ false
        → PartsLack o
        → PartsLack (elim o [ none ↦ none | some (a, b) ↦ some (c ∷ a, b) ])
    behind c none h k = tt
    behind c (some (a, b)) h (ka, kb) = ((h, ka), kb)

add_command-IsEntry :
    (byte_str name params : Text) (m : CommandMap)
    → Lacks 10 name
    → Lacks 10 params
    → All IsEntry m
    → All IsEntry (add_command byte_str name params m)
unfolding add_command
add_command-IsEntry byte_str [] params m a b h = h
add_command-IsEntry byte_str (c ∷ name) params m a b h = set (parse_hex_uint32 byte_str)
  where
    set :
        (o : Option ℕ)
        → All IsEntry (elim o [
          | none ↦ m
          | some byte ↦ if ltb 255 byte then m else set_command byte ((c ∷ name), params) m
        ])
    set none = h
    set (some byte) = elim (Bool-cases (ltb 255 byte)) [
      | inl large ↦ rw large h
      | inr fits ↦
          rw fits (set_command-IsEntry byte ((c ∷ name), params) m (ground arith, refl, a, b) h)
    ]

trim-Lacks : (s : Text) → Lacks 10 s → Lacks 10 (trim s)
unfolding trim
trim-Lacks s h = trim_by-All (λ c. (c == 10) ≡ false) is_blank s h

abbrev FieldsLack : Option (Text × Text × Text) → Type 0
FieldsLack none = Unit
FieldsLack (some (a, b, c)) = Lacks 10 b × Lacks 10 c

map_fields-FieldsLack : (line : Text) → Lacks 10 line → FieldsLack (map_fields line)
unfolding map_fields
map_fields-FieldsLack line h = fields (split_at b'|' line) (split_at-PartsLack b'|' line h)
  where
    later :
        (byte_str rest : Text) (o : Option (Text × Text))
        → Lacks 10 rest
        → PartsLack o
        → FieldsLack (elim o [
          | none ↦ some (byte_str, rest, [])
          | some (cmd_name, extra) ↦ some (byte_str, cmd_name, extra)
        ])
    later byte_str rest none h k = (h, tt)
    later byte_str rest (some (a, b)) h k = k

    fields :
        (o : Option (Text × Text))
        → PartsLack o
        → FieldsLack (elim o [
          | none ↦ none
          | some (byte_str, []) ↦ none
          | some (byte_str, c ∷ rest) ↦ elim (split_at b'|' (c ∷ rest)) [
            | none ↦ some (byte_str, c ∷ rest, [])
            | some (cmd_name, extra) ↦ some (byte_str, cmd_name, extra)
          ]
        ])
    fields none k = tt
    fields (some (a, [])) k = tt
    fields (some (a, c ∷ rest)) (ka, kb) =
        later a (c ∷ rest) (split_at b'|' (c ∷ rest)) kb (split_at-PartsLack b'|' (c ∷ rest) kb)

load_map_line-IsEntry :
    (raw : Text) (m : CommandMap) → Lacks 10 raw → All IsEntry m → All IsEntry (load_map_line raw m)
unfolding load_map_line
load_map_line-IsEntry raw m h hs = elim (Bool-cases (is_read (trim raw))) [
  | inr skipped ↦ rw skipped hs
  | inl read ↦
      rw read (entry (map_fields (trim raw)) (map_fields-FieldsLack (trim raw) (trim-Lacks raw h)))
]
  where
    entry :
        (o : Option (Text × Text × Text))
        → FieldsLack o
        → All IsEntry (elim o [
          | none ↦ m
          | some (byte_str, cmd_name, extra) ↦
              add_command (trim byte_str) (trim cmd_name) (trim extra) m
        ])
    entry none k = hs
    entry (some (byte_str, cmd_name, extra)) (a, b) =
        add_command-IsEntry (trim byte_str) (trim cmd_name) (trim extra) m (trim-Lacks cmd_name a)
          (trim-Lacks extra b) hs

load_map_lines-IsEntry :
    (ls : List Text) (m : CommandMap)
    → All (Lacks 10) ls
    → All IsEntry m
    → All IsEntry (load_map_lines ls m)
unfolding load_map_lines
load_map_lines-IsEntry [] m h hs = hs
load_map_lines-IsEntry (l ∷ ls) m (h, k) hs =
    load_map_lines-IsEntry ls (load_map_line l m) k (load_map_line-IsEntry l m h hs)

-- Whatever file LoadCommandMap reads, every entry of the map has a key that is a byte, a command
-- name that is not empty, and a name and parameters without a newline, if the map was so before.
pub load_command_map-IsEntry :
    (file : Option Text) (m : CommandMap) → All IsEntry m → All IsEntry (load_command_map file m).1
unfolding load_command_map lines
load_command_map-IsEntry none m hs = hs
load_command_map-IsEntry (some text) m hs =
    load_map_lines-IsEntry (lines text) [] (split-Lacks 10 text) tt

-- A key that is a byte plus any multiple of 2^32, which no byte is, is taken for that byte: the
-- entry is set under it.
pub oversized_key_wraps :
    (byte_str name params : Text) (m : CommandMap) (k byte : ℕ)
    → stoul0 byte_str ≡ some (2 ^ 32 * k + byte)
    → is_empty byte_str ≡ false
    → byte < 256
    → is_empty name ≡ false
    → add_command byte_str name params m ≡ set_command byte (name, params) m
unfolding add_command parse_hex_uint32
oversized_key_wraps byte_str name params m k byte number some_text small named =
    let wrapped : (2 ^ 32 * k + byte) % 2 ^ 32 ≡ byte = omega arith in
    let fits : ltb 255 byte ≡ false = ground arith in
    rw (named, some_text, number, wrapped, fits) refl
