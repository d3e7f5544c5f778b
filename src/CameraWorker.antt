-- ===== src/CameraWorker.antt =====
-- The messages of app/src/camera_worker.cpp: lines `key=value`, in which the value's newlines and
-- backslashes are escaped, so that a message is one datagram of whole lines.
pub mod Messages
pub mod Codes
pub mod Fields
pub mod Snapshots
pub mod RoundTrip
pub mod Delivery
pub mod Report
pub mod Proxy
pub mod Loop
pub mod Refinement
pub mod Requests
pub mod Answers
pub mod Stale
mod Deliveries
mod Crossings
pub mod Tests
use youyeetoo_rk3588_toolkit.Prelude.{
  ℕ, Bool, List, [], ◌∷◌, ◌++◌, Option, none, some, ◌==◌, if◌then◌else◌,
}
use youyeetoo_rk3588_toolkit.Prelude.Text.{Text, split_at}
use youyeetoo_rk3588_toolkit.Prelude.Dict.{insert}
use youyeetoo_rk3588_toolkit.FileSystem.{lines}

-- KvEncode
unfoldable pub kv_encode : Text → Text
kv_encode [] = []
kv_encode (c ∷ v) =
    let rest = kv_encode v in
    if c == b'\\' then b'\\' ∷ b'\\' ∷ rest else if c == 10 then b'\\' ∷ b'n' ∷ rest else c ∷ rest

-- KvDecode; a backslash that ends the text stands for itself.
unfoldable pub kv_decode : Text → Text
kv_decode [] = []
kv_decode (c ∷ []) = c ∷ []
kv_decode (c ∷ d ∷ v) =
    let behind_escape = kv_decode v in
    let behind = kv_decode (d ∷ v) in
    if c == b'\\' then (if d == b'n' then 10 else d) ∷ behind_escape else c ∷ behind

-- The loop of ParseKV.
unfoldable pub parse_lines : List Text → List (Text × Text) → List (Text × Text)
unfolding split_at kv_decode insert
parse_lines [] kv = kv
parse_lines (line ∷ rest) kv = elim (split_at b'=' line) [
  | none ↦ parse_lines rest kv
  | some (key, value) ↦ parse_lines rest (insert key (kv_decode value) kv)
]

-- ParseKV
unfoldable pub parse_kv : Text → List (Text × Text)
unfolding parse_lines lines
parse_kv msg = parse_lines (lines msg) []

-- AppendKV of a text, for each of the entries in turn.
unfoldable pub append_kv : List (Text × Text) → Text
unfolding kv_encode
append_kv [] = []
append_kv ((k, v) ∷ rest) = (k ++ (b'=' ∷ kv_encode v)) ++ (10 ∷ append_kv rest)
