-- ===== src/CameraWorker/Messages.antt =====
-- The messages of app/src/camera_worker.cpp carry every value as it is.
use youyeetoo_rk3588_toolkit.Prelude.{
  ℕ, ◌≡◌, refl, ap, ◌∙◌, false, List, [], ◌∷◌, ◌++◌, All, Bool-cases, inl, inr, ==_iff, ◌==◌,
}
use youyeetoo_rk3588_toolkit.Prelude.Text.{Text}
use youyeetoo_rk3588_toolkit.Prelude.Splitting.{Lacks, Lacks-append, split-append, split_at-append}
use youyeetoo_rk3588_toolkit.Prelude.Dict.{insert}
use youyeetoo_rk3588_toolkit.FileSystem.{lines}
use youyeetoo_rk3588_toolkit.CameraWorker.{kv_encode, kv_decode, parse_lines, parse_kv, append_kv}

kv_encode-Lacks : (v : Text) → Lacks 10 (kv_encode v)
unfolding kv_encode
kv_encode-Lacks [] = tt
kv_encode-Lacks (c ∷ v) = elim (Bool-cases (c == b'\\')) [
  | inl slash ↦ rw slash (refl, (refl, kv_encode-Lacks v))
  | inr other ↦ rw other (elim (Bool-cases (c == 10)) [
    | inl newline ↦ rw newline (refl, (refl, kv_encode-Lacks v))
    | inr plain ↦ rw plain (plain, kv_encode-Lacks v)
  ])
]

-- A character that is no backslash is decoded as itself.
kv_decode_plain : (c : ℕ) (v : Text) → (c == b'\\') ≡ false → kv_decode (c ∷ v) ≡ c ∷ kv_decode v
unfolding kv_decode
kv_decode_plain c [] h = refl
kv_decode_plain c (d ∷ v) h = rw h refl

-- Every value is decoded as it was encoded.
kv_decode-kv_encode : (v : Text) → kv_decode (kv_encode v) ≡ v
unfolding kv_decode kv_encode
kv_decode-kv_encode [] = refl
kv_decode-kv_encode (c ∷ v) = elim (Bool-cases (c == b'\\')) [
  | inl slash ↦
      rw slash
        (rw ((==_iff c b'\\').0 slash) (ap (λ (t : Text). b'\\' ∷ t) (kv_decode-kv_encode v)))
  | inr other ↦ rw other (elim (Bool-cases (c == 10)) [
    | inl newline ↦
        rw newline
          (rw ((==_iff c 10).0 newline) (ap (λ (t : Text). 10 ∷ t) (kv_decode-kv_encode v)))
    | inr plain ↦
        rw plain
          (kv_decode_plain c (kv_encode v) other ∙ ap (λ (t : Text). c ∷ t) (kv_decode-kv_encode v))
  ])
]

-- The entries of a map after the given ones are stored in their order.
unfoldable pub store : List (Text × Text) → List (Text × Text) → List (Text × Text)
store [] kv = kv
store ((k, v) ∷ rest) kv = store rest (insert k v kv)

-- A key of one line without an equals sign.
abbrev pub IsKey : Text × Text → Type 0
IsKey entry = Lacks b'=' entry.0 × Lacks 10 entry.0

first_entry :
    (k v : Text) (ls : List Text) (kv : List (Text × Text))
    → Lacks b'=' k
    → parse_lines ((k ++ (b'=' ∷ kv_encode v)) ∷ ls) kv ≡ parse_lines ls (insert k v kv)
unfolding parse_lines
first_entry k v ls kv h =
    rw (split_at-append b'=' k (kv_encode v) h, parse_lines)
      (ap (λ value. parse_lines ls (insert k value kv)) (kv_decode-kv_encode v))

parse_entries :
    (entries kv : List (Text × Text))
    → All IsKey entries
    → parse_lines (lines (append_kv entries)) kv ≡ store entries kv
unfolding append_kv parse_lines lines store
parse_entries [] kv h = refl
parse_entries ((k, v) ∷ rest) kv ((no_equals, one_line), hs) =
    let whole : Lacks 10 (k ++ (b'=' ∷ kv_encode v)) =
      Lacks-append 10 k (b'=' ∷ kv_encode v) one_line (refl, kv_encode-Lacks v) in
    ap (λ ls. parse_lines ls kv)
      (split-append 10 (k ++ (b'=' ∷ kv_encode v)) (append_kv rest) whole)
    ∙ first_entry k v (lines (append_kv rest)) kv no_equals
    ∙ parse_entries rest (insert k v kv) hs

-- A message of entries is read back as these entries stored in their order, whatever bytes the
-- values hold, if no key has an equals sign or a newline.
pub parse_kv-append_kv :
    (entries : List (Text × Text))
    → All IsKey entries
    → parse_kv (append_kv entries) ≡ store entries []
unfolding parse_kv
parse_kv-append_kv entries h = parse_entries entries [] h
