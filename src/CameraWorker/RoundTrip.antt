-- ===== src/CameraWorker/RoundTrip.antt =====
-- The serialised requests and snapshots of app/src/camera_worker.cpp are parsed as what they were.
use youyeetoo_rk3588_toolkit.Prelude.{
  suc, ◌≡◌, refl, sym, ap, ◌∙◌, Bool, true, false, ◌&&◌, List, [], ◌∷◌, ◌++◌, Option, none, some, ℤ,
  pos, negsuc, All, arith,
}
use youyeetoo_rk3588_toolkit.Prelude.Text.{Text, text_eq, text_eq_iff}
use youyeetoo_rk3588_toolkit.Prelude.Dict.{lookup, insert}
use youyeetoo_rk3588_toolkit.Prelude.Splitting.{lacks, lacks-Lacks}
use youyeetoo_rk3588_toolkit.Number.{int_text, to_string}
use youyeetoo_rk3588_toolkit.Number.Decimal.{AllDigits, to_string-AllDigits}
use youyeetoo_rk3588_toolkit.CameraWorker.{kv_encode, parse_kv, append_kv}
use youyeetoo_rk3588_toolkit.CameraWorker.Messages.{store, IsKey, parse_kv-append_kv}
use youyeetoo_rk3588_toolkit.CameraWorker.Fields.{
  Field, text, int, uint64, bool, field_text, append_fields,
}

-- The text that a field is read back as.
abbrev pub shown : Field → Text
shown (text v) = v
shown (int z) = int_text z
shown (uint64 n) = to_string n
shown (bool true) = b'1' ∷ []
shown (bool false) = b'0' ∷ []

abbrev pub entries : List (Text × Field) → List (Text × Text)
entries [] = []
entries ((k, v) ∷ rest) = (k, shown v) ∷ entries rest

kv_encode_digits : (s : Text) → AllDigits s → kv_encode s ≡ s
unfolding kv_encode
kv_encode_digits [] h = refl
kv_encode_digits (c ∷ s) (h, hs) = ground (arith, kv_encode_digits s hs)

kv_encode-int_text : (z : ℤ) → kv_encode (int_text z) ≡ int_text z
unfolding int_text kv_encode
kv_encode-int_text (pos n) = kv_encode_digits (to_string n) (to_string-AllDigits n)
kv_encode-int_text (negsuc n) =
    ap (λ (s : Text). b'-' ∷ s) (kv_encode_digits (to_string (suc n)) (to_string-AllDigits (suc n)))

field_text-kv_encode : (v : Field) → field_text v ≡ kv_encode (shown v)
unfolding field_text kv_encode
field_text-kv_encode (text v) = refl
field_text-kv_encode (int z) = sym (kv_encode-int_text z)
field_text-kv_encode (uint64 n) = sym (kv_encode_digits (to_string n) (to_string-AllDigits n))
field_text-kv_encode (bool true) = refl
field_text-kv_encode (bool false) = refl

append_fields-append_kv : (fs : List (Text × Field)) → append_fields fs ≡ append_kv (entries fs)
unfolding append_fields append_kv
append_fields-append_kv [] = refl
append_fields-append_kv ((k, v) ∷ rest) =
    rw (field_text-kv_encode v, append_fields-append_kv rest) refl

-- The keys of a map are distinct.
abbrev pub IsMap : List (Text × Text) → Type 0
IsMap [] = Unit
IsMap ((k, v) ∷ kv) = (lookup k kv ≡ none) × IsMap kv

insert_absent :
    (k v : Text) (kv : List (Text × Text)) → lookup k kv ≡ none → insert k v kv ≡ kv ++ (k, v) ∷ []
unfolding lookup insert
insert_absent k v [] h = refl
insert_absent k v ((j, w) ∷ kv) h = ground (arith, insert_absent k v kv)

append_nil : (a : List (Text × Text)) → a ++ [] ≡ a
append_nil [] = refl
append_nil (x ∷ a) = ap (λ (s : List (Text × Text)). x ∷ s) (append_nil a)

absent_apart :
    (j k v : Text) (kv rest : List (Text × Text))
    → lookup j (kv ++ (k, v) ∷ rest) ≡ none
    → text_eq k j ≡ false
unfolding lookup
absent_apart j k v [] rest h = ground arith
absent_apart j k v ((i, w) ∷ kv) rest h = ground (arith, absent_apart j k v kv rest)

-- A key of a map whose keys are distinct is none of those before it.
absent_before :
    (kv : List (Text × Text)) (k v : Text) (rest : List (Text × Text))
    → IsMap (kv ++ (k, v) ∷ rest)
    → lookup k kv ≡ none
unfolding lookup
absent_before [] k v rest h = refl
absent_before ((j, w) ∷ kv) k v rest (h, hs) = ground (
  arith,
  absent_apart j k v kv rest h,
  absent_before kv k v rest hs,
  text_eq_iff j k,
  text_eq_iff k j,
)

append_assoc :
    (a : List (Text × Text)) (e : Text × Text) (b : List (Text × Text))
    → (a ++ e ∷ []) ++ b ≡ a ++ e ∷ b
append_assoc [] e b = refl
append_assoc (x ∷ a) e b = ap (λ (s : List (Text × Text)). x ∷ s) (append_assoc a e b)

store_distinct : (es kv : List (Text × Text)) → IsMap (kv ++ es) → store es kv ≡ kv ++ es
unfolding store
store_distinct [] kv h = sym (append_nil kv)
store_distinct ((k, v) ∷ es) kv h = rw (insert_absent k v kv (absent_before kv k v es h)) (
    store_distinct es (kv ++ (k, v) ∷ []) (rw (append_assoc kv (k, v) es) h)
    ∙ append_assoc kv (k, v) es)

-- The fields of a message whose keys are distinct are read back.
pub parse_kv-append_fields :
    (fs : List (Text × Field))
    → All IsKey (entries fs)
    → IsMap (entries fs)
    → parse_kv (append_fields fs) ≡ entries fs
parse_kv-append_fields fs hk hm =
    ap parse_kv (append_fields-append_kv fs)
    ∙ parse_kv-append_kv (entries fs) hk
    ∙ store_distinct (entries fs) [] hm

-- Tests for keys of one line without an equals sign, and for distinct keys.
abbrev pub are_keys : List (Text × Text) → Bool
are_keys [] = true
are_keys ((k, v) ∷ es) = lacks b'=' k && (lacks 10 k && are_keys es)

abbrev is_none : Option Text → Bool
is_none none = true
is_none (some v) = false

unfoldable pub is_map : List (Text × Text) → Bool
unfolding lookup
is_map [] = true
is_map ((k, v) ∷ es) = is_none (lookup k es) && is_map es

pub are_keys-IsKey : (es : List (Text × Text)) → are_keys es ≡ true → All IsKey es
are_keys-IsKey [] h = tt
are_keys-IsKey ((k, v) ∷ es) h = (
  (lacks-Lacks b'=' k (ground arith), lacks-Lacks 10 k (ground arith)),
  are_keys-IsKey es (ground arith),
)

is_none_lem : (o : Option Text) → is_none o ≡ true → o ≡ none
is_none_lem none h = refl
is_none_lem (some v) h = ground arith

pub is_map-IsMap : (es : List (Text × Text)) → is_map es ≡ true → IsMap es
unfolding is_map
is_map-IsMap [] h = tt
is_map-IsMap ((k, v) ∷ es) h =
    (is_none_lem (lookup k es) (ground arith), is_map-IsMap es (ground arith))

pub All-append {ℓ κ} :
    {A : Type ℓ} (P : A → Type κ) (xs ys : List A) → All P xs → All P ys → All P (xs ++ ys)
All-append P [] ys a b = b
All-append P (x ∷ xs) ys (p, a) b = (p, All-append P xs ys a b)

lookup-append :
    (k : Text) (a b : List (Text × Text))
    → lookup k a ≡ none
    → lookup k b ≡ none
    → lookup k (a ++ b) ≡ none
unfolding lookup
lookup-append k [] b h l = l
lookup-append k ((j, w) ∷ a) b h l = ground (arith, lookup-append k a b)

pub IsMap-append :
    (a b : List (Text × Text))
    → IsMap a
    → IsMap b
    → All (λ e. lookup e.0 b ≡ none) a
    → IsMap (a ++ b)
IsMap-append [] b h l d = l
IsMap-append ((k, v) ∷ a) b (h, hs) l (d, ds) = (lookup-append k a b h d, IsMap-append a b hs l ds)
