-- ===== src/Number/Decimal.antt =====
-- The printed numbers of the C++ library are read back as they were.
use youyeetoo_rk3588_toolkit.Prelude.{
  ℕ, zero, suc, ◌+◌, ◌-◌, ◌*◌, ◌/◌, ◌%◌, ◌^◌, ◌<◌, ◌≡◌, refl, sym, ap, ◌∙◌, Bool, true, false, [],
  ◌∷◌, ◌++◌, Option, none, some, ℤ, pos, negsuc, All, Bool-cases, inl, inr, ltb, arith, lt→ltb,
  if◌then◌else◌,
}
use youyeetoo_rk3588_toolkit.Prelude.Text.{Text, is_digit, is_space, drop_spaces}
use youyeetoo_rk3588_toolkit.Number.{
  digit_value, read_digits, decimal, to_string, int_text, stoi, stoll, stoull, in_int, in_long,
  sign_of,
}

abbrev pub AllDigits : Text → Type 0
AllDigits = All (λ c. is_digit c ≡ true)

abbrev value_of : Option ℕ → ℕ
value_of none = 0
value_of (some n) = n

digit_value_decimal : (d : ℕ) → d < 10 → digit_value 10 (48 + d) ≡ some d
unfolding digit_value
digit_value_decimal d h = ground arith

is_digit→value : (c : ℕ) → is_digit c ≡ true → digit_value 10 c ≡ some (c - 48)
unfolding digit_value
is_digit→value c h = ground arith

read_digits-digit :
    (acc : Option ℕ) (c d : ℕ) (s : Text)
    → digit_value 10 c ≡ some d
    → read_digits 10 acc (c ∷ s) ≡ read_digits 10 (some (value_of acc * 10 + d)) s
unfolding read_digits
read_digits-digit none c d s h = rw (h, read_digits) refl
read_digits-digit (some a) c d s h = rw (h, read_digits) refl

read_digits_end : (acc : Option ℕ) → read_digits 10 acc [] ≡ acc
unfolding read_digits
read_digits_end acc = refl

read_digits-snoc :
    (acc : Option ℕ) (s : Text) (d : ℕ)
    → AllDigits s
    → d < 10
    → read_digits 10 acc (s ++ (48 + d) ∷ []) ≡ some (value_of (read_digits 10 acc s) * 10 + d)
read_digits-snoc acc [] d h l =
    read_digits-digit acc (48 + d) d [] (digit_value_decimal d l)
    ∙ read_digits_end (some (value_of acc * 10 + d))
    ∙ ap (λ o. some (value_of o * 10 + d)) (sym (read_digits_end acc))
read_digits-snoc acc (c ∷ s) d (h, hs) l =
    let first = read_digits-digit acc c (c - 48) (s ++ (48 + d) ∷ []) (is_digit→value c h) in
    first
    ∙ read_digits-snoc (some (value_of acc * 10 + (c - 48))) s d hs l
    ∙ ap (λ o. some (value_of o * 10 + d))
        (sym (read_digits-digit acc c (c - 48) s (is_digit→value c h)))

AllDigits-snoc : (s : Text) (d : ℕ) → AllDigits s → d < 10 → AllDigits (s ++ (48 + d) ∷ [])
AllDigits-snoc [] d h l = (ground arith, tt)
AllDigits-snoc (c ∷ s) d (h, hs) l = (h, AllDigits-snoc s d hs l)

decimal-AllDigits : (fuel n : ℕ) → AllDigits (decimal fuel n)
unfolding decimal
decimal-AllDigits zero n = tt
decimal-AllDigits (suc fuel) n = elim (Bool-cases (ltb n 10)) [
  | inl small ↦ rw small (ground arith, tt)
  | inr large ↦ rw large (
      AllDigits-snoc (decimal fuel (n / 10)) (n % 10) (decimal-AllDigits fuel (n / 10))
        (omega arith))
]

read_digits-decimal : (fuel n : ℕ) → n < fuel → read_digits 10 none (decimal fuel n) ≡ some n
unfolding decimal
read_digits-decimal zero n h = ground arith
read_digits-decimal (suc fuel) n h = elim (Bool-cases (ltb n 10)) [
  | inl small ↦ rw small (
      read_digits-digit none (48 + n) n [] (digit_value_decimal n (ground arith))
      ∙ read_digits_end (some (0 * 10 + n))
      ∙ ap (λ (v : ℕ). some v) (omega arith))
  | inr large ↦
      let smaller : n / 10 < fuel = ground arith in
      let whole : n / 10 * 10 + n % 10 ≡ n = omega arith in
      rw
        (
          large,
          read_digits-snoc none (decimal fuel (n / 10)) (n % 10) (decimal-AllDigits fuel (n / 10))
              (omega arith),
          read_digits-decimal fuel (n / 10) smaller,
        )
        (ap (λ (v : ℕ). some v) whole)
]

-- A digit is neither a space nor a sign.
sign_of-digit : (s : Text) → AllDigits s → sign_of (drop_spaces is_space s) ≡ (false, s)
unfolding drop_spaces
sign_of-digit [] h = refl
sign_of-digit (c ∷ s) (h, hs) = ground arith

sign_of-minus : (s : Text) → sign_of (drop_spaces is_space (b'-' ∷ s)) ≡ (true, s)
unfolding drop_spaces
sign_of-minus s = refl

pub read_digits-to_string : (n : ℕ) → read_digits 10 none (to_string n) ≡ some n
unfolding to_string
read_digits-to_string n = read_digits-decimal (suc n) n (omega arith)

pub to_string-AllDigits : (n : ℕ) → AllDigits (to_string n)
unfolding to_string
to_string-AllDigits n = decimal-AllDigits (suc n) n

-- The values of `int`, `int64_t` and `uint64_t`.
abbrev pub IsSigned : ℕ → ℤ → Type 0
IsSigned bits (pos n) = n < 2 ^ bits
IsSigned bits (negsuc n) = n < 2 ^ bits

-- The number that a sign and digits spell, if it lies in the range.
abbrev convert {ℓ} : {A : Type ℓ} → (Bool → ℕ → Option A) → Bool × Text → Option A
convert in_range p = elim (read_digits 10 none p.1) [ none ↦ none | some n ↦ in_range p.0 n ]

convert_signed {ℓ} :
    {A : Type ℓ} (in_range : Bool → ℕ → Option A) (s digits : Text) (n : ℕ) (negative : Bool)
    → sign_of (drop_spaces is_space s) ≡ (negative, digits)
    → read_digits 10 none digits ≡ some n
    → convert in_range (sign_of (drop_spaces is_space s)) ≡ in_range negative n
convert_signed {A = A} in_range s digits n negative h e =
    let found : Option ℕ → Option A = λ o. elim o [ none ↦ none | some k ↦ in_range negative k ] in
    ap (convert in_range) h ∙ ap found e

module _ (n : ℕ) {A : Type 0} (in_range : Bool → ℕ → Option A) where
  convert_nonnegative :
      convert in_range (sign_of (drop_spaces is_space (to_string n))) ≡ in_range false n
  convert_nonnegative =
      convert_signed in_range (to_string n) (to_string n) n false
        (sign_of-digit (to_string n) (to_string-AllDigits n)) (read_digits-to_string n)

  convert_negative :
      convert in_range (sign_of (drop_spaces is_space (b'-' ∷ to_string n))) ≡ in_range true n
  convert_negative =
      convert_signed in_range (b'-' ∷ to_string n) (to_string n) n true
        (sign_of-minus (to_string n)) (read_digits-to_string n)

pub stoi-int_text : (z : ℤ) → IsSigned 31 z → stoi (int_text z) ≡ some z
unfolding stoi int_text
stoi-int_text (pos n) h = convert_nonnegative n in_int ∙ ground arith
stoi-int_text (negsuc n) h = convert_negative (suc n) in_int ∙ ground arith

pub stoll-int_text : (z : ℤ) → IsSigned 63 z → stoll (int_text z) ≡ some z
unfolding stoll int_text
stoll-int_text (pos n) h = convert_nonnegative n in_long ∙ ground arith
stoll-int_text (negsuc n) h = convert_negative (suc n) in_long ∙ ground arith

pub stoull-to_string : (n : ℕ) → n < 2 ^ 64 → stoull (to_string n) ≡ some n
unfolding stoull
stoull-to_string n h =
    convert_nonnegative n (λ negative n.
      if ltb n (2 ^ 64) then some (if negative then (2 ^ 64 - n) % 2 ^ 64 else n) else none)
    ∙ rw (lt→ltb n (2 ^ 64) h) refl
