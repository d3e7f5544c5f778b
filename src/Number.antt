-- ===== src/Number.antt =====
-- The conversions between numbers and texts of the C++ library that the source calls: std::stoi,
-- std::stoul with base 0, and std::to_string.
pub mod Decimal
use youyeetoo_rk3588_toolkit.Prelude.{
  ℕ, zero, suc, ◌+◌, ◌-◌, ◌*◌, ◌/◌, ◌%◌, ◌^◌, Bool, true, false, ◌&&◌, ◌||◌, [], ◌∷◌, ◌++◌, Option,
  none, some, ℤ, pos, negsuc, ltb, leb, ◌==◌, if◌then◌else◌,
}
use youyeetoo_rk3588_toolkit.Prelude.Text.{Text, drop_spaces, is_space, is_digit}

-- The value of a digit in a base up to 16, if the character is one.
unfoldable pub digit_value : ℕ → ℕ → Option ℕ
digit_value base c =
    let value : ℕ =
      if is_digit c
      then c - 48
      else if leb b'a' c && leb c b'f'
      then c - 87
      else if leb b'A' c && leb c b'F'
      then c - 55
      else 16 in
    if ltb value base then some value else none

-- The number that the digits at the front of the text spell, behind what has been read of it
-- (`none`: no digit yet). What follows the digits is ignored.
unfoldable pub read_digits : ℕ → Option ℕ → Text → Option ℕ
unfolding digit_value
read_digits base acc [] = acc
read_digits base acc (c ∷ cs) =
    let so_far : ℕ = elim acc [ none ↦ 0 | some n ↦ n ] in
    elim (digit_value base c) [
      | none ↦ acc
      | some d ↦ read_digits base (some (so_far * base + d)) cs
    ]

-- Whether a minus sign stands in front, and the text behind the sign.
abbrev pub sign_of : Text → Bool × Text
sign_of [] = (false, [])
sign_of (c ∷ cs) =
    if c == b'-' then (true, cs) else if c == b'+' then (false, cs) else (false, c ∷ cs)

abbrev pub negate : ℕ → ℤ
negate zero = pos 0
negate (suc n) = negsuc n

-- A value in the range of `int`.
abbrev pub in_int : Bool → ℕ → Option ℤ
in_int true n = if leb n (2 ^ 31) then some (negate n) else none
in_int false n = if ltb n (2 ^ 31) then some (pos n) else none

-- std::stoi; `none` where it throws.
unfoldable pub stoi : Text → Option ℤ
unfolding read_digits drop_spaces
stoi s =
    let (negative, digits) = sign_of (drop_spaces is_space s) in
    elim (read_digits 10 none digits) [ none ↦ none | some n ↦ in_int negative n ]

-- The number behind a prefix 0x (hexadecimal), 0 (octal) or none (decimal). A prefix 0x that no
-- hexadecimal digit follows is read as the number 0.
unfoldable pub read_prefixed : Text → Option ℕ
unfolding read_digits
read_prefixed [] = none
read_prefixed (c ∷ []) = read_digits 10 none (c ∷ [])
read_prefixed (c ∷ d ∷ cs) =
    if c == b'0' && (d == b'x' || d == b'X')
    then (elim (read_digits 16 none cs) [ none ↦ some 0 | some n ↦ some n ])
    else if c == b'0'
    then read_digits 8 none (c ∷ d ∷ cs)
    else read_digits 10 none (c ∷ d ∷ cs)

-- A hexadecimal number with or without a prefix 0x.
unfoldable pub read_hexadecimal : Text → Option ℕ
unfolding read_digits
read_hexadecimal [] = none
read_hexadecimal (c ∷ []) = read_digits 16 none (c ∷ [])
read_hexadecimal (c ∷ d ∷ cs) =
    if c == b'0' && (d == b'x' || d == b'X')
    then (elim (read_digits 16 none cs) [ none ↦ some 0 | some n ↦ some n ])
    else read_digits 16 none (c ∷ d ∷ cs)

-- std::stoul(s, nullptr, 0) with a 64-bit `unsigned long`; `none` where it throws. A minus sign
-- negates modulo 2^64.
unfoldable pub stoul0 : Text → Option ℕ
unfolding read_prefixed drop_spaces
stoul0 s =
    let (negative, digits) = sign_of (drop_spaces is_space s) in
    elim (read_prefixed digits) [
      | none ↦ none
      | some n ↦
          if ltb n (2 ^ 64) then some (if negative then (2 ^ 64 - n) % 2 ^ 64 else n) else none
    ]

-- std::stoul(s, nullptr, 16), likewise.
unfoldable pub stoul16 : Text → Option ℕ
unfolding read_hexadecimal drop_spaces
stoul16 s =
    let (negative, digits) = sign_of (drop_spaces is_space s) in
    elim (read_hexadecimal digits) [
      | none ↦ none
      | some n ↦
          if ltb n (2 ^ 64) then some (if negative then (2 ^ 64 - n) % 2 ^ 64 else n) else none
    ]

-- The decimal digits, with fuel for their number; `suc n` is fuel enough for `n`.
unfoldable pub decimal : ℕ → ℕ → Text
decimal zero n = []
decimal (suc fuel) n =
    let front = decimal fuel (n / 10) in
    if ltb n 10 then (48 + n) ∷ [] else front ++ (48 + n % 10) ∷ []

-- std::to_string
unfoldable pub to_string : ℕ → Text
unfolding decimal
to_string n = decimal (suc n) n

-- A value in the range of `int64_t`.
abbrev pub in_long : Bool → ℕ → Option ℤ
in_long true n = if leb n (2 ^ 63) then some (negate n) else none
in_long false n = if ltb n (2 ^ 63) then some (pos n) else none

-- std::stoll; `none` where it throws.
unfoldable pub stoll : Text → Option ℤ
unfolding read_digits drop_spaces
stoll s =
    let (negative, digits) = sign_of (drop_spaces is_space s) in
    elim (read_digits 10 none digits) [ none ↦ none | some n ↦ in_long negative n ]

-- std::stoull; `none` where it throws. A minus sign negates modulo 2^64.
unfoldable pub stoull : Text → Option ℕ
unfolding read_digits drop_spaces
stoull s =
    let (negative, digits) = sign_of (drop_spaces is_space s) in
    elim (read_digits 10 none digits) [
      | none ↦ none
      | some n ↦
          if ltb n (2 ^ 64) then some (if negative then (2 ^ 64 - n) % 2 ^ 64 else n) else none
    ]

-- A signed number as a stream prints it.
unfoldable pub int_text : ℤ → Text
unfolding to_string
int_text (pos n) = to_string n
int_text (negsuc n) = b'-' ∷ to_string (suc n)
