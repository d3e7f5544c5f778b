-- ===== src/Gateway/Checksum.antt =====
-- The checksum of gateway/youyeetoo_eth_gateway.c and packets with a wrong byte.
use youyeetoo_rk3588_toolkit.Prelude.{
  ℕ, zero, suc, ◌+◌, ◌-◌, ◌%◌, ◌<◌, ◌≤◌, ◌≡◌, ◌≢◌, ◌⊎◌, refl, sym, ap, ◌∙◌, [], ◌∷◌, Option, some,
  length, get_or, arith, inl, inr,
}
use youyeetoo_rk3588_toolkit.Prelude.Text.{Text}
use youyeetoo_rk3588_toolkit.Gateway.Packets.{with_result, with_byte, sum_bytes, protocol_checksum}

-- The packet with another byte at an index.
unfoldable pub set_byte : (k b : ℕ) → Text → Text
set_byte k b [] = []
set_byte zero b (c ∷ bytes) = b ∷ bytes
set_byte (suc k) b (c ∷ bytes) = c ∷ set_byte k b bytes

pub length-set_byte : (k b : ℕ) (bytes : Text) → length (set_byte k b bytes) ≡ length bytes
unfolding set_byte
length-set_byte k b [] = refl
length-set_byte zero b (c ∷ bytes) = refl
length-set_byte (suc k) b (c ∷ bytes) = ap suc (length-set_byte k b bytes)

get_or-set_byte_self :
    (k b : ℕ) (bytes : Text) → k < length bytes → get_or (set_byte k b bytes) k 0 ≡ b
unfolding set_byte
get_or-set_byte_self k b [] l = omega arith
get_or-set_byte_self zero b (c ∷ bytes) l = refl
get_or-set_byte_self (suc k) b (c ∷ bytes) l = get_or-set_byte_self k b bytes (omega arith)

pub get_or-set_byte_ne :
    (k b j : ℕ) (bytes : Text) → j ≢ k → get_or (set_byte k b bytes) j 0 ≡ get_or bytes j 0
unfolding set_byte
get_or-set_byte_ne k b j [] h = refl
get_or-set_byte_ne zero b zero (c ∷ bytes) h = absurd (h refl)
get_or-set_byte_ne zero b (suc j) (c ∷ bytes) h = refl
get_or-set_byte_ne (suc k) b zero (c ∷ bytes) h = refl
get_or-set_byte_ne (suc k) b (suc j) (c ∷ bytes) h =
    get_or-set_byte_ne k b j bytes (λ e. h (ap suc e))

-- The sum of the bytes of a range that the packet has.
sum : Text → (i n : ℕ) → ℕ
sum bytes i zero = 0
sum bytes i (suc n) = get_or bytes i 0 + sum bytes (i + 1) n

pub with_byte-get_or :
    {A : Type 0} (bytes : Text) (i : ℕ) (k : ℕ → Option A)
    → i < length bytes
    → with_byte bytes i k ≡ k (get_or bytes i 0)
unfolding with_byte
with_byte-get_or [] i k l = ground arith
with_byte-get_or (c ∷ bytes) zero k l = refl
with_byte-get_or (c ∷ bytes) (suc i) k l = with_byte-get_or bytes i k (omega arith)

sum_bytes-sum :
    (bytes : Text) (i n : ℕ) → i + n ≤ length bytes → sum_bytes bytes i n ≡ some (sum bytes i n)
unfolding sum_bytes sum with_result
sum_bytes-sum bytes i zero l = refl
sum_bytes-sum bytes i (suc n) l =
    with_byte-get_or bytes i _ (omega arith)
    ∙ ap (λ o. with_result o (λ s. some (get_or bytes i 0 + s)))
        (sum_bytes-sum bytes (i + 1) n (omega arith))

protocol_checksum-sum :
    (bytes : Text) (n : ℕ)
    → 8 + n ≤ length bytes
    → protocol_checksum bytes 0 n ≡ some (65535 - (sum bytes 2 6 + sum bytes 8 n) % 65536)
unfolding protocol_checksum with_result
protocol_checksum-sum bytes n l =
    rw (sum_bytes-sum bytes 2 6 (omega arith), sum_bytes-sum bytes 8 n l) refl

-- A range without the index keeps its sum.
sum-outside :
    (k b i n : ℕ) (bytes : Text)
    → (k < i) ⊎ (i + n ≤ k)
    → sum (set_byte k b bytes) i n ≡ sum bytes i n
unfolding sum
sum-outside k b i zero bytes h = refl
sum-outside k b i (suc n) bytes h = omega (
  arith,
  get_or-set_byte_ne k b i bytes (ground arith),
  sum-outside k b (i + 1) n bytes (ground arith),
)

eq_or_lt : (i k : ℕ) → i ≤ k → (i ≡ k) ⊎ (i < k)
eq_or_lt i k h = omega arith

lt_or_le : (k n : ℕ) → (k < n) ⊎ (n ≤ k)
lt_or_le k n = omega arith

-- A range with the index changes its sum by the difference of the bytes.
sum-inside :
    (k b i n : ℕ) (bytes : Text)
    → i ≤ k
    → k < i + n
    → k < length bytes
    → sum (set_byte k b bytes) i n + get_or bytes k 0 ≡ sum bytes i n + b
unfolding sum
sum-inside k b i zero bytes h l f = omega arith
sum-inside k b i (suc n) bytes h l f = elim (eq_or_lt i k h) [
  | inl here ↦
      let self : get_or (set_byte k b bytes) i 0 ≡ b =
        ap (λ j. get_or (set_byte k b bytes) j 0) here ∙ get_or-set_byte_self k b bytes f in
      let old : get_or bytes i 0 ≡ get_or bytes k 0 = ap (λ j. get_or bytes j 0) here in
      omega (arith, self, old, sum-outside k b (i + 1) n bytes (inl (omega arith)))
  | inr later ↦ omega (
    arith,
    get_or-set_byte_ne k b i bytes (omega arith),
    sum-inside k b (i + 1) n bytes (omega arith) (omega arith) f,
  )
]

-- The sum of both ranges of the checksum.
moves :
    (bytes : Text) (n k b : ℕ)
    → 8 + n ≤ length bytes
    → 2 ≤ k
    → k < 8 + n
    → sum (set_byte k b bytes) 2 6 + sum (set_byte k b bytes) 8 n + get_or bytes k 0
      ≡ sum bytes 2 6 + sum bytes 8 n + b
moves bytes n k b fits from to = elim (lt_or_le k 8) [
  | inl head ↦ omega (
    arith,
    sum-inside k b 2 6 bytes from (omega arith) (omega arith),
    sum-outside k b 8 n bytes (inl head),
  )
  | inr body ↦ omega (
    arith,
    sum-inside k b 8 n bytes body to (omega arith),
    sum-outside k b 2 6 bytes (inr (omega arith)),
  )
]

-- A packet with one wrong byte behind its marker has another checksum, over as many bytes of data.
pub protocol_checksum-set_byte :
    (bytes : Text) (n k b : ℕ)
    → 8 + n ≤ length bytes
    → 2 ≤ k
    → k < 8 + n
    → b < 256
    → get_or bytes k 0 < 256
    → b ≢ get_or bytes k 0
    → protocol_checksum (set_byte k b bytes) 0 n ≢ protocol_checksum bytes 0 n
protocol_checksum-set_byte bytes n k b fits from to small old differs e =
    let right = protocol_checksum-sum bytes n fits in
    let wrong =
      protocol_checksum-sum (set_byte k b bytes) n (omega (arith, length-set_byte k b bytes)) in
    let same : some (65535 - (sum (set_byte k b bytes) 2 6 + sum (set_byte k b bytes) 8 n) % 65536)
        ≡ some (65535 - (sum bytes 2 6 + sum bytes 8 n) % 65536) =
      sym wrong ∙ e ∙ right in
    let moved : sum (set_byte k b bytes) 2 6 + sum (set_byte k b bytes) 8 n + get_or bytes k 0
        ≡ sum bytes 2 6 + sum bytes 8 n + b =
      moves bytes n k b fits from to in
    ground arith
