-- ===== src/Prelude/Ints.antt =====
-- Signed integers over the native numbers: what the source keeps in an `int` or a `pid_t`.
use Prim.Native.Nat.{ℕ, zero, suc, ◌+◌, ◌-◌}
use mathlib.Core.Path.{◌≡◌}
use mathlib.Core.Logic.{◌↔◌}
use mathlib.Core.Bool.{Bool, true, false}
use native.Mathlib.Omega.{arith}
use youyeetoo_rk3588_toolkit.Prelude.Tests.{ltb, leb, ◌==◌, if◌then◌else◌}

-- `negsuc n` is -(n + 1).
pub data ℤ : Type 0 where
  pos : ℕ → ℤ
  negsuc : ℕ → ℤ

abbrev pub minus_one : ℤ
minus_one = negsuc 0

-- x ≥ 0
abbrev pub is_nonneg : ℤ → Bool
is_nonneg (pos n) = true
is_nonneg (negsuc n) = false

-- x > 0
abbrev pub is_positive : ℤ → Bool
is_positive (pos n) = ltb 0 n
is_positive (negsuc n) = false

-- x + 1
abbrev pub suc_ℤ : ℤ → ℤ
suc_ℤ (pos n) = pos (suc n)
suc_ℤ (negsuc zero) = pos 0
suc_ℤ (negsuc (suc n)) = negsuc n

-- x ≤ y
abbrev pub leb_ℤ : ℤ → ℤ → Bool
leb_ℤ (pos a) (pos b) = leb a b
leb_ℤ (pos a) (negsuc b) = false
leb_ℤ (negsuc a) (pos b) = true
leb_ℤ (negsuc a) (negsuc b) = leb b a

abbrev pub max_ℤ : ℤ → ℤ → ℤ
max_ℤ a b = if leb_ℤ a b then b else a

-- n + x, and 0 where that is negative.
abbrev pub add_ℤ : ℕ → ℤ → ℕ
add_ℤ n (pos k) = n + k
add_ℤ n (negsuc k) = n - suc k

abbrev pub eq_ℤ : ℤ → ℤ → Bool
eq_ℤ (pos a) (pos b) = a == b
eq_ℤ (negsuc a) (negsuc b) = a == b
eq_ℤ _ _ = false

pub eq_ℤ_iff : (a b : ℤ) → (eq_ℤ a b ≡ true) ↔ (a ≡ b)
eq_ℤ_iff (pos a) (pos b) = ground arith
eq_ℤ_iff (pos a) (negsuc b) = ground arith
eq_ℤ_iff (negsuc a) (pos b) = ground arith
eq_ℤ_iff (negsuc a) (negsuc b) = ground arith
