-- ===== src/Result.antt =====
-- Fallible code: a Boolean result with `*error_message`, as one value.
use youyeetoo_rk3588_toolkit.Prelude.{◌≡◌, ◌⊎◌, inl, inr, refl}
use youyeetoo_rk3588_toolkit.Prelude.Text.{Text}

pub data Result {ℓ} (A : Type ℓ) : Type ℓ where
  ok : A → Result A
  err : Text → Result A

infixl 5 ◌>>=◌
abbrev pub ◌>>=◌ {ℓ κ} : {A : Type ℓ} {B : Type κ} → Result A → (A → Result B) → Result B
ok a >>= f = f a
err e >>= f = err e

pub Result-cases {ℓ} :
    {A : Type ℓ} (r : Result A) → ((a : A) × (r ≡ ok a)) ⊎ ((e : Text) × (r ≡ err e))
Result-cases (ok a) = inl (a, refl)
Result-cases (err e) = inr (e, refl)
