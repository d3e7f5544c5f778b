-- ===== src/Watchdog/Notify.antt =====
-- The socket address that SdNotify of app/src/watchdog_service.cpp builds from NOTIFY_SOCKET.
use youyeetoo_rk3588_toolkit.Prelude.{
  ℕ, zero, suc, ◌+◌, ◌-◌, ◌≤◌, ◌≡◌, refl, true, false, [], ◌∷◌, ◌++◌, arith, length, take,
  replicate, ◌==◌, ap, ◌∙◌, Bool, Bool-cases, inl, inr, if◌then◌else◌,
}
use youyeetoo_rk3588_toolkit.Prelude.Text.{Text}
use youyeetoo_rk3588_toolkit.Prelude.Splitting.{Lacks}
use youyeetoo_rk3588_toolkit.Watchdog.{strlen, sun_path, notify_address}

strlen-append : (s rest : Text) → Lacks 0 s → strlen (s ++ 0 ∷ rest) ≡ length s
unfolding strlen
strlen-append [] rest h = refl
strlen-append (c ∷ s) rest (h, hs) = rw h (ap suc (strlen-append s rest hs))

take-append : (s : Text) (c : ℕ) (rest : Text) → take (suc (length s)) (s ++ c ∷ rest) ≡ s ++ c ∷ []
take-append [] c rest = refl
take-append (b ∷ s) c rest = ap (λ (t : Text). b ∷ t) (take-append s c rest)

take_whole : (n : ℕ) (s : Text) → length s ≤ n → take n s ≡ s
take_whole zero [] h = refl
take_whole zero (c ∷ s) h = grind arith
take_whole (suc n) [] h = refl
take_whole (suc n) (c ∷ s) h = ap (λ (t : Text). c ∷ t) (take_whole n s (omega arith))

padding : (s : Text) (n : ℕ) → (s ++ replicate n 0) ++ 0 ∷ [] ≡ s ++ 0 ∷ replicate n 0
padding [] zero = refl
padding [] (suc n) = ap (λ (t : Text). 0 ∷ t) (padding [] n)
padding (c ∷ s) n = ap (λ (t : Text). c ∷ t) (padding s n)

-- The terminated text is what the address covers of a buffer that holds it.
terminated :
    (s rest path : Text)
    → Lacks 0 s
    → path ≡ s ++ 0 ∷ rest
    → take (strlen path + 1) path ≡ s ++ 0 ∷ []
terminated s rest path h e =
    let size : strlen path + 1 ≡ suc (length s) = rw (e, strlen-append s rest h) (omega arith) in
    rw (size, e) (take-append s 0 rest)

-- Whether the path names an abstract socket.
unfoldable pub is_abstract : Text → Bool
is_abstract [] = false
is_abstract (c ∷ name) = c == b'@'

sun_path_plain :
    (s : Text)
    → is_abstract s ≡ false
    → length s ≤ 107
    → sun_path s ≡ s ++ 0 ∷ replicate (107 - length s) 0
unfolding sun_path is_abstract
sun_path_plain [] plain short = padding [] 107
sun_path_plain (c ∷ name) plain short =
    let zeros = 107 - length (c ∷ name) in
    rw plain (
      ap (λ (t : Text). (t ++ replicate zeros 0) ++ 0 ∷ []) (take_whole 107 (c ∷ name) short)
      ∙ padding (c ∷ name) zeros)

abstract_address : (s : Text) → is_abstract s ≡ true → notify_address s ≡ 0 ∷ []
unfolding notify_address sun_path is_abstract strlen
abstract_address [] at = cc
abstract_address (c ∷ name) at = rw at refl

-- For a NOTIFY_SOCKET of at most 107 bytes without a zero byte, the address that SdNotify sends to
-- is that path with its terminating zero if the path does not begin with @, and the empty abstract
-- name, whatever name follows, if it does.
pub notify_address_names :
    (s : Text)
    → Lacks 0 s
    → length s ≤ 107
    → notify_address s ≡ (if is_abstract s then 0 ∷ [] else s ++ 0 ∷ [])
unfolding notify_address
notify_address_names s h short = elim (Bool-cases (is_abstract s)) [
  | inl at ↦ rw at (abstract_address s at)
  | inr plain ↦
      rw plain
        (terminated s (replicate (107 - length s) 0) (sun_path s) h (sun_path_plain s plain short))
]
