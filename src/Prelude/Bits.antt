-- ===== src/Prelude/Bits.antt =====
-- The operations on binary digits that Rust's `&`, `|`, `^` and shifts use, as laws at variables.
use Prim.Native.Nat.{
  ℕ, zero, suc, ◌+◌, ◌-◌, ◌*◌, ◌/◌, ◌%◌, ◌^◌, ◌≤◌, ◌<◌, min, max, digits, differ, bit_and-bitwise,
  bit_or-bitwise, bit_xor-bitwise,
}
pub use Prim.Native.Nat.{bit_and, bit_or, bit_xor}
use mathlib.Core.Path.{◌≡◌, refl, ap, sym, ◌∙◌}
use native.Mathlib.Nat.{
  pow-suc, mul-add-mod_self_left, mod-eq_of_lt, mod-lt, div-add-mod, one-le-pow,
}
use native.Mathlib.Omega.{arith}

-- Digit-by-digit evaluation does not depend on the fuel, once there is enough of it.
module _ (rest : ℕ → ℕ) (digit : ℕ → ℕ → ℕ) where
  digits_enough : (f g a b : ℕ) → a ≤ f → a ≤ g → digits rest digit f a b ≡ digits rest digit g a b
  digits_enough zero zero a b p q = refl
  digits_enough (suc f) zero zero b p q = refl
  digits_enough zero (suc g) zero b p q = refl
  digits_enough (suc f) zero (suc a) b p q = absurd (omega arith)
  digits_enough zero (suc g) (suc a) b p q = absurd (omega arith)
  digits_enough (suc f) (suc g) zero b p q = refl
  digits_enough (suc f) (suc g) (suc a) b p q =
      ap (λ (t : ℕ). t * 2 + digit (suc a % 2) (b % 2))
        (digits_enough f g (suc a / 2) (b / 2) (omega arith) (omega arith))

  lowest_digit :
      (a b : ℕ)
      → digits rest digit (suc a) (suc a) b
        ≡ digits rest digit (suc a / 2) (suc a / 2) (b / 2) * 2 + digit (suc a % 2) (b % 2)
  lowest_digit a b =
      ap (λ (t : ℕ). t * 2 + digit (suc a % 2) (b % 2))
        (digits_enough a (suc a / 2) (suc a / 2) (b / 2) (omega arith) (omega arith))

-- Each operation's lowest digit, and the operation on the digits above it.
pub or_step : (a b : ℕ) → bit_or a b ≡ bit_or (a / 2) (b / 2) * 2 + max (a % 2) (b % 2)
or_step zero b = simp bit_or-bitwise (omega arith)
or_step (suc a) b = simp bit_or-bitwise (lowest_digit (λ d. d) max a b)

pub and_step : (a b : ℕ) → bit_and a b ≡ bit_and (a / 2) (b / 2) * 2 + min (a % 2) (b % 2)
and_step zero b = simp bit_and-bitwise (omega arith)
and_step (suc a) b = simp bit_and-bitwise (lowest_digit (λ _. 0) min a b)

differ_lem : (x y : ℕ) → x < 2 → y < 2 → differ x y ≡ (x + y) % 2
differ_lem zero zero p q = refl
differ_lem zero (suc zero) p q = refl
differ_lem (suc zero) zero p q = refl
differ_lem (suc zero) (suc zero) p q = refl
differ_lem zero (suc (suc y)) p q = absurd (omega arith)
differ_lem (suc zero) (suc (suc y)) p q = absurd (omega arith)
differ_lem (suc (suc x)) y p q = absurd (omega arith)

xor_digits : (a b : ℕ) → bit_xor a b ≡ bit_xor (a / 2) (b / 2) * 2 + differ (a % 2) (b % 2)
xor_digits zero b = simp bit_xor-bitwise (omega (arith, differ_lem 0 (b % 2)))
xor_digits (suc a) b = simp bit_xor-bitwise (lowest_digit (λ d. d) differ a b)

pub xor_step : (a b : ℕ) → bit_xor a b ≡ bit_xor (a / 2) (b / 2) * 2 + (a % 2 + b % 2) % 2
xor_step a b = omega (arith, xor_digits a b, differ_lem (a % 2) (b % 2))

pub bit_or-zero_fuel : (f a : ℕ) → a ≤ f → bit_or a 0 ≡ a
bit_or-zero_fuel f zero h = refl
bit_or-zero_fuel zero (suc a) h = absurd (omega arith)
bit_or-zero_fuel (suc f) (suc a) h =
    omega (arith, or_step (suc a) 0, bit_or-zero_fuel f (suc a / 2) (omega arith))

bit_and-zero_fuel : (f a : ℕ) → a ≤ f → bit_and a 0 ≡ 0
bit_and-zero_fuel f zero h = refl
bit_and-zero_fuel zero (suc a) h = absurd (omega arith)
bit_and-zero_fuel (suc f) (suc a) h =
    omega (arith, and_step (suc a) 0, bit_and-zero_fuel f (suc a / 2) (omega arith))

bit_xor-zero_fuel : (f a : ℕ) → a ≤ f → bit_xor a 0 ≡ a
bit_xor-zero_fuel f zero h = refl
bit_xor-zero_fuel zero (suc a) h = absurd (omega arith)
bit_xor-zero_fuel (suc f) (suc a) h =
    omega (arith, xor_step (suc a) 0, bit_xor-zero_fuel f (suc a / 2) (omega arith))

pub bit_xor-zero : (a : ℕ) → bit_xor a 0 ≡ a
bit_xor-zero a = bit_xor-zero_fuel a a (omega arith)

-- `r | (q << k)` is a sum when `r` fits in the low `k` bits.
pub bit_or-shifted : (k r q : ℕ) → r < 2 ^ k → bit_or r (q * 2 ^ k) ≡ r + q * 2 ^ k
bit_or-shifted zero zero q h = simp bit_or-bitwise (omega arith)
bit_or-shifted zero (suc r) q h = absurd (omega arith)
bit_or-shifted (suc k) r q h = omega (
  arith,
  pow-suc 2 k,
  ap (λ (t : ℕ). q * t) (pow-suc 2 k),
  or_step r (q * 2 ^ suc k),
  ap (bit_or (r / 2)) shifted_half,
  bit_or-shifted k (r / 2) q (omega (arith, pow-suc 2 k)),
)
  where
    shifted_half : q * 2 ^ suc k / 2 ≡ q * 2 ^ k
    shifted_half = omega (arith, ap (λ (t : ℕ). q * t) (pow-suc 2 k))

mod_double : (a p : ℕ) → 0 < p → a % (2 * p) ≡ a / 2 % p * 2 + a % 2
mod_double a p h =
    ap (λ (t : ℕ). t % (2 * p)) (sym split)
    ∙ mul-add-mod_self_left (2 * p) (a / 2 / p) (a / 2 % p * 2 + a % 2)
    ∙ mod-eq_of_lt (omega (arith, mod-lt (a / 2) {m = p} h))
  where
    split : 2 * p * (a / 2 / p) + (a / 2 % p * 2 + a % 2) ≡ a
    split = omega (arith, div-add-mod (a / 2) p)

-- `a & (2^k - 1)` is the remainder by `2^k`; the mask is given as a number `m` with `m + 1 = 2^k`.
pub bit_and-mask : (k a m : ℕ) → m + 1 ≡ 2 ^ k → bit_and a m ≡ a % 2 ^ k
bit_and-mask zero a zero h = omega (arith, bit_and-zero_fuel a a)
bit_and-mask zero a (suc m) h = absurd (omega arith)
bit_and-mask (suc k) a m h =
    omega (arith, and_step a m, bit_and-mask k (a / 2) (m / 2) half)
    ∙ sym (mod_double a (2 ^ k) (one-le-pow k 2 (omega arith)))
    ∙ ap (λ (t : ℕ). a % t) (sym (double k))
  where
    double : (j : ℕ) → 2 ^ suc j ≡ 2 * 2 ^ j
    double j = omega (arith, pow-suc 2 j)

    odd : m ≡ m / 2 * 2 + 1
    odd = omega (arith, double k)

    half : m / 2 + 1 ≡ 2 ^ k
    half = omega (arith, double k)

-- `a ^ (2^k - 1)` turns over the low `k` bits.
pub bit_xor-ones : (k a m : ℕ) → m + 1 ≡ 2 ^ k → a ≤ m → bit_xor a m ≡ m - a
bit_xor-ones zero a zero h p = omega (arith, bit_xor-zero a)
bit_xor-ones zero a (suc m) h p = absurd (omega arith)
bit_xor-ones (suc k) a m h p = omega (
  arith,
  pow-suc 2 k,
  xor_step a m,
  bit_xor-ones k (a / 2) (m / 2) (omega (arith, pow-suc 2 k)) (omega (arith, pow-suc 2 k)),
)

or_comm_fuel : (f a b : ℕ) → a ≤ f → b ≤ f → bit_or a b ≡ bit_or b a
or_comm_fuel zero zero zero p q = refl
or_comm_fuel zero zero (suc b) p q = absurd (omega arith)
or_comm_fuel zero (suc a) b p q = absurd (omega arith)
or_comm_fuel (suc f) a b p q =
    omega
      (arith, or_step a b, or_step b a, or_comm_fuel f (a / 2) (b / 2) (omega arith) (omega arith))

pub or_comm : (a b : ℕ) → bit_or a b ≡ bit_or b a
or_comm a b = or_comm_fuel (a + b) a b (omega arith) (omega arith)

-- The shifted operand may stand first.
pub shifted-bit_or : (k q r : ℕ) → r < 2 ^ k → bit_or (q * 2 ^ k) r ≡ r + q * 2 ^ k
shifted-bit_or k q r h = or_comm (q * 2 ^ k) r ∙ bit_or-shifted k r q h
