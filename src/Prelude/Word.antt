-- ===== src/Prelude/Word.antt =====
-- Rust's `i64` and `u64`. An `i64` is the integer that it stands for, a `u64` a number below
-- 2 ^ 64; casts and wrapping operations go through the bit pattern.
use Prim.Native.Nat.{ℕ, ◌+◌, ◌-◌, ◌%◌, ◌^◌, ◌≤◌, ◌<◌}
use mathlib.Core.Path.{◌≡◌}
use mathlib.Core.Bool.{Bool, true, false, ◌&&◌, not}
use native.Mathlib.Omega.{arith}
use chono_db.Prelude.Tests.{ltb, leb, if◌then◌else◌}
use chono_db.Prelude.Int.{ℤ, pos, negsuc, ◌-ℤ◌, pos_part, neg_part}

abbrev pub IsU64 : ℕ → Type 0
IsU64 w = w < 2 ^ 64

-- -2^63 ≤ v < 2^63.
abbrev pub IsI64 : ℤ → Type 0
IsI64 v = (pos_part v < 2 ^ 63) × (neg_part v ≤ 2 ^ 63)

abbrev pub is_i64 : ℤ → Bool
is_i64 v = ltb (pos_part v) (2 ^ 63) && leb (neg_part v) (2 ^ 63)

-- `v as u64`, for `v` in the range of `i64`.
abbrev pub as_u64 : ℤ → ℕ
as_u64 (pos n) = n
as_u64 (negsuc n) = 2 ^ 64 - 1 - n

-- `w as i64`
abbrev pub as_i64 : ℕ → ℤ
as_i64 w = if ltb w (2 ^ 63) then pos w else negsuc (2 ^ 64 - 1 - w)

-- `a + b` on `i64` in a release build, which wraps.
unfoldable pub wrapping_add : ℤ → ℤ → ℤ
wrapping_add a b = as_i64 ((as_u64 a + as_u64 b) % 2 ^ 64)

-- `a.overflowing_sub(b)`: the wrapped difference, and whether the true one is out of range.
unfoldable pub overflowing_sub : ℤ → ℤ → ℤ × Bool
overflowing_sub a b = (as_i64 ((as_u64 a + 2 ^ 64 - as_u64 b) % 2 ^ 64), not (is_i64 (a -ℤ b)))

pub overflowing_sub_fits :
    (a b : ℤ) → IsI64 a → IsI64 b → IsI64 (a -ℤ b) → overflowing_sub a b ≡ (a -ℤ b, false)
unfolding overflowing_sub ◌-ℤ◌
overflowing_sub_fits a b ha hb h = ground arith

-- Adding the difference back gives the number that it was taken from.
pub wrapping_add-sub : (a b : ℤ) → IsI64 a → IsI64 b → IsI64 (a -ℤ b) → wrapping_add b (a -ℤ b) ≡ a
unfolding wrapping_add ◌-ℤ◌
wrapping_add-sub a b ha hb h = ground arith

pub is_i64_iff : (v : ℤ) → (is_i64 v ≡ true → IsI64 v) × (IsI64 v → is_i64 v ≡ true)
is_i64_iff v = ground arith
