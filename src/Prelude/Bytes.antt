-- ===== src/Prelude/Bytes.antt =====
-- Little-endian bytes of `u32` and `u64`, and reading them in a list of bytes.
use Prim.Native.Nat.{ℕ, ◌+◌, ◌*◌, ◌/◌, ◌%◌, ◌^◌, ◌<◌}
use mathlib.Core.Path.{◌≡◌}
use mathlib.Core.List.{List, [], ◌∷◌, ◌++◌}
use native.Mathlib.Omega.{arith}
use chono_db.Prelude.Lists.{get_or}
use chono_db.Prelude.Word.{IsU64}

-- `u32::to_le_bytes` and `u32::from_le_bytes`
unfoldable pub to_le_bytes : ℕ → List ℕ
to_le_bytes n = n % 256 ∷ n / 256 % 256 ∷ n / 65536 % 256 ∷ n / 16777216 % 256 ∷ []

unfoldable pub from_le_bytes : ℕ → ℕ → ℕ → ℕ → ℕ
from_le_bytes a b c d = a + 256 * b + 65536 * c + 16777216 * d

pub from_to_le_bytes :
    (n : ℕ)
    → n < 2 ^ 32
    → from_le_bytes (n % 256) (n / 256 % 256) (n / 65536 % 256) (n / 16777216 % 256) ≡ n
unfolding from_le_bytes
from_to_le_bytes n h = omega arith

-- `u32::from_le_bytes` of the four bytes from an index on, which are there where it is called.
unfoldable pub u32_at : List ℕ → ℕ → ℕ
u32_at bytes i =
    from_le_bytes (get_or bytes i 0) (get_or bytes (i + 1) 0) (get_or bytes (i + 2) 0)
      (get_or bytes (i + 3) 0)

-- `u64::to_le_bytes`
unfoldable pub u64_bytes : ℕ → List ℕ
u64_bytes n = to_le_bytes (n % 2 ^ 32) ++ to_le_bytes (n / 2 ^ 32)

-- `u64::from_le_bytes` of the eight bytes from an index on.
unfoldable pub u64_at : List ℕ → ℕ → ℕ
u64_at bytes i = u32_at bytes i + 2 ^ 32 * u32_at bytes (i + 4)

pub u32_at-to_le_bytes : (n : ℕ) (rest : List ℕ) → n < 2 ^ 32 → u32_at (to_le_bytes n ++ rest) 0 ≡ n
unfolding u32_at to_le_bytes
u32_at-to_le_bytes n rest h = from_to_le_bytes n h

pub u64_at-u64_bytes : (n : ℕ) (rest : List ℕ) → IsU64 n → u64_at (u64_bytes n ++ rest) 0 ≡ n
unfolding u64_at u64_bytes u32_at to_le_bytes
u64_at-u64_bytes n rest h =
    rw (from_to_le_bytes (n % 2 ^ 32) (omega arith), from_to_le_bytes (n / 2 ^ 32) (omega arith))
      (omega arith)
