-- ===== src/Prelude/BitTest.antt =====
-- Testing one bit of a number.
use chono_db.Prelude.{
  ℕ, zero, suc, ◌/◌, ◌%◌, ◌^◌, ◌≡◌, sym, ap, ◌∙◌, Bool, false, ◌||◌, ◌&&◌, ◌==◌, arith,
}
use chono_db.Prelude.Bits.{bit_or, bit_and, or_step, and_step}
use native.Mathlib.Nat.{pow-succ', div-div-eq-div-mul}

-- `(w >> k) & 1 == 1`
unfoldable pub bit : ℕ → ℕ → Bool
bit w k = w / 2 ^ k % 2 == 1

bit-zero : (w : ℕ) → bit w 0 ≡ (w % 2 == 1)
unfolding bit
bit-zero w = ground arith

bit-suc : (w k : ℕ) → bit w (suc k) ≡ bit (w / 2) k
unfolding bit
bit-suc w k =
    ap (λ q. q % 2 == 1) (ap (λ d. w / d) (pow-succ' 2 k) ∙ sym (div-div-eq-div-mul w 2 (2 ^ k)))

pub bit-or : (j a b : ℕ) → bit (bit_or a b) j ≡ bit a j || bit b j
bit-or zero a b = rw (bit-zero (bit_or a b), bit-zero a, bit-zero b) (ground (arith, or_step a b))
bit-or (suc j) a b =
    let halved : bit_or a b / 2 ≡ bit_or (a / 2) (b / 2) = omega (arith, or_step a b) in
    rw (bit-suc (bit_or a b) j, bit-suc a j, bit-suc b j, halved) (bit-or j (a / 2) (b / 2))

pub bit-and : (j a b : ℕ) → bit (bit_and a b) j ≡ bit a j && bit b j
bit-and zero a b =
    rw (bit-zero (bit_and a b), bit-zero a, bit-zero b) (ground (arith, and_step a b))
bit-and (suc j) a b =
    let halved : bit_and a b / 2 ≡ bit_and (a / 2) (b / 2) = omega (arith, and_step a b) in
    rw (bit-suc (bit_and a b) j, bit-suc a j, bit-suc b j, halved) (bit-and j (a / 2) (b / 2))

pub bit_none : (j : ℕ) → bit 0 j ≡ false
bit_none zero = bit-zero 0
bit_none (suc j) = bit-suc 0 j ∙ bit_none j

-- `1 << k` has the bit `k` and no other.
pub bit_one : (k j : ℕ) → bit (2 ^ k) j ≡ (k == j)
bit_one zero zero = bit-zero 1
bit_one (suc k) zero = bit-zero (2 ^ suc k) ∙ ground (arith, pow-succ' 2 k)
bit_one zero (suc j) = bit-suc 1 j ∙ bit_none j ∙ ground arith
bit_one (suc k) (suc j) =
    let half : 2 ^ suc k / 2 ≡ 2 ^ k = omega (arith, pow-succ' 2 k) in
    bit-suc (2 ^ suc k) j ∙ ap (λ w. bit w j) half ∙ bit_one k j ∙ ground arith
