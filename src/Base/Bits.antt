-- ===== src/Base/Bits.antt =====
-- `&` with a power of two reads one binary digit: the laws that the flag tests of the programs need.
use Prim.Native.Nat.{
  ℕ, zero, suc, ◌+◌, ◌*◌, ◌/◌, ◌%◌, ◌^◌, ◌≤◌, min, bit_and, digits, bit_and-bitwise,
}
use mathlib.Core.Path.{◌≡◌, refl}
use native.Mathlib.Omega.{arith}
use native.Mathlib.Nat.{pow-suc, pow-succ', div-div-eq-div-mul}

-- What `bit_and` stands for, on a given number of digits.
abbrev conj : ℕ → ℕ → ℕ → ℕ
conj = digits (λ _. zero) min

-- Any count of rounds that covers the first number gives the same digits.
conj-covering : (k : ℕ) (a b m : ℕ) → a ≤ k → a ≤ m → conj k a b ≡ conj m a b
conj-covering zero zero b zero _ _ = refl
conj-covering zero zero b (suc m) _ _ = refl
conj-covering zero (suc a) b m p _ = absurd (omega arith)
conj-covering (suc k) zero b zero _ _ = refl
conj-covering (suc k) zero b (suc m) _ _ = refl
conj-covering (suc k) (suc a) b zero _ q = absurd (omega arith)
conj-covering (suc k) (suc a) b (suc m) p q =
    let halves : conj k (suc a / 2) (b / 2) ≡ conj m (suc a / 2) (b / 2) =
      conj-covering k (suc a / 2) (b / 2) m (omega arith) (omega arith) in
    omega arith

pub zero_and : (b : ℕ) → bit_and 0 b ≡ 0
zero_and = bit_and-bitwise 0

pub bit_and-halves : (a b : ℕ) → bit_and a b ≡ bit_and (a / 2) (b / 2) * 2 + min (a % 2) (b % 2)
bit_and-halves zero b = omega (arith, zero_and b, zero_and (b / 2))
bit_and-halves (suc a) b =
    let lower : conj a (suc a / 2) (b / 2) ≡ conj (suc a / 2) (suc a / 2) (b / 2) =
      conj-covering a (suc a / 2) (b / 2) (suc a / 2) (omega arith) (omega arith) in
    omega (arith, bit_and-bitwise (suc a) b, bit_and-bitwise (suc a / 2) (b / 2))

and_zero : (k a : ℕ) → a ≤ k → bit_and a 0 ≡ 0
and_zero k zero _ = zero_and 0
and_zero zero (suc a) h = absurd (omega arith)
and_zero (suc k) (suc a) h =
    omega (arith, bit_and-halves (suc a) 0, and_zero k (suc a / 2) (omega arith))

-- The digit at place `k`, and nothing else.
pub bit_and-pow : (k n : ℕ) → bit_and n (2 ^ k) ≡ n / 2 ^ k % 2 * 2 ^ k
bit_and-pow zero n = omega (arith, bit_and-halves n 1, and_zero (n / 2) (n / 2) (omega arith))
bit_and-pow (suc k) n =
    let whole : 2 ^ suc k ≡ 2 ^ k * 2 = pow-suc 2 k in
    let half : 2 ^ suc k / 2 ≡ 2 ^ k = omega arith in
    let lower : bit_and (n / 2) (2 ^ suc k / 2) ≡ n / 2 / 2 ^ k % 2 * 2 ^ k =
      rw half (bit_and-pow k (n / 2)) in
    let digit : n / 2 / 2 ^ k ≡ n / 2 ^ suc k =
      rw (div-div-eq-div-mul n 2 (2 ^ k), pow-succ' 2 k) in
    rw (bit_and-halves n (2 ^ suc k), lower, digit, whole) (omega arith)
