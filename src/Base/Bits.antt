-- ===== src/Base/Bits.antt =====
-- Exclusive or of numbers: what it does to the lowest bit, and that it can be undone.
use Prim.Native.Nat.{
  ℕ, zero, suc, ◌+◌, ◌*◌, ◌/◌, ◌%◌, ◌^◌, ◌≤◌, ◌<◌, bit_xor, digits, differ, bit_xor-bitwise,
}
use Prim.Native.Char.{Char, char, code}
use mathlib.Core.Path.{◌≡◌, refl, ◌∙◌}
use native.Mathlib.Omega.{arith}

abbrev xor_digits : ℕ → ℕ → ℕ → ℕ
xor_digits n a b = digits (λ b. b) differ n a b

-- More digits than the number has change nothing.
xor_digits-enough : (n m a b : ℕ) → a ≤ n → a ≤ m → xor_digits n a b ≡ xor_digits m a b
xor_digits-enough zero zero zero b p q = refl
xor_digits-enough zero (suc m) zero b p q = refl
xor_digits-enough (suc n) zero zero b p q = refl
xor_digits-enough (suc n) (suc m) zero b p q = refl
xor_digits-enough zero m (suc a) b p q = absurd (omega arith)
xor_digits-enough (suc n) zero (suc a) b p q = absurd (omega arith)
xor_digits-enough (suc n) (suc m) (suc a) b p q =
    omega (arith, xor_digits-enough n m (suc a / 2) (b / 2) (omega arith) (omega arith))

-- The lowest bit apart from the others.
bit_xor_step : (a b : ℕ) → bit_xor a b ≡ bit_xor (a / 2) (b / 2) * 2 + differ (a % 2) (b % 2)
bit_xor_step zero b = omega (arith, bit_xor-bitwise 0 b, bit_xor-bitwise 0 (b / 2))
bit_xor_step (suc a) b = omega (
  arith,
  bit_xor-bitwise (suc a) b,
  bit_xor-bitwise (suc a / 2) (b / 2),
  xor_digits-enough a (suc a / 2) (suc a / 2) (b / 2) (omega arith) (omega arith),
)

differ_bound : (a b : ℕ) → a < 2 → b < 2 → differ a b < 2
differ_bound zero b p q = q
differ_bound (suc a) zero p q = p
differ_bound (suc zero) (suc zero) p q = omega arith
differ_bound (suc zero) (suc (suc b)) p q = absurd (omega arith)
differ_bound (suc (suc a)) (suc b) p q = absurd (omega arith)

differ_cancel : (a b c : ℕ) → a < 2 → b < 2 → c < 2 → differ a c ≡ differ b c → a ≡ b
differ_cancel zero zero c p q r e = refl
differ_cancel (suc zero) (suc zero) c p q r e = refl
differ_cancel zero (suc zero) zero p q r e = omega arith
differ_cancel zero (suc zero) (suc zero) p q r e = omega arith
differ_cancel (suc zero) zero zero p q r e = omega arith
differ_cancel (suc zero) zero (suc zero) p q r e = omega arith
differ_cancel a b (suc (suc c)) p q r e = absurd (omega arith)
differ_cancel (suc (suc a)) b c p q r e = absurd (omega arith)
differ_cancel a (suc (suc b)) c p q r e = absurd (omega arith)

differ_comm : (a b : ℕ) → differ a b ≡ differ b a
differ_comm zero zero = refl
differ_comm zero (suc b) = refl
differ_comm (suc a) zero = refl
differ_comm (suc a) (suc b) = differ_comm a b

bit_xor_comm_within : (n a b : ℕ) → a ≤ n → b ≤ n → bit_xor a b ≡ bit_xor b a
bit_xor_comm_within zero zero zero p q = refl
bit_xor_comm_within zero (suc a) b p q = absurd (omega arith)
bit_xor_comm_within zero zero (suc b) p q = absurd (omega arith)
bit_xor_comm_within (suc n) a b p q = omega (
  arith,
  bit_xor_step a b,
  bit_xor_step b a,
  differ_comm (a % 2) (b % 2),
  bit_xor_comm_within n (a / 2) (b / 2) (omega arith) (omega arith),
)

pub bit_xor_comm : (a b : ℕ) → bit_xor a b ≡ bit_xor b a
bit_xor_comm a b = bit_xor_comm_within (a + b) a b (omega arith) (omega arith)

-- Equal results have equal lowest bits, and equal other bits.
halves :
    (a b c : ℕ)
    → bit_xor a c ≡ bit_xor b c
    → (bit_xor (a / 2) (c / 2) ≡ bit_xor (b / 2) (c / 2)) × (a % 2 ≡ b % 2)
halves a b c e =
    let x = bit_xor_step a c in
    let y = bit_xor_step b c in
    let u = differ_bound (a % 2) (c % 2) (omega arith) (omega arith) in
    let v = differ_bound (b % 2) (c % 2) (omega arith) (omega arith) in
    (
      omega arith,
      differ_cancel (a % 2) (b % 2) (c % 2) (omega arith) (omega arith) (omega arith) (omega arith),
    )

bit_xor_cancel_within : (n a b c : ℕ) → a ≤ n → b ≤ n → bit_xor a c ≡ bit_xor b c → a ≡ b
bit_xor_cancel_within zero a b c p q e = omega arith
bit_xor_cancel_within (suc n) a b c p q e =
    let (rest, last) = halves a b c e in
    omega (
      arith,
      last,
      bit_xor_cancel_within n (a / 2) (b / 2) (c / 2) (omega arith) (omega arith) rest,
    )

pub bit_xor_cancel : (a b c : ℕ) → bit_xor a c ≡ bit_xor b c → a ≡ b
bit_xor_cancel a b c = bit_xor_cancel_within (a + b) a b c (omega arith) (omega arith)

pub bit_xor_cancel_left : (a b c : ℕ) → bit_xor a b ≡ bit_xor a c → b ≡ c
bit_xor_cancel_left a b c e = bit_xor_cancel b c a (bit_xor_comm b a ∙ e ∙ bit_xor_comm a c)

-- The result has no more bits than the two numbers.
pub bit_xor-bound : (k a b : ℕ) → a < 2 ^ k → b < 2 ^ k → bit_xor a b < 2 ^ k
bit_xor-bound zero zero zero p q = omega arith
bit_xor-bound zero (suc a) b p q = absurd (omega arith)
bit_xor-bound zero zero (suc b) p q = absurd (omega arith)
bit_xor-bound (suc k) a b p q = omega (
  arith,
  bit_xor_step a b,
  differ_bound (a % 2) (b % 2) (omega arith) (omega arith),
  bit_xor-bound k (a / 2) (b / 2) (omega arith) (omega arith),
)

-- The number of a character fits 64 bits.
pub code-bound : (c : Char) → code c < 2 ^ 64
code-bound (char n p) = ground arith
