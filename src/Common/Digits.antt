-- ===== src/Common/Digits.antt =====
-- The lowest binary digit of `|`, `&` and `^`: one equation each, from the recursion that the
-- native operations stand for.
use Prim.Native.Nat.{ℕ, zero, suc, ◌+◌, ◌*◌, ◌/◌, ◌%◌, ◌≤◌, min, max, digits, differ}
use Prim.Native.Nat.{bit_and, bit_or, bit_xor, bit_and-bitwise, bit_or-bitwise, bit_xor-bitwise}
use mathlib.Core.Path.{◌≡◌, refl}
use native.Mathlib.Omega.{arith}

module _ (rest : ℕ → ℕ) (op : ℕ → ℕ → ℕ) where
  -- More rounds than digits change nothing.
  enough_rounds : (a b r s : ℕ) → a ≤ r → a ≤ s → digits rest op r a b ≡ digits rest op s a b
  enough_rounds zero b zero zero hr hs = refl
  enough_rounds zero b zero (suc s) hr hs = refl
  enough_rounds zero b (suc r) zero hr hs = refl
  enough_rounds zero b (suc r) (suc s) hr hs = refl
  enough_rounds (suc a) b zero s hr hs = absurd (omega arith)
  enough_rounds (suc a) b (suc r) zero hr hs = absurd (omega arith)
  enough_rounds (suc a) b (suc r) (suc s) hr hs =
      omega (arith, enough_rounds (suc a / 2) (b / 2) r s (omega arith) (omega arith))

pub bit_or_digit : (a b : ℕ) → bit_or a b ≡ bit_or (a / 2) (b / 2) * 2 + max (a % 2) (b % 2)
bit_or_digit zero b = omega (arith, bit_or-bitwise 0 b, bit_or-bitwise 0 (b / 2))
bit_or_digit (suc a) b =
    let half : ℕ = suc a / 2 in
    omega (
      arith,
      bit_or-bitwise (suc a) b,
      bit_or-bitwise half (b / 2),
      enough_rounds (λ y. y) max half (b / 2) a half (omega arith) (omega arith),
    )

pub bit_and_digit : (a b : ℕ) → bit_and a b ≡ bit_and (a / 2) (b / 2) * 2 + min (a % 2) (b % 2)
bit_and_digit zero b = omega (arith, bit_and-bitwise 0 b, bit_and-bitwise 0 (b / 2))
bit_and_digit (suc a) b =
    let half : ℕ = suc a / 2 in
    omega (
      arith,
      bit_and-bitwise (suc a) b,
      bit_and-bitwise half (b / 2),
      enough_rounds (λ y. 0) min half (b / 2) a half (omega arith) (omega arith),
    )

pub bit_xor_digit : (a b : ℕ) → bit_xor a b ≡ bit_xor (a / 2) (b / 2) * 2 + differ (a % 2) (b % 2)
bit_xor_digit zero b = omega (arith, bit_xor-bitwise 0 b, bit_xor-bitwise 0 (b / 2))
bit_xor_digit (suc a) b =
    let half : ℕ = suc a / 2 in
    omega (
      arith,
      bit_xor-bitwise (suc a) b,
      bit_xor-bitwise half (b / 2),
      enough_rounds (λ y. y) differ half (b / 2) a half (omega arith) (omega arith),
    )
