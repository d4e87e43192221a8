-- ===== src/Common/Bits.antt =====
-- `|`, `&` and `^` as arithmetic, and a table check for functions of one byte.
use libezsp.Common.Digits.{bit_or_digit, bit_and_digit, bit_xor_digit}
use libezsp.Common.Tests.{◌==◌}
use Prim.Native.Nat.{ℕ, zero, suc, ◌+◌, ◌-◌, ◌*◌, ◌/◌, ◌%◌, ◌^◌, ◌<◌, differ}
use Prim.Native.Nat.{bit_and, bit_or, bit_xor}
use mathlib.Core.Path.{◌≡◌, refl, ap}
use mathlib.Core.Bool.{Bool, true, ◌&&◌}
use native.Mathlib.Nat.{pow-suc, one-le-pow, div-add-mod}
use native.Mathlib.Omega.{arith}

-- Both functions agree on every value below the bound, checked by evaluation.
unfoldable pub agree_below : ℕ → (ℕ → ℕ) → (ℕ → ℕ) → Bool
agree_below zero f g = true
agree_below (suc n) f g = (f n == g n) && agree_below n f g

pub agree_below→eq : (n : ℕ) (f g : ℕ → ℕ) → agree_below n f g ≡ true → (x : ℕ) → x < n → f x ≡ g x
unfolding agree_below
agree_below→eq zero f g e x h = absurd (omega arith)
agree_below→eq (suc n) f g e x h = ground (arith, agree_below→eq n f g (ground arith) x)

double_pow : (q k : ℕ) → q * 2 ^ suc k ≡ 2 * (q * 2 ^ k)
double_pow q k = omega (arith, ap (λ (t : ℕ). q * t) (pow-suc 2 k))

-- `|` of a field shifted by `k` bits and one of `k` bits is their sum.
pub bit_or_disjoint : (k q r : ℕ) → r < 2 ^ k → bit_or (q * 2 ^ k) r ≡ q * 2 ^ k + r
bit_or_disjoint k q r h = go k (q * 2 ^ k) q r refl h
  where
    at_zero : (fuel a : ℕ) → a < fuel → bit_or a 0 ≡ a
    at_zero zero a lt = absurd (omega arith)
    at_zero (suc fuel) zero lt = refl
    at_zero (suc fuel) (suc a) lt =
        omega (arith, bit_or_digit (suc a) 0, at_zero fuel (suc a / 2) (omega arith))

    go : (k a q r : ℕ) → a ≡ q * 2 ^ k → r < 2 ^ k → bit_or a r ≡ a + r
    go zero a q zero e h = omega (arith, at_zero (suc a) a (omega arith))
    go zero a q (suc r) e h = absurd (omega arith)
    go (suc k) a q r e h = omega (
      arith,
      double_pow q k,
      pow-suc 2 k,
      bit_or_digit a r,
      go k (a / 2) q (r / 2) (omega (arith, double_pow q k)) (omega (arith, pow-suc 2 k)),
    )

bit_or_comm : (fuel a b : ℕ) → a + b < fuel → bit_or a b ≡ bit_or b a
bit_or_comm zero a b h = absurd (omega arith)
bit_or_comm (suc fuel) zero zero h = refl
bit_or_comm (suc fuel) zero (suc b) h = omega (
  arith,
  bit_or_digit 0 (suc b),
  bit_or_digit (suc b) 0,
  bit_or_comm fuel 0 (suc b / 2) (omega arith),
)
bit_or_comm (suc fuel) (suc a) b h = omega (
  arith,
  bit_or_digit (suc a) b,
  bit_or_digit b (suc a),
  bit_or_comm fuel (suc a / 2) (b / 2) (omega arith),
)

-- The same with the shifted field behind.
pub bit_or_above : (k r q : ℕ) → r < 2 ^ k → bit_or r (q * 2 ^ k) ≡ r + q * 2 ^ k
bit_or_above k r q h =
    omega (
      arith,
      bit_or_comm (suc (r + q * 2 ^ k)) r (q * 2 ^ k) (omega arith),
      bit_or_disjoint k q r h,
    )

bit_and_field : (k q r : ℕ) → r < 2 ^ k → bit_and (q * 2 ^ k + r) (2 ^ k - 1) ≡ r
bit_and_field k q r h = go k (q * 2 ^ k + r) q r refl h
  where
    by_zero : (fuel a : ℕ) → a < fuel → bit_and a 0 ≡ 0
    by_zero zero a lt = absurd (omega arith)
    by_zero (suc fuel) zero lt = refl
    by_zero (suc fuel) (suc a) lt =
        omega (arith, bit_and_digit (suc a) 0, by_zero fuel (suc a / 2) (omega arith))

    go : (k a q r : ℕ) → a ≡ q * 2 ^ k + r → r < 2 ^ k → bit_and a (2 ^ k - 1) ≡ r
    go zero a q r e h = omega (arith, by_zero (suc a) a (omega arith))
    go (suc k) a q r e h = ground (
      arith,
      double_pow q k,
      pow-suc 2 k,
      one-le-pow k 2,
      bit_and_digit a (2 ^ suc k - 1),
      go k (a / 2) q (r / 2) (omega (arith, double_pow q k)) (omega (arith, pow-suc 2 k)),
    )

-- A mask of `k` low bits is the remainder by `2 ^ k`.
pub bit_and_mask : (k a : ℕ) → bit_and a (2 ^ k - 1) ≡ a % 2 ^ k
bit_and_mask k a =
    ground (arith, one-le-pow k 2, div-add-mod a (2 ^ k), bit_and_field k (a / 2 ^ k) (a % 2 ^ k))

differ_lem : (x y : ℕ) → x < 2 → y < 2 → differ x y ≡ (x + y) % 2
differ_lem zero y hx hy = omega arith
differ_lem (suc zero) zero hx hy = refl
differ_lem (suc zero) (suc zero) hx hy = refl
differ_lem (suc zero) (suc (suc y)) hx hy = absurd (omega arith)
differ_lem (suc (suc x)) y hx hy = absurd (omega arith)

-- The halves of an exclusive or, and its lowest digit.
bit_xor_halves :
    (a b : ℕ) → (bit_xor a b / 2 ≡ bit_xor (a / 2) (b / 2)) × (bit_xor a b % 2 ≡ (a + b) % 2)
bit_xor_halves a b =
    let digit : differ (a % 2) (b % 2) ≡ (a % 2 + b % 2) % 2 =
      differ_lem (a % 2) (b % 2) (omega arith) (omega arith) in
    (omega (arith, bit_xor_digit a b), omega (arith, bit_xor_digit a b))

-- `^` stays within the width of its arguments.
pub bit_xor-lt : (k a b : ℕ) → a < 2 ^ k → b < 2 ^ k → bit_xor a b < 2 ^ k
bit_xor-lt zero zero zero ha hb = omega arith
bit_xor-lt zero zero (suc b) ha hb = absurd (omega arith)
bit_xor-lt zero (suc a) b ha hb = absurd (omega arith)
bit_xor-lt (suc k) a b ha hb = omega (
  arith,
  pow-suc 2 k,
  bit_xor_halves a b,
  bit_xor-lt k (a / 2) (b / 2) (omega (arith, pow-suc 2 k)) (omega (arith, pow-suc 2 k)),
)

-- `^` by the same mask twice gives the first value back.
pub bit_xor_cancel : (k a m : ℕ) → a < 2 ^ k → m < 2 ^ k → bit_xor (bit_xor a m) m ≡ a
bit_xor_cancel zero zero zero ha hm = refl
bit_xor_cancel zero zero (suc m) ha hm = absurd (omega arith)
bit_xor_cancel zero (suc a) m ha hm = absurd (omega arith)
bit_xor_cancel (suc k) a m ha hm = ground (
  arith,
  bit_xor_halves a m,
  bit_xor_halves (bit_xor a m) m,
  bit_xor_cancel k (a / 2) (m / 2) (omega (arith, pow-suc 2 k)) (omega (arith, pow-suc 2 k)),
)
