-- ===== src/Prelude/Bits.antt =====
-- `&` with a field's mask and `|` of disjoint fields, as arithmetic, for every width and position.
use Prim.Native.Nat.{
  ℕ, zero, suc, ◌+◌, ◌-◌, ◌*◌, ◌/◌, ◌%◌, ◌^◌, ◌≤◌, ◌<◌, min, max, bit_and, bit_or, digits,
  bit_and-bitwise, bit_or-bitwise,
}
use mathlib.Core.Path.{◌≡◌, ◌∙◌, refl, ap}
use native.Mathlib.Decide.{ℕ_discrete}
use native.Mathlib.Nat.{pow-suc, pow-succ', one-le-pow, div-div-eq-div-mul, mod-add-div}
use native.Mathlib.Omega.{arith}

-- Fuel that covers the first argument may be cut down to it.
module _ (last : ℕ → ℕ) (digit : ℕ → ℕ → ℕ) where
  one_less : (n a b : ℕ) → a ≤ n → digits last digit (suc n) a b ≡ digits last digit n a b
  one_less zero (suc a) b h = absurd (omega arith)
  one_less zero zero b h = refl
  one_less (suc n) zero b h = refl
  one_less (suc n) (suc a) b h =
      ap (λ (t : ℕ). t * 2 + digit (suc a % 2) (b % 2))
        (one_less n (suc a / 2) (b / 2) (omega arith))

  exact_fuel : (n a b : ℕ) → a ≤ n → digits last digit n a b ≡ digits last digit a a b
  exact_fuel zero (suc a) b h = absurd (omega arith)
  exact_fuel zero zero b h = refl
  exact_fuel (suc n) a b h = elim (ℕ_discrete a (suc n)) [
    | yes e ↦ rw e refl
    | no ne ↦ one_less n a b (omega arith) ∙ exact_fuel n a b (omega arith)
  ]

-- The lowest digit, and the others.
pub bit_and-half : (a b : ℕ) → bit_and a b ≡ bit_and (a / 2) (b / 2) * 2 + min (a % 2) (b % 2)
bit_and-half zero b = rw (bit_and-bitwise 0 b, bit_and-bitwise 0 (b / 2)) (omega arith)
bit_and-half (suc a) b =
    let exact = exact_fuel (λ _. 0) min a (suc a / 2) (b / 2) (omega arith) in
    rw (bit_and-bitwise (suc a) b, bit_and-bitwise (suc a / 2) (b / 2)) (omega (arith, exact))

pub bit_or-half : (a b : ℕ) → bit_or a b ≡ bit_or (a / 2) (b / 2) * 2 + max (a % 2) (b % 2)
bit_or-half zero b = rw (bit_or-bitwise 0 b, bit_or-bitwise 0 (b / 2)) (omega arith)
bit_or-half (suc a) b =
    let exact = exact_fuel (λ d. d) max a (suc a / 2) (b / 2) (omega arith) in
    rw (bit_or-bitwise (suc a) b, bit_or-bitwise (suc a / 2) (b / 2)) (omega (arith, exact))

-- Both operations with 0, by halving; `n` bounds the argument.
with_zero : (n a : ℕ) → a ≤ n → (bit_and a 0 ≡ 0) × (bit_or a 0 ≡ a)
with_zero n zero h = (refl, refl)
with_zero zero (suc a) h = absurd (omega arith)
with_zero (suc n) (suc a) h =
    let halved = with_zero n (suc a / 2) (omega arith) in
    (
      omega (arith, bit_and-half (suc a) 0, halved.0),
      omega (arith, bit_or-half (suc a) 0, halved.1),
    )

pub bit_and-zero : (a : ℕ) → bit_and a 0 ≡ 0
bit_and-zero a = (with_zero a a (omega arith)).0

pub bit_or-zero : (a : ℕ) → bit_or a 0 ≡ a
bit_or-zero a = (with_zero a a (omega arith)).1

double_shift : (m k : ℕ) → m * 2 ^ suc k ≡ 2 * (m * 2 ^ k)
double_shift m k = omega (arith, ap (λ (t : ℕ). m * t) (pow-suc 2 k))

half_div : (a k : ℕ) → a / 2 / 2 ^ k ≡ a / 2 ^ suc k
half_div a k = rw (div-div-eq-div-mul, ← pow-succ') refl

-- A mask that is shifted by `k`.
bit_and_shift : (k x m : ℕ) → bit_and x (m * 2 ^ k) ≡ bit_and (x / 2 ^ k) m * 2 ^ k
bit_and_shift zero x m = ground arith
bit_and_shift (suc k) x m = ground (
  arith,
  bit_and-half x (m * 2 ^ suc k),
  double_shift m k,
  double_shift (bit_and (x / 2 ^ suc k) m) k,
  bit_and_shift k (x / 2) m,
  half_div x k,
)

mod_double : (x p : ℕ) → 0 < p → x % (2 * p) ≡ x / 2 % p * 2 + x % 2
mod_double x p h =
    ground (
      arith,
      div-div-eq-div-mul x 2 p,
      mod-add-div x (2 * p),
      mod-add-div (x / 2) p,
      mod-add-div x 2,
    )

-- A mask of `w` low bits is the remainder by `2 ^ w`.
pub bit_and_mask : (w x : ℕ) → bit_and x (2 ^ w - 1) ≡ x % 2 ^ w
bit_and_mask zero x = omega (arith, bit_and-zero x)
bit_and_mask (suc w) x = ground (
  arith,
  bit_and-half x (2 ^ suc w - 1),
  pow-suc 2 w,
  one-le-pow w 2,
  bit_and_mask w (x / 2),
  mod_double x (2 ^ w) (omega (arith, one-le-pow w 2)),
)

-- A field of `w` bits at position `k`, left in its place.
pub bit_and_field : (w k x : ℕ) → bit_and x ((2 ^ w - 1) * 2 ^ k) ≡ x / 2 ^ k % 2 ^ w * 2 ^ k
bit_and_field w k x = rw (bit_and_shift k x (2 ^ w - 1), bit_and_mask w (x / 2 ^ k)) refl

-- `(q << k) | r` is a sum where `r` fits `k` bits.
pub bit_or_low : (k q r : ℕ) → r < 2 ^ k → bit_or (q * 2 ^ k) r ≡ q * 2 ^ k + r
bit_or_low zero q r h = ground (arith, bit_or-zero q)
bit_or_low (suc k) q r h = ground (
  arith,
  bit_or-half (q * 2 ^ suc k) r,
  double_shift q k,
  pow-suc 2 k,
  bit_or_low k q (r / 2) (omega (arith, pow-suc 2 k)),
)

-- The same, where the upper operand is given by its divisibility.
pub bit_or_add : (k x y : ℕ) → x % 2 ^ k ≡ 0 → y < 2 ^ k → bit_or x y ≡ x + y
bit_or_add k x y h l = ground (arith, bit_or_low k (x / 2 ^ k) y, mod-add-div x (2 ^ k))

-- Below a bit that is set, an even number is added.
pub bit_or_above_one :
    (k x y : ℕ) → x % 2 ^ suc k ≡ 1 → y % 2 ≡ 0 → y < 2 ^ suc k → bit_or x y ≡ x + y
bit_or_above_one k x y h e l = ground (
  arith,
  bit_or-half x y,
  bit_or_add k (x / 2) (y / 2),
  pow-suc 2 k,
  mod_double x (2 ^ k),
  one-le-pow k 2,
)
