-- ===== src/Prelude/Bits.antt =====
-- Words put together by `|` and taken apart by `&`, as arithmetic. The native operations have no
-- laws at variables but their digit recursion, which takes the first operand as fuel.
use Prim.Native.Nat.{
  ℕ, zero, suc, ◌+◌, ◌-◌, ◌*◌, ◌/◌, ◌%◌, ◌^◌, ◌≤◌, ◌<◌, min, max, bit_and, bit_or, digits,
  bit_and-bitwise, bit_or-bitwise,
}
use mathlib.Core.Path.{◌≡◌, refl, sym, ap, ap₂, ◌∙◌}
use native.Mathlib.Nat.{pow-suc, mul_comm, div-div-eq-div-mul, div-add-mod', mod-lt, one-le-pow}
use native.Mathlib.Omega.{arith}

module _ (z : ℕ → ℕ) (f : ℕ → ℕ → ℕ) where
  -- Fuel that covers the first operand is enough, and more changes nothing.
  more_fuel : (k a b : ℕ) → a ≤ k → digits z f (suc k) a b ≡ digits z f k a b
  more_fuel zero zero b h = refl
  more_fuel zero (suc a) b h = elim h [ ]
  more_fuel (suc k) zero b h = refl
  more_fuel (suc k) (suc a) b h =
      ap (λ (t : ℕ). t * 2 + f (suc a % 2) (b % 2)) (more_fuel k (suc a / 2) (b / 2) (omega arith))

  enough_fuel : (d k a b : ℕ) → a ≤ k → digits z f (d + k) a b ≡ digits z f k a b
  enough_fuel zero k a b h = ap (λ (t : ℕ). digits z f t a b) (omega arith)
  enough_fuel (suc d) k a b h =
      ap (λ (t : ℕ). digits z f t a b) {x = suc d + k} {y = suc (d + k)} (omega arith)
      ∙ more_fuel (d + k) a b (omega arith)
      ∙ enough_fuel d k a b h

  -- The lowest digit of the result comes from the lowest digits.
  lowest_digit :
      (a b : ℕ)
      → digits z f (suc a) (suc a) b
        ≡ digits z f (suc a / 2) (suc a / 2) (b / 2) * 2 + f (suc a % 2) (b % 2)
  lowest_digit a b =
      ap (λ (t : ℕ). t * 2 + f (suc a % 2) (b % 2))
        (ap (λ (t : ℕ). digits z f t (suc a / 2) (b / 2)) (omega arith)
          ∙ enough_fuel (a - suc a / 2) (suc a / 2) (suc a / 2) (b / 2) (omega arith))

or_digit : (a b : ℕ) → bit_or a b ≡ 2 * bit_or (a / 2) (b / 2) + max (a % 2) (b % 2)
or_digit zero b = omega (arith, bit_or-bitwise 0 b, bit_or-bitwise 0 (b / 2))
or_digit (suc a) b = omega (
  arith,
  bit_or-bitwise (suc a) b,
  lowest_digit (λ y. y) max a b,
  bit_or-bitwise (suc a / 2) (b / 2),
)

and_digit : (a b : ℕ) → bit_and a b ≡ 2 * bit_and (a / 2) (b / 2) + min (a % 2) (b % 2)
and_digit zero b = omega (arith, bit_and-bitwise 0 b, bit_and-bitwise 0 (b / 2))
and_digit (suc a) b = omega (
  arith,
  bit_and-bitwise (suc a) b,
  lowest_digit (λ y. 0) min a b,
  bit_and-bitwise (suc a / 2) (b / 2),
)

-- With a word of zeros, by a bound on the other word that halves.
or_nothing : (k a : ℕ) → a ≤ k → bit_or a 0 ≡ a
or_nothing k zero h = refl
or_nothing zero (suc a) h = elim h [ ]
or_nothing (suc k) (suc a) h =
    omega (arith, or_digit (suc a) 0, or_nothing k (suc a / 2) (omega arith))

and_nothing : (k a : ℕ) → a ≤ k → bit_and a 0 ≡ 0
and_nothing k zero h = refl
and_nothing zero (suc a) h = elim h [ ]
and_nothing (suc k) (suc a) h =
    omega (arith, and_digit (suc a) 0, and_nothing k (suc a / 2) (omega arith))

pub and_zero : (a : ℕ) → bit_and a 0 ≡ 0
and_zero a = and_nothing a a (omega arith)

zero_and : (b : ℕ) → bit_and 0 b ≡ 0
zero_and b = bit_and-bitwise 0 b

and_comm_below : (k a b : ℕ) → a ≤ k → bit_and a b ≡ bit_and b a
and_comm_below k zero b h = zero_and b ∙ sym (and_zero b)
and_comm_below zero (suc a) b h = elim h [ ]
and_comm_below (suc k) (suc a) b h = omega (
  arith,
  and_digit (suc a) b,
  and_digit b (suc a),
  and_comm_below k (suc a / 2) (b / 2) (omega arith),
)

pub and_comm : (a b : ℕ) → bit_and a b ≡ bit_and b a
and_comm a b = and_comm_below a a b (omega arith)

double : (q k : ℕ) → q * 2 ^ suc k ≡ 2 * (q * 2 ^ k)
double q k = omega (arith, ap (λ (t : ℕ). q * t) (pow-suc 2 k))

-- `(q << k) | r` for an `r` of `k` bits.
pub or_low : (k q r : ℕ) → r < 2 ^ k → bit_or (q * 2 ^ k) r ≡ q * 2 ^ k + r
or_low zero q r h =
    let e : r ≡ 0 = omega arith in
    ap (λ (t : ℕ). bit_or (q * 1) t) e ∙ or_nothing (q * 1) (q * 1) (omega arith) ∙ omega arith
or_low (suc k) q r h = omega (
  arith,
  or_digit (q * 2 ^ suc k) r,
  double q k,
  pow-suc 2 k,
  ap (λ (t : ℕ). bit_or t (r / 2)) {x = q * 2 ^ suc k / 2} {y = q * 2 ^ k}
      (omega (arith, double q k)),
  or_low k q (r / 2) (omega (arith, pow-suc 2 k)),
)

and_fields : (k q r : ℕ) → r < 2 ^ k → bit_and (q * 2 ^ k + r) (2 ^ k - 1) ≡ r
and_fields zero q r h = omega (arith, and_zero (q * 1 + r))
and_fields (suc k) q r h = omega (
  arith,
  and_digit (q * 2 ^ suc k + r) (2 ^ suc k - 1),
  double q k,
  pow-suc 2 k,
  ap (λ (t : ℕ). bit_and t (2 ^ k - 1)) {x = (q * 2 ^ suc k + r) / 2} {y = q * 2 ^ k + r / 2}
      (omega (arith, double q k)),
  ap (λ (t : ℕ). bit_and ((q * 2 ^ suc k + r) / 2) t) {x = (2 ^ suc k - 1) / 2} {y = 2 ^ k - 1}
      (omega (arith, pow-suc 2 k)),
  and_fields k q (r / 2) (omega (arith, pow-suc 2 k)),
)

-- `a & (2^k - 1)`: the low bits.
pub and_low : (k a : ℕ) → bit_and a (2 ^ k - 1) ≡ a % 2 ^ k
and_low k a =
    ap (λ (t : ℕ). bit_and t (2 ^ k - 1)) (sym (div-add-mod' a (2 ^ k)))
    ∙ and_fields k (a / 2 ^ k) (a % 2 ^ k) (mod-lt a (one-le-pow k 2 (omega arith)))

pub and_one : (a : ℕ) → bit_and a 1 ≡ a % 2
and_one a = omega (arith, and_digit a 1, and_zero (a / 2))

pub and_two : (a : ℕ) → bit_and a 2 ≡ 2 * (a / 2 % 2)
and_two a = omega (arith, and_digit a 2, and_one (a / 2))

pub and_four : (a : ℕ) → bit_and a 4 ≡ 4 * (a / 4 % 2)
and_four a = omega (arith, and_digit a 4, and_two (a / 2))

-- `a & !0xF` on a word of 128 bits.
pub and_clear : (a : ℕ) → a < 2 ^ 128 → bit_and a (2 ^ 128 - 16) ≡ a / 16 * 2 ^ 4
and_clear a h = omega (
  arith,
  and_digit a (2 ^ 128 - 16),
  and_digit (a / 2) (2 ^ 127 - 8),
  and_digit (a / 2 / 2) (2 ^ 126 - 4),
  and_digit (a / 2 / 2 / 2) (2 ^ 125 - 2),
  and_low 124 (a / 2 / 2 / 2 / 2),
)

-- A mask whose low `k` bits are 0 keeps what is above them.
pub and_high : (k a q : ℕ) → bit_and a (q * 2 ^ k) ≡ bit_and (a / 2 ^ k) q * 2 ^ k
and_high zero a q =
    ap₂ bit_and {x = a} {y = a / 2 ^ 0} {u = q * 2 ^ 0} {v = q} (omega arith) (omega arith)
    ∙ omega arith
and_high (suc k) a q = omega (
  arith,
  and_digit a (q * 2 ^ suc k),
  double q k,
  ap (bit_and (a / 2)) {x = q * 2 ^ suc k / 2} {y = q * 2 ^ k} (omega (arith, double q k)),
  and_high k (a / 2) q,
  double (bit_and (a / 2 / 2 ^ k) q) k,
  ap (λ (t : ℕ). bit_and t q * 2 ^ suc k) {x = a / 2 ^ suc k} {y = a / 2 / 2 ^ k}
      (ap (λ (t : ℕ). a / t) (pow-suc 2 k ∙ mul_comm (2 ^ k) 2)
        ∙ sym (div-div-eq-div-mul a 2 (2 ^ k))),
)
