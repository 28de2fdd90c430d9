-- ===== src/Common/Bits.antt =====
-- `bit_and` with the masks 2 ^ k - 1 and c * 2 ^ k, at every width.
use Prim.Native.Nat.{
  ℕ, zero, suc, ◌+◌, ◌-◌, ◌*◌, ◌/◌, ◌%◌, ◌^◌, ◌≤◌, ◌<◌, min, bit_and, digits, bit_and-bitwise,
}
use mathlib.Core.Path.{◌≡◌, refl, ◌∙◌, ap, ap₂, sym}
use native.Mathlib.Nat.{pow-suc, div-add-mod', mod-lt}
use native.Mathlib.Omega.{arith}

abbrev meet_digits : ℕ → ℕ → ℕ → ℕ
meet_digits = digits (λ _. zero) min

-- Fuel above the first operand is not used.
spare_fuel : (n m a b : ℕ) → a ≤ n → n ≤ m → meet_digits m a b ≡ meet_digits n a b
spare_fuel zero zero a b h k = refl
spare_fuel zero (suc m) zero b h k = refl
spare_fuel zero (suc m) (suc a) b h k = absurd (omega arith)
spare_fuel (suc n) zero a b h k = absurd (omega arith)
spare_fuel (suc n) (suc m) zero b h k = refl
spare_fuel (suc n) (suc m) (suc a) b h k =
    ap (λ (t : ℕ). t * 2 + min (suc a % 2) (b % 2))
      (spare_fuel n m (suc a / 2) (b / 2) (omega arith) (omega arith))

zero_bit_and : (b : ℕ) → bit_and 0 b ≡ 0
zero_bit_and b = bit_and-bitwise 0 b

-- One binary digit of the conjunction.
pub bit_and_digit : (a b : ℕ) → bit_and a b ≡ bit_and (a / 2) (b / 2) * 2 + min (a % 2) (b % 2)
bit_and_digit zero b = omega (arith, zero_bit_and b, zero_bit_and (b / 2))
bit_and_digit (suc a) b =
    bit_and-bitwise (suc a) b
    ∙ ap (λ (t : ℕ). t * 2 + min (suc a % 2) (b % 2))
        (spare_fuel (suc a / 2) a (suc a / 2) (b / 2) (omega arith) (omega arith)
          ∙ sym (bit_and-bitwise (suc a / 2) (b / 2)))

bit_and_zero : (n a : ℕ) → a ≤ n → bit_and a 0 ≡ 0
bit_and_zero zero a h =
    omega (arith, zero_bit_and 0, ap (λ (t : ℕ). bit_and t 0) (let e : a ≡ 0 = omega arith in e))
bit_and_zero (suc n) a h = omega (arith, bit_and_digit a 0, bit_and_zero n (a / 2) (omega arith))

pub pow_pos : (k : ℕ) → 0 < 2 ^ k
pow_pos zero = omega arith
pow_pos (suc k) = omega (arith, pow-suc 2 k, pow_pos k)

-- A digit of the conjunction, for operands given by their halves and their last digits.
bit_and_halves :
    (a b a' b' x y : ℕ)
    → a ≡ a' * 2 + x
    → b ≡ b' * 2 + y
    → x < 2
    → y < 2
    → bit_and a b ≡ bit_and a' b' * 2 + min x y
bit_and_halves a b a' b' x y p q hx hy =
    let ha : a / 2 ≡ a' = omega arith in
    let hb : b / 2 ≡ b' = omega arith in omega (arith, bit_and_digit a b, ap₂ bit_and ha hb)

-- The low k digits.
pub bit_and-low : (k q r : ℕ) → r < 2 ^ k → bit_and (q * 2 ^ k + r) (2 ^ k - 1) ≡ r
bit_and-low zero q r h = omega (arith, bit_and_zero (q * 2 ^ 0 + r) (q * 2 ^ 0 + r) (omega arith))
bit_and-low (suc k) q r h = omega (
  arith,
  bit_and_halves (q * 2 ^ suc k + r) (2 ^ suc k - 1) (q * 2 ^ k + r / 2) (2 ^ k - 1) (r % 2) 1
      (omega (arith, ap (λ (t : ℕ). q * t) (pow-suc 2 k))) (omega (arith, pow-suc 2 k, pow_pos k))
      (omega arith) (omega arith),
  bit_and-low k q (r / 2) (omega (arith, pow-suc 2 k)),
)

-- All but the low k digits.
pub bit_and-high :
    (k q r c : ℕ) → r < 2 ^ k → bit_and (q * 2 ^ k + r) (c * 2 ^ k) ≡ bit_and q c * 2 ^ k
bit_and-high zero q r c h =
    let e : q * 2 ^ 0 + r ≡ q = omega arith in
    let e' : c * 2 ^ 0 ≡ c = omega arith in omega (arith, ap₂ bit_and e e')
bit_and-high (suc k) q r c h = omega (
  arith,
  bit_and_halves (q * 2 ^ suc k + r) (c * 2 ^ suc k) (q * 2 ^ k + r / 2) (c * 2 ^ k) (r % 2) 0
      (omega (arith, ap (λ (t : ℕ). q * t) (pow-suc 2 k)))
      (omega (arith, ap (λ (t : ℕ). c * t) (pow-suc 2 k))) (omega arith) (omega arith),
  bit_and-high k q (r / 2) c (omega (arith, pow-suc 2 k)),
  ap (λ (t : ℕ). bit_and q c * t) (pow-suc 2 k),
)

-- The two masks on any number.
pub bit_and-mask : (k x : ℕ) → bit_and x (2 ^ k - 1) ≡ x % 2 ^ k
bit_and-mask k x =
    let split : x ≡ x / 2 ^ k * 2 ^ k + x % 2 ^ k = sym (div-add-mod' x (2 ^ k)) in
    let short : x % 2 ^ k < 2 ^ k = mod-lt x (pow_pos k) in
    ap (λ (t : ℕ). bit_and t (2 ^ k - 1)) split ∙ bit_and-low k (x / 2 ^ k) (x % 2 ^ k) short

pub bit_and-high_mask : (k x c : ℕ) → bit_and x (c * 2 ^ k) ≡ bit_and (x / 2 ^ k) c * 2 ^ k
bit_and-high_mask k x c =
    let split : x ≡ x / 2 ^ k * 2 ^ k + x % 2 ^ k = sym (div-add-mod' x (2 ^ k)) in
    let short : x % 2 ^ k < 2 ^ k = mod-lt x (pow_pos k) in
    ap (λ (t : ℕ). bit_and t (c * 2 ^ k)) split ∙ bit_and-high k (x / 2 ^ k) (x % 2 ^ k) c short
