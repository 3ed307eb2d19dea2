-- ===== src/Prelude/Bits.antt =====
-- The bit tricks of the code, at variables: a mask of ones is a remainder, and `x & (x - 1)` is zero
-- exactly at the powers of two.
use Prim.Native.Nat.{
  ℕ, zero, suc, ◌+◌, ◌-◌, ◌*◌, ◌/◌, ◌%◌, ◌^◌, ◌≤◌, ◌<◌, min, bit_and, digits, bit_and-bitwise,
}
use mathlib.Core.Path.{◌≡◌, refl, sym, ap, ◌∙◌, subst}
use mathlib.Core.Logic.{◌≢◌}
use native.Mathlib.Omega.{arith}
use native.Mathlib.Nat.{pow-suc, mul-add-mod_self_left, mod-eq_of_lt, mod-lt, div-add-mod}
use native.Mathlib.Decide.{ℕ_discrete, dec_lt}

-- Bitwise "and" by halving, with `fuel` rounds.
abbrev and_rounds : ℕ → ℕ → ℕ → ℕ
and_rounds fuel x y = digits (λ _. 0) min fuel x y

-- One more round than needed changes nothing.
and_rounds-more : (x y fuel : ℕ) → x ≤ fuel → and_rounds (suc fuel) x y ≡ and_rounds fuel x y
and_rounds-more zero y zero h = refl
and_rounds-more zero y (suc fuel) h = refl
and_rounds-more (suc x) y zero h = absurd (omega arith)
and_rounds-more (suc x) y (suc fuel) h =
    let halves = and_rounds-more (suc x / 2) (y / 2) fuel (omega arith) in omega (arith, halves)

-- Nor does any number of rounds more.
and_rounds-enough : (extra x y : ℕ) → and_rounds (extra + x) x y ≡ bit_and x y
and_rounds-enough zero x y =
    ap (λ fuel. and_rounds fuel x y) (omega arith) ∙ sym (bit_and-bitwise x y)
and_rounds-enough (suc extra) x y =
    ap (λ fuel. and_rounds fuel x y) shift
    ∙ and_rounds-more x y (extra + x) (omega arith)
    ∙ and_rounds-enough extra x y
  where
    shift : suc extra + x ≡ suc (extra + x)
    shift = omega arith

pub bit_and_step : (x y : ℕ) → bit_and x y ≡ min (x % 2) (y % 2) + 2 * bit_and (x / 2) (y / 2)
bit_and_step zero y = bit_and-bitwise 0 y ∙ omega (arith, bit_and-bitwise 0 (y / 2))
bit_and_step (suc x) y =
    let half = suc x / 2 in
    let rounds : x - half + half ≡ x = omega arith in
    let lower : and_rounds x half (y / 2) ≡ bit_and half (y / 2) =
      ap (λ fuel. and_rounds fuel half (y / 2)) (sym rounds)
      ∙ and_rounds-enough (x - half) half (y / 2) in
    bit_and-bitwise (suc x) y ∙ omega (arith, lower)

bit_and-none : (fuel x : ℕ) → x < fuel → bit_and x 0 ≡ 0
bit_and-none zero x h = absurd (omega arith)
bit_and-none (suc fuel) x h = elim (dec_lt 0 x) [
  | no z ↦ omega (arith, bit_and_step x 0, bit_and-bitwise 0 0, ap (λ k. bit_and k 0) (zero_of x z))
  | yes p ↦ omega (arith, bit_and_step x 0, bit_and-none fuel (x / 2) (omega arith))
]
  where
    zero_of : (k : ℕ) → ¬ (0 < k) → k ≡ 0
    zero_of k z = omega arith

-- The powers of two by doubling.
pub data IsPow2 : ℕ → Type 0 where
  one : IsPow2 1
  double : {n m : ℕ} → IsPow2 n → m ≡ 2 * n → IsPow2 m

pub IsPow2-pos : {n : ℕ} → IsPow2 n → 0 < n
IsPow2-pos one = omega arith
IsPow2-pos (double p e) = omega (arith, IsPow2-pos p)

pub IsPow2-pow : (k : ℕ) → IsPow2 (2 ^ k)
IsPow2-pow zero = one
IsPow2-pow (suc k) = double (IsPow2-pow k) (omega (arith, pow-suc 2 k))

mod_double : (x n : ℕ) → 0 < n → x % (2 * n) ≡ 2 * (x / 2 % n) + x % 2
mod_double x n h =
    ap (λ k. k % (2 * n)) split
    ∙ mul-add-mod_self_left (2 * n) (x / 2 / n) (2 * (x / 2 % n) + x % 2)
    ∙ mod-eq_of_lt (omega (arith, mod-lt (x / 2) h))
  where
    split : x ≡ 2 * n * (x / 2 / n) + (2 * (x / 2 % n) + x % 2)
    split = omega (arith, div-add-mod (x / 2) n)

-- `x & (n - 1)` is `x % n` at a power of two.
pub bit_and-mask : (x : ℕ) {n : ℕ} → IsPow2 n → bit_and x (n - 1) ≡ x % n
bit_and-mask x one = omega (arith, bit_and-none (suc x) x (omega arith))
bit_and-mask x (double {n} {m} p e) =
    rw (e, mod_double x n (IsPow2-pos p), bit_and_step x (2 * n - 1), half)
      (omega (arith, bit_and-mask (x / 2) p, IsPow2-pos p))
  where
    half : (2 * n - 1) / 2 ≡ n - 1
    half = omega (arith, IsPow2-pos p)

bit_and_self_fuel : (f n : ℕ) → n < f → bit_and n n ≡ n
bit_and_self_fuel zero n h = absurd (omega arith)
bit_and_self_fuel (suc f) zero h = bit_and-bitwise 0 0
bit_and_self_fuel (suc f) (suc n) h =
    omega (arith, bit_and_step (suc n) (suc n), bit_and_self_fuel f (suc n / 2) (omega arith))

-- The lower bits of `n & (n - 1)`, for even and for odd `n`.
test_even : (n : ℕ) → 0 < n → n % 2 ≡ 0 → bit_and n (n - 1) ≡ 0 → bit_and (n / 2) (n / 2 - 1) ≡ 0
test_even n p even e =
    let half : (n - 1) / 2 ≡ n / 2 - 1 = omega arith in
    let step : bit_and (n / 2) ((n - 1) / 2) ≡ 0 = omega (arith, bit_and_step n (n - 1)) in
    rw half at step

test_odd : (n : ℕ) → n % 2 ≢ 0 → bit_and n (n - 1) ≡ 0 → 1 ≡ n
test_odd n odd e =
    let half : (n - 1) / 2 ≡ n / 2 = omega arith in
    let step : bit_and (n / 2) ((n - 1) / 2) ≡ 0 = omega (arith, bit_and_step n (n - 1)) in
    let step' : bit_and (n / 2) (n / 2) ≡ 0 = rw half at step in
    omega (arith, bit_and_self_fuel (suc (n / 2)) (n / 2) (omega arith))

IsPow2-test_fuel : (f n : ℕ) → n < f → 0 < n → bit_and n (n - 1) ≡ 0 → IsPow2 n
IsPow2-test_fuel zero n h p e = absurd (omega arith)
IsPow2-test_fuel (suc f) n h p e = elim (ℕ_discrete (n % 2) 0) [
  | yes even ↦
      double (IsPow2-test_fuel f (n / 2) (omega arith) (omega arith) (test_even n p even e))
        (omega arith)
  | no odd ↦ subst IsPow2 (test_odd n odd e) one
]

-- What the macro `NOT_POWER_OF_2` lets through is a power of two.
pub IsPow2-of_test : (n : ℕ) → 0 < n → bit_and n (n - 1) ≡ 0 → IsPow2 n
IsPow2-of_test n = IsPow2-test_fuel (suc n) n (omega arith)
