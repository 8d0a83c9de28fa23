-- ===== src/Float.antt =====
-- Python floats as a type with the operations that the code uses, and the laws of IEEE comparisons
-- that the proofs use. Nothing is assumed of the rounding of sums and products.
use johnny.Prelude.{
  ℕ, ◌≡◌, Bool, true, false, not, Option, none, some, arith, ltb, leb, if◌then◌else◌, ◌+◌, ◌-◌, ◌*◌,
  ◌/◌,
}

pub record Float (W : Type 0) : Type 0 where
  pub zero : W
  pub one : W
  pub add : W → W → W
  pub sub : W → W → W
  pub mul : W → W → W
  pub div : W → W → W
  pub lt : W → W → Bool
  pub le : W → W → Bool

infix 4 ◌≼◌
abbrev pub ◌≼◌ : {W : Type 0} ⦃f : Float W⦄ → W → W → Type 0
◌≼◌ ⦃f⦄ x y = f.le x y ≡ true

-- Not NaN
abbrev pub IsNumber : {W : Type 0} ⦃f : Float W⦄ → W → Type 0
IsNumber x = x ≼ x

-- What holds of `<` and `<=` on floats, infinities and NaN included.
pub record IsOrdered (W : Type 0) ⦃f : Float W⦄ : Type 0 where
  pub zero_le_one : f.zero ≼ f.one
  pub minus_one_le_zero : f.sub f.zero f.one ≼ f.zero
  pub le_of_lt : (x y : W) → f.lt x y ≡ true → x ≼ y
  pub le_trans : (x y z : W) → y ≼ z → x ≼ y → x ≼ z
  pub numbers_of_le : (x y : W) → x ≼ y → IsNumber x × IsNumber y
  pub lt-eq-not-le : (x y : W) → IsNumber y → IsNumber x → f.lt x y ≡ not (f.le y x)

module _ {W : Type 0} ⦃f : Float W⦄ where
  -- `min(1.0, max(0.0, value))`: `max` and `min` keep their first argument unless the second beats it
  unfoldable pub clamp01 : W → W
  clamp01 value =
      let above = if f.lt f.zero value then value else f.zero in
      if f.lt above f.one then above else f.one

  -- The result lies in [0, 1], also for infinities and for NaN.
  pub clamp01_bounds :
      IsOrdered W → (value : W) → (f.zero ≼ clamp01 value) × (clamp01 value ≼ f.one)
  unfolding clamp01
  clamp01_bounds laws value = ground (
    arith,
    laws.le_of_lt f.zero value,
    laws.le_of_lt value f.one,
    laws.le_of_lt f.zero f.one,
    laws.zero_le_one,
    laws.numbers_of_le f.zero f.one,
  )

  -- `min(hi, max(lo, value))`
  unfoldable pub clamp : W → W → W → W
  clamp value lo hi =
      let above = if f.lt lo value then value else lo in if f.lt above hi then above else hi

  pub clamp_bounds :
      IsOrdered W
      → (value lo hi : W) → lo ≼ hi
      → (lo ≼ clamp value lo hi) × (clamp value lo hi ≼ hi)
  unfolding clamp
  clamp_bounds laws value lo hi h = ground (
    arith,
    h,
    laws.le_of_lt lo value,
    laws.le_of_lt value hi,
    laws.le_of_lt lo hi,
    laws.numbers_of_le lo hi,
  )

  pub lt_asym :
      IsOrdered W → (x y : W) → IsNumber x → IsNumber y → f.lt y x ≡ true → f.lt x y ≡ false
  lt_asym laws x y hx hy h = ground (arith, laws.le_of_lt y x, laws.lt-eq-not-le x y)

  pub not_lt_trans :
      IsOrdered W
      → (x y z : W) → IsNumber x
      → IsNumber y
      → IsNumber z
      → f.lt x y ≡ false
      → f.lt y z ≡ false
      → f.lt x z ≡ false
  not_lt_trans laws x y z hx hy hz h k = ground (
    arith,
    laws.lt-eq-not-le x y,
    laws.lt-eq-not-le y z,
    laws.lt-eq-not-le x z,
    laws.le_trans z y x,
  )

-- An instance that the witnesses run on: thousandths, with `none` for NaN, and truncated differences.
abbrev pub Milli : Type 0
Milli = Option ℕ

abbrev pub by_values : (ℕ → ℕ → Bool) → Milli → Milli → Bool
by_values g none y = false
by_values g (some a) none = false
by_values g (some a) (some b) = g a b

abbrev pub with_numbers : (ℕ → ℕ → ℕ) → Milli → Milli → Milli
with_numbers g (some a) (some b) = some (g a b)
with_numbers g _ _ = none

instance abbrev pub milli_float : Float Milli
milli_float = record {
  zero = some 0;
  one = some 1000;
  add = with_numbers λ a b. a + b;
  sub = with_numbers λ a b. a - b;
  mul = with_numbers λ a b. a * b / 1000;
  div = with_numbers λ a b. a * 1000 / b;
  lt = by_values ltb;
  le = by_values leb;
}

pub Milli-IsOrdered : IsOrdered Milli
Milli-IsOrdered = ground arith
