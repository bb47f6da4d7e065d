-- ===== src/Evidence/Decimal/Hundredths.antt =====
-- Decimals with two places, which shows that the laws of the interface can be met.
use native.Mathlib.Nat.{mul-le-mul_right}
use vaas.Base.{ℕ, ◌+◌, ◌*◌, ◌/◌, ◌≤◌, ◌≡◌, refl, Bool, true, false, not, arith, ltb, leb, ◌==◌}
use vaas.Evidence.Decimal.{Decimals, DecimalLaws}

-- A number of hundredths, or the nil decimal.
pub data Hundredths : Type 0 where
  nil : Hundredths
  hundredths : ℕ → Hundredths

abbrev is_nil : Hundredths → Bool
is_nil nil = true
is_nil (hundredths n) = false

abbrev equal : Hundredths → Hundredths → Bool
equal nil nil = true
equal (hundredths m) (hundredths n) = m == n
equal _ _ = false

abbrev is_positive : Hundredths → Bool
is_positive nil = false
is_positive (hundredths n) = ltb 0 n

abbrev lt : Hundredths → Hundredths → Bool
lt (hundredths m) (hundredths n) = ltb m n
lt _ _ = false

abbrev lte : Hundredths → Hundredths → Bool
lte (hundredths m) (hundredths n) = leb m n
lte _ _ = true

abbrev times : Hundredths → ℕ → Hundredths
times nil n = nil
times (hundredths m) n = hundredths (m * n)

abbrev ceil : Hundredths → Hundredths
ceil nil = nil
ceil (hundredths m) = hundredths ((m + 99) / 100 * 100)

abbrev truncate : Hundredths → ℕ
truncate nil = 0
truncate (hundredths m) = m / 100

abbrev pub toy_decimals : Decimals
toy_decimals = record {
  LegacyDec = Hundredths;
  zero = hundredths 0;
  one = hundredths 100;
  is_nil = is_nil;
  equal = equal;
  is_positive = is_positive;
  lt = lt;
  lte = lte;
  gte = λ a b. not (lt a b);
  mul_int64 = times;
  ceil = ceil;
  truncate_int64 = truncate;
}

ceil_fraction :
    (d : Hundredths) (n : ℕ) → lt d (hundredths 100) ≡ true → truncate (ceil (times d n)) ≤ n
ceil_fraction nil n h = ground (arith, h)
ceil_fraction (hundredths m) n h =
    let le : m ≤ 100 = ground (arith, h) in omega (arith, mul-le-mul_right n le)

pub toy_decimal_laws : DecimalLaws toy_decimals
toy_decimal_laws = record {
  is_positive_lte = positive;
  lt_gte = λ a b. twice (lt a b);
  equal_refl = same;
  ceil_fraction = ceil_fraction;
}
  where
    positive : (d : Hundredths) → is_positive d ≡ not (lte d (hundredths 0))
    positive nil = refl
    positive (hundredths n) = ground arith

    twice : (b : Bool) → b ≡ not (not b)
    twice true = refl
    twice false = refl

    same : (d : Hundredths) → equal d d ≡ true
    same nil = refl
    same (hundredths n) = ground arith
