-- ===== src/Evidence/Decimal.antt =====
-- What the repository uses of cosmossdk.io/math's LegacyDec, which it does not hold: an interface,
-- with the documented behaviour as laws.
pub mod Hundredths
use vaas.Base.{ℕ, suc, ◌*◌, ◌≤◌, ◌≡◌, Bool, true, false, not}

pub record Decimals : Type 1 where
  pub LegacyDec : Type 0
  pub zero : LegacyDec
  pub one : LegacyDec
  pub is_nil : LegacyDec → Bool
  pub equal : LegacyDec → LegacyDec → Bool
  pub is_positive : LegacyDec → Bool
  pub lt : LegacyDec → LegacyDec → Bool
  pub lte : LegacyDec → LegacyDec → Bool
  pub gte : LegacyDec → LegacyDec → Bool
  pub mul_int64 : LegacyDec → ℕ → LegacyDec
  pub ceil : LegacyDec → LegacyDec
  -- The integer part of a non-negative decimal.
  pub truncate_int64 : LegacyDec → ℕ

pub record DecimalLaws (dec : Decimals) : Type 0 where
  pub is_positive_lte : (d : dec.LegacyDec) → dec.is_positive d ≡ not (dec.lte d dec.zero)
  pub lt_gte : (a b : dec.LegacyDec) → dec.lt a b ≡ not (dec.gte a b)
  pub equal_refl : (d : dec.LegacyDec) → dec.equal d d ≡ true
  -- A fraction below one of n, rounded up, is at most n.
  pub ceil_fraction :
      (d : dec.LegacyDec) (n : ℕ)
      → dec.lt d dec.one ≡ true
      → dec.truncate_int64 (dec.ceil (dec.mul_int64 d n)) ≤ n
