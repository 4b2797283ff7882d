-- ===== src/Domain/Real.antt =====
-- Python's floats, and what the program uses of them: an interface. The laws are those of IEEE
-- doubles on numbers (no NaN arises in the program): a total order, and operations that keep it.
use reclaim_os.Prelude.{
  Bool-cases, inl, inr, refl, arith, ℕ, Text, ◌≡◌, ◌⊎◌, Bool, true, false, if◌then◌else◌,
}

pub record Reals : Type 1 where
  pub Real : Type 0
  -- `lit n d` is the literal n / 10^d: 0.15 is `lit 15 2`.
  pub lit : ℕ → ℕ → Real
  pub add : Real → Real → Real
  pub sub : Real → Real → Real
  pub mul : Real → Real → Real
  pub div : Real → Real → Real
  -- a ** n at a natural exponent, and float(n)
  pub pow : Real → ℕ → Real
  pub of_nat : ℕ → Real
  -- a <= b
  pub leb : Real → Real → Bool
  -- round(a, 4)
  pub round4 : Real → Real
  -- f"{a:.2f}" with the number of decimals first
  pub fixed : ℕ → Real → Text
  -- timedelta(hours=a) of a nonnegative a, in microseconds
  pub hours : Real → ℕ

-- The order is total, and rounding to four decimals keeps it, 0 and 1;
-- and 0 < 1.
pub record IsOrdered (R : Reals) : Type 0 where
  pub total : (a b : R.Real) → (R.leb a b ≡ true) ⊎ (R.leb b a ≡ true)
  pub trans : (a b c : R.Real) → R.leb a b ≡ true → R.leb b c ≡ true → R.leb a c ≡ true
  pub round4_mono : (a b : R.Real) → R.leb a b ≡ true → R.leb (R.round4 a) (R.round4 b) ≡ true
  pub round4_zero : R.round4 (R.lit 0 0) ≡ R.lit 0 0
  pub round4_one : R.round4 (R.lit 1 0) ≡ R.lit 1 0
  pub not-one-le-zero : R.leb (R.lit 1 0) (R.lit 0 0) ≡ false
  pub zero-le-one : R.leb (R.lit 0 0) (R.lit 1 0) ≡ true

module _ (R : Reals) where
  open R use {Real, leb}

  -- Python's max(a, b) and min(a, b): the first argument unless the second is beyond it.
  abbrev pub max_of : Real → Real → Real
  max_of a b = if leb b a then a else b

  abbrev pub min_of : Real → Real → Real
  min_of a b = if leb a b then a else b

  -- a < b
  abbrev pub ltb : Real → Real → Bool
  ltb a b = if leb b a then false else true

module _ (R : Reals) (o : IsOrdered R) where
  open R use {Real, leb}

  pub leb_refl : (a : Real) → leb a a ≡ true
  leb_refl a = elim (o.total a a) [ inl h ↦ h | inr h ↦ h ]

  pub le-max_of_left : (a b : Real) → leb a (max_of R a b) ≡ true
  le-max_of_left a b = elim (Bool-cases (leb b a)) [
    | inl e ↦ rw e (leb_refl a)
    | inr e ↦ rw e (elim (o.total a b) [ inl h ↦ h | inr h ↦ absurd (cc) ])
  ]

  pub le-max_of_right : (a b : Real) → leb b (max_of R a b) ≡ true
  le-max_of_right a b = elim (Bool-cases (leb b a)) [ inl e ↦ rw e e | inr e ↦ rw e (leb_refl b) ]

  pub min_of-le_left : (a b : Real) → leb (min_of R a b) a ≡ true
  min_of-le_left a b = elim (Bool-cases (leb a b)) [
    | inl e ↦ rw e (leb_refl a)
    | inr e ↦ rw e (elim (o.total a b) [ inl h ↦ absurd (cc) | inr h ↦ h ])
  ]

  -- A lower bound of both is one of the lesser.
  pub le-min_of : (c a b : Real) → leb c a ≡ true → leb c b ≡ true → leb c (min_of R a b) ≡ true
  le-min_of c a b ha hb = elim (Bool-cases (leb a b)) [ inl e ↦ rw e ha | inr e ↦ rw e hb ]

  -- max(0.0, max(1.0, a)) is max(1.0, a).
  pub max_of_zero-max_of_one :
      (a : Real) → max_of R (R.lit 0 0) (max_of R (R.lit 1 0) a) ≡ max_of R (R.lit 1 0) a
  max_of_zero-max_of_one a = elim (Bool-cases (leb (max_of R (R.lit 1 0) a) (R.lit 0 0))) [
    | inl e ↦ absurd (
        ground (
          arith,
          o.not-one-le-zero,
          o.trans (R.lit 1 0) (max_of R (R.lit 1 0) a) (R.lit 0 0) (le-max_of_left (R.lit 1 0) a) e,
        ))
    | inr e ↦ rw e refl
  ]
