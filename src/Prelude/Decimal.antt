-- ===== src/Prelude/Decimal.antt =====
-- `str(n)` of a nonnegative integer.
use Prim.Native.Nat.{ℕ, zero, suc, ◌+◌, ◌*◌, ◌/◌, ◌%◌, ◌<◌, ◌≤◌}
use mathlib.Core.Path.{◌≡◌, refl, sym, ap, ◌∙◌}
use mathlib.Core.Logic.{inl, inr}
use mathlib.Core.List.{[], ◌∷◌, ◌++◌}
use native.Mathlib.Omega.{arith}
use reclaim_os.Prelude.Tests.{ltb, if◌then◌else◌, Bool-cases, ltb→lt}
use reclaim_os.Prelude.Texts.{Text}
use reclaim_os.Prelude.Lists.{All, All-append}

-- The fuel `n` is enough, since each round but the last divides by ten.
unfoldable pub decimal_on : ℕ → ℕ → Text
decimal_on zero n = (b'0' + n % 10) ∷ []
decimal_on (suc fuel) n =
    let front = decimal_on fuel (n / 10) in
    if ltb n 10 then (b'0' + n % 10) ∷ [] else front ++ (b'0' + n % 10) ∷ []

unfoldable pub decimal : ℕ → Text
unfolding decimal_on
decimal n = decimal_on n n

-- The number that a row of digits stands for.
abbrev pub value_from : ℕ → Text → ℕ
value_from acc [] = acc
value_from acc (c ∷ s) = value_from (acc * 10 + (c % 48)) s

value_from-append :
    (acc : ℕ) (s : Text) (c : ℕ) → value_from acc (s ++ c ∷ []) ≡ value_from acc s * 10 + (c % 48)
value_from-append acc [] c = refl
value_from-append acc (d ∷ s) c = value_from-append (acc * 10 + (d % 48)) s c

digit_value : (n : ℕ) → (b'0' + n % 10) % 48 ≡ n % 10
digit_value n = omega arith

decimal_on-value : (fuel n : ℕ) → n ≤ fuel → value_from 0 (decimal_on fuel n) ≡ n
unfolding decimal_on
decimal_on-value zero n h = omega arith
decimal_on-value (suc fuel) n h = elim (Bool-cases (ltb n 10)) [
  | inl e ↦ rw e (omega (arith, ltb→lt n 10 e))
  | inr e ↦ rw e (
      value_from-append 0 (decimal_on fuel (n / 10)) (b'0' + n % 10)
      ∙ omega (arith, decimal_on-value fuel (n / 10) (ground arith)))
]

-- Reading the digits back gives the number.
pub value_from-decimal : (n : ℕ) → value_from 0 (decimal n) ≡ n
unfolding decimal
value_from-decimal n = decimal_on-value n n (omega arith)

pub decimal-injective : (m n : ℕ) → decimal m ≡ decimal n → m ≡ n
decimal-injective m n e = sym (value_from-decimal m) ∙ ap (value_from 0) e ∙ value_from-decimal n

-- What holds of the ten digits holds of every character.
pub decimal-All {κ} :
    (P : ℕ → Type κ) → ((d : ℕ) → d < 10 → P (b'0' + d)) → (n : ℕ) → All P (decimal n)
unfolding decimal
decimal-All P h n = on n n
  where
    on : (fuel n : ℕ) → All P (decimal_on fuel n)
    on zero n = (h (n % 10) (omega arith), tt)
    on (suc fuel) n = elim (Bool-cases (ltb n 10)) [
      | inl e ↦ rw e (h (n % 10) (omega arith), tt)
      | inr e ↦ rw e (
          All-append P (decimal_on fuel (n / 10)) _ (on fuel (n / 10))
            (h (n % 10) (omega arith), tt))
    ]
