-- ===== src/Money.antt =====
-- src/reclaimos/money.py: paise in and out of rupee texts.
-- `Decimal` is Python's: of its texts the plain ones are modelled (a sign, digits, a point), and
-- of its contexts the default one, with 28 digits.
pub mod Plain
pub mod Grouping
use reclaim_os.Prelude.{
  ℕ, zero, suc, ◌+◌, ◌-◌, ◌*◌, ◌/◌, ◌%◌, ◌^◌, Text, codes, Bool, true, false, not, ◌&&◌, Option,
  none, some, List, [], ◌∷◌, ◌++◌, length, is_empty, any, replicate, ltb, leb, ◌==◌, if◌then◌else◌,
  drop_last, take_last, join,
}
use reclaim_os.Prelude.Int.{ℤ, pos, negsuc}
use reclaim_os.Domain.Real.{Reals}
use reclaim_os.Prelude.Decimal.{decimal, value_from}

-- ± coefficient / 10^places
pub record Decimal : Type 0 where
  pub negative : Bool
  pub coefficient : ℕ
  pub places : ℕ

abbrev pub is_digit : ℕ → Bool
is_digit c = leb b'0' c && leb c b'9'

abbrev pub all_digits : Text → Bool
all_digits s = not (any (λ c. not (is_digit c)) s)

-- The text before the first point, and the text behind it.
unfoldable pub at_point : Text → Text × Text
at_point [] = ([], [])
at_point (c ∷ s) = let (a, b) = at_point s in if c == b'.' then ([], s) else (c ∷ a, b)

unfoldable pub unsigned_decimal : Bool → Text → Option Decimal
unfolding at_point
unsigned_decimal negative s =
    let (whole, fraction) = at_point s in
    if all_digits whole && (all_digits fraction && not (is_empty whole && is_empty fraction))
    then some (record {
      negative = negative;
      coefficient = value_from 0 (whole ++ fraction);
      places = length fraction;
    })
    else none

-- Decimal(text) of a plain text; none stands for any other text.
unfoldable pub plain_decimal : Text → Option Decimal
plain_decimal [] = none
plain_decimal (c ∷ s) =
    if c == b'-'
    then unsigned_decimal true s
    else if c == b'+'
    then unsigned_decimal false s
    else unsigned_decimal false (c ∷ s)

-- How `rupees` of a text ends. A text that is not plain and a product of more than 28 digits,
-- which the context rounds, are told apart, and no more is said of them.
pub data Rupees : Type 0 where
  paise : ℤ → Rupees
  not_plain : Rupees
  too_precise : Rupees

abbrev pub signed : Bool → ℕ → ℤ
signed false n = pos n
signed true zero = pos 0
signed true (suc n) = negsuc n

-- n / 10^places to a whole number, ties away from zero
unfoldable pub round_half_up : ℕ → ℕ → ℕ
round_half_up n places = (2 * n + 10 ^ places) / (2 * 10 ^ places)

abbrev pub precision_limit : ℕ
precision_limit = 10000000000000000000000000000

unfoldable pub to_paise : Decimal → Rupees
to_paise d =
    let product = d.coefficient * 100 in
    if ltb product precision_limit
    then paise (signed d.negative (round_half_up product d.places))
    else too_precise

-- `rupees` of a str
unfoldable pub rupees : Text → Rupees
unfolding to_paise
rupees amount = elim (plain_decimal amount) [ none ↦ not_plain | some d ↦ to_paise d ]

-- `rupees` of an int
unfoldable pub rupees_of_int : ℤ → Rupees
unfolding to_paise
rupees_of_int (pos n) = to_paise (record { negative = false; coefficient = n; places = 0 })
rupees_of_int (negsuc n) = to_paise (record { negative = true; coefficient = suc n; places = 0 })

abbrev pub absolute : ℤ → ℕ
absolute (pos n) = n
absolute (negsuc n) = suc n

-- sign = "-" if amount < 0 else ""
abbrev pub sign_of : ℤ → Text
sign_of (pos _) = []
sign_of (negsuc _) = codes "-"

-- f"{n:02d}"
unfoldable pub two_digits : ℕ → Text
two_digits n = let digits = decimal n in replicate (2 - length digits) b'0' ++ digits

unfoldable pub to_rupee_str : ℤ → Text
to_rupee_str amount =
    sign_of amount
    ++ (decimal (absolute amount / 100) ++ (codes "." ++ two_digits (absolute amount % 100)))

-- The `while` over `head`, with a round for each of its digits at most, and the `if` behind it.
unfoldable pub group_head : ℕ → Text → List Text → List Text
group_head zero head groups = if is_empty head then groups else head ∷ groups
group_head (suc fuel) head groups =
    let rest = group_head fuel (drop_last 2 head) (take_last 2 head ∷ groups) in
    if ltb 2 (length head) then rest else if is_empty head then groups else head ∷ groups

-- The groups of the digits, joined by "," in the end.
unfoldable pub groups_of : Text → List Text
unfolding group_head
groups_of digits =
    let head = drop_last 3 digits in
    if ltb 3 (length digits)
    then group_head (length head) head [] ++ take_last 3 digits ∷ []
    else digits ∷ []

unfoldable pub format_inr : ℤ → Text
format_inr amount =
    sign_of amount
    ++ (codes "₹"
        ++ (join (codes ",") (groups_of (decimal (absolute amount / 100)))
            ++ (codes "." ++ two_digits (absolute amount % 100))))

module _ (R : Reals) where
  open R use {Real, lit, mul, div, leb}

  -- x == 0
  unfoldable pub is_zero : Real → Bool
  is_zero x = leb x (lit 0 1) && leb (lit 0 1) x

  unfoldable pub pct : Real → Real → Real
  pct numerator denominator =
      if is_zero denominator then lit 0 1 else div (mul (lit 1000 1) numerator) denominator
