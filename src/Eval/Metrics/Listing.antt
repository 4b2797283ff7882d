-- ===== src/Eval/Metrics/Listing.antt =====
-- The exception list: every row that was not recovered, the expensive misses first.
use reclaim_os.Prelude.{
  ℕ, ◌≡◌, ◌⊎◌, arith, Text, Bool, true, false, not, List, count, keep, map, if◌then◌else◌,
  leb as leb_ℕ,
}
use reclaim_os.Prelude.Dict.{Dict, lookup, or_default}
use reclaim_os.Prelude.Sorting.{sort, IsSorted, sort-IsSorted, sort-count}
use reclaim_os.Domain.Declines.{name}
use reclaim_os.Eval.Outcomes.{RecordOutcome}
use reclaim_os.Eval.Metrics.{terminal_value}

pub record ExceptionRow : Type 0 where
  pub subscription_id : Text
  pub true_class : Text
  pub terminal_reason : Text
  pub amount_paise : ℕ
  pub charge_attempts : ℕ
  pub contact_actions : ℕ
  pub was_recoverable : Bool

unfoldable pub exception_row : {Real : Type 0} → Dict ℕ → RecordOutcome Real → ExceptionRow
exception_row values o = record {
  subscription_id = o.subscription_id;
  true_class = name o.true_class;
  terminal_reason = terminal_value o.terminal_reason;
  amount_paise = or_default (lookup o.subscription_id values) 0;
  charge_attempts = o.charge_attempts;
  contact_actions = o.contact_actions;
  was_recoverable = o.true_recoverable;
}

-- (not r.was_recoverable, -r.amount_paise) of one row is at most that of another.
abbrev pub leb_row : ExceptionRow → ExceptionRow → Bool
leb_row a b =
    if a.was_recoverable
    then if b.was_recoverable then leb_ℕ b.amount_paise a.amount_paise else true
    else if b.was_recoverable
    then false
    else leb_ℕ b.amount_paise a.amount_paise

unfoldable pub exceptions : {Real : Type 0} → List (RecordOutcome Real) → Dict ℕ → List ExceptionRow
exceptions os values = sort leb_row (map (exception_row values) (keep (λ o. not o.is_recovered) os))

leb_row_total : (a b : ExceptionRow) → (leb_row a b ≡ true) ⊎ (leb_row b a ≡ true)
leb_row_total a b = ground arith

leb_row_trans :
    (a b c : ExceptionRow) → leb_row a b ≡ true → leb_row b c ≡ true → leb_row a c ≡ true
leb_row_trans a b c h k = ground arith

-- The exception list is sorted: every recoverable row before every other, and among either the
-- larger amounts first. Its rows are those of the outcomes that were not recovered, each as often:
-- any test passes as many of them.
pub exceptions-IsSorted :
    {Real : Type 0} (os : List (RecordOutcome Real)) (values : Dict ℕ) (p : ExceptionRow → Bool)
    → IsSorted leb_row (exceptions os values)
      × (count p (exceptions os values)
          ≡ count p (map (exception_row values) (keep (λ o. not o.is_recovered) os)))
unfolding exceptions
exceptions-IsSorted os values p =
    let rows = map (exception_row values) (keep (λ o. not o.is_recovered) os) in
    (sort-IsSorted leb_row leb_row_total leb_row_trans rows, sort-count leb_row p rows)
