-- ===== src/Eval/Metrics.antt =====
-- src/reclaimos/eval/metrics.py: the metric set of one policy on one split, and the exception
-- list. `random.Random` is a parameter: its k-th `randrange(n)`. A row whose id the values do not
-- have is a KeyError: none.
pub mod Totals
pub mod Listing
use reclaim_os.Prelude.{
  ℕ, zero, suc, ◌+◌, ◌-◌, ◌*◌, ◌/◌, ◌%◌, Text, codes, Bool, true, false, not, ◌&&◌, ◌||◌, Option,
  none, some, List, [], ◌∷◌, length, is_empty, get_or, keep, count, sum, map, foldl, min, max,
  if◌then◌else◌, ◌==◌, text_eq, ltb, leb as leb_ℕ,
}
use reclaim_os.Prelude.Int.{ℤ, pos, negsuc, sub_ℕ}
use reclaim_os.Prelude.Dict.{Dict, lookup, insert, or_default}
use reclaim_os.Prelude.Sorting.{sort, leb_text}
use reclaim_os.Money.{pct, is_zero}
use reclaim_os.Domain.Declines.{name}
use reclaim_os.Domain.Models.{
  TerminalReason, recovered, policy_stopped, hard_decline_stop, attempt_cap_reached,
  mandate_expired, mandate_violation_blocked, escalated_to_human, no_action_taken,
  recovery_window_closed,
}
use reclaim_os.Domain.Real.{Reals}
use reclaim_os.Eval.Statistics.{Interval, Confusion, of_int, median, p90, interval_of}
use reclaim_os.Eval.Outcomes.{RecordOutcome, net_recovered_paise}

unfoldable pub terminal_value : TerminalReason → Text
terminal_value recovered = codes "recovered"
terminal_value policy_stopped = codes "policy_stopped"
terminal_value hard_decline_stop = codes "hard_decline_stop"
terminal_value attempt_cap_reached = codes "attempt_cap_reached"
terminal_value mandate_expired = codes "mandate_expired"
terminal_value mandate_violation_blocked = codes "mandate_violation_blocked"
terminal_value escalated_to_human = codes "escalated_to_human"
terminal_value no_action_taken = codes "no_action_taken"
terminal_value recovery_window_closed = codes "recovery_window_closed"

abbrev pub is_escalated : TerminalReason → Bool
is_escalated escalated_to_human = true
is_escalated _ = false

-- `SELF_HALTED` of harness.py
abbrev pub is_self_halted : TerminalReason → Bool
is_self_halted attempt_cap_reached = false
is_self_halted mandate_violation_blocked = false
is_self_halted recovery_window_closed = false
is_self_halted _ = true

pub record PolicyMetrics (Real : Type 0) : Type 0 where
  pub name : Text
  pub description : Text
  pub n : ℕ
  pub recovered_count : ℕ
  pub recovery_rate : Real
  pub recovery_rate_ci : Interval Real
  pub gross_recovered_paise : ℕ
  pub cost_paise : ℕ
  pub net_paise : ℤ
  pub net_recovered_ci_paise : Interval Real
  pub recoverable_money_paise : ℕ
  pub money_capture_rate : Real
  pub charge_attempts : ℕ
  pub contact_actions : ℕ
  pub attempts_per_recovery : Real
  pub median_hours_to_recovery : Option Real
  pub p90_hours_to_recovery : Option Real
  pub hard_decline_retries : ℕ
  pub hard_decline_retry_rate : Real
  pub wasted_cost_paise : ℕ
  pub mandate_violations : ℕ
  pub escalations : ℕ
  pub gated_paise : ℕ
  pub self_halt_rate : Real
  pub confusion : Confusion
  pub by_class : Dict (ℕ × ℕ)
  pub by_terminal : Dict ℕ

-- The keys of two items in their order: `sorted(d.items())` with distinct keys.
abbrev pub leb_key : {V : Type 0} → Text × V → Text × V → Bool
leb_key a b = leb_text a.0 b.0

-- sum(values[o.subscription_id] for o in outcomes if p o)
unfoldable pub sum_values :
    {Real : Type 0} → Dict ℕ → (RecordOutcome Real → Bool) → List (RecordOutcome Real) → Option ℕ
sum_values values p [] = some 0
sum_values values p (o ∷ os) =
    let rest = sum_values values p os in
    if p o
    then elim (lookup o.subscription_id values) [
      | none ↦ none
      | some v ↦ elim rest [ none ↦ none | some total ↦ some (v + total) ]
    ]
    else rest

-- The loops over `by_class` and `by_terminal`.
unfoldable pub count_class : {Real : Type 0} → Dict (ℕ × ℕ) → RecordOutcome Real → Dict (ℕ × ℕ)
count_class by_class o =
    let key = name o.true_class in
    let (got, total) = or_default (lookup key by_class) (0, 0) in
    insert key (got + (if o.is_recovered then 1 else 0), total + 1) by_class

unfoldable pub count_terminal : {Real : Type 0} → Dict ℕ → RecordOutcome Real → Dict ℕ
unfolding terminal_value
count_terminal by_terminal o =
    let key = terminal_value o.terminal_reason in
    insert key (or_default (lookup key by_terminal) 0 + 1) by_terminal

abbrev pub confusion_of : {Real : Type 0} → List (RecordOutcome Real) → Confusion
confusion_of os = record {
  tp = count (λ o. o.predicted_recoverable && o.true_recoverable) os;
  fp = count (λ o. o.predicted_recoverable && not o.true_recoverable) os;
  tn = count (λ o. not o.predicted_recoverable && not o.true_recoverable) os;
  fn = count (λ o. not o.predicted_recoverable && o.true_recoverable) os;
}

-- The hours of the recovered rows that have them.
abbrev pub hours_of : {Real : Type 0} → List (RecordOutcome Real) → List Real
hours_of [] = []
hours_of (o ∷ os) =
    let rest = hours_of os in
    if o.is_recovered then elim o.hours_to_resolution [ none ↦ rest | some h ↦ h ∷ rest ] else rest

module _ (R : Reals) where
  open R use {Real, lit, mul, div, of_nat, leb}

  module _ (randrange : ℕ → ℕ → ℕ) where
    -- `_bootstrap` for its two statistics
    unfoldable pub bootstrap_rate : List (RecordOutcome Real) → Interval Real
    unfolding interval_of
    bootstrap_rate [] = record { low = lit 0 1; high = lit 0 1 }
    bootstrap_rate (o ∷ os) =
        interval_of R randrange (λ mean. mean)
          (map (λ o. if o.is_recovered then lit 1000 1 else lit 0 1) (o ∷ os))

    unfoldable pub bootstrap_net : List (RecordOutcome Real) → Interval Real
    unfolding interval_of
    bootstrap_net [] = record { low = lit 0 1; high = lit 0 1 }
    bootstrap_net (o ∷ os) =
        interval_of R randrange (λ mean. mul mean (of_nat (length (o ∷ os))))
          (map (λ o. of_int R (net_recovered_paise o)) (o ∷ os))

    -- The returned metrics, with the two sums of values.
    unfoldable pub metrics_of : Text → Text → List (RecordOutcome Real) → ℕ → ℕ → PolicyMetrics Real
    metrics_of title description os recoverable gated =
        let gross = sum (map (λ o. o.amount_recovered_paise) os) in
        let cost = sum (map (λ o. o.cost_paise) os) in
        let charges = sum (map (λ o. o.charge_attempts) os) in
        let contacts = sum (map (λ o. o.contact_actions) os) in
        let wasted_retries = sum (map (λ o. o.hard_decline_retries) os) in
        let recovered_count = count (λ o. o.is_recovered) os in
        let times = sort leb (hours_of os) in
        record {
          name = title;
          description = description;
          n = length os;
          recovered_count = recovered_count;
          recovery_rate = pct R (of_nat recovered_count) (of_nat (length os));
          recovery_rate_ci = bootstrap_rate os;
          gross_recovered_paise = gross;
          cost_paise = cost;
          net_paise = sub_ℕ gross cost;
          net_recovered_ci_paise = bootstrap_net os;
          recoverable_money_paise = recoverable;
          money_capture_rate = pct R (of_nat gross) (of_nat recoverable);
          charge_attempts = charges;
          contact_actions = contacts;
          attempts_per_recovery =
              if recovered_count == 0
              then lit 0 1
              else div (of_nat (charges + contacts)) (of_nat recovered_count);
          median_hours_to_recovery = median R times;
          p90_hours_to_recovery = p90 R times;
          hard_decline_retries = wasted_retries;
          hard_decline_retry_rate = pct R (of_nat wasted_retries) (of_nat (max 1 charges));
          wasted_cost_paise = sum (map (λ o. o.cost_paise) (keep (λ o. not o.true_recoverable) os));
          mandate_violations = sum (map (λ o. o.mandate_violations) os);
          escalations = count (λ o. is_escalated o.terminal_reason) os;
          gated_paise = gated;
          self_halt_rate =
              pct R (of_nat (count (λ o. is_self_halted o.terminal_reason) os))
                (of_nat (length os));
          confusion = confusion_of os;
          by_class = sort leb_key (foldl count_class [] os);
          by_terminal = sort leb_key (foldl count_terminal [] os);
        }

    unfoldable pub compute :
        Text → Text → List (RecordOutcome Real) → Dict ℕ → Option (PolicyMetrics Real)
    compute title description os values = elim (sum_values values (λ o. o.true_recoverable) os) [
      | none ↦ none
      | some recoverable ↦ elim (sum_values values (λ o. is_escalated o.terminal_reason) os) [
        | none ↦ none
        | some gated ↦ some (metrics_of title description os recoverable gated)
      ]
    ]
