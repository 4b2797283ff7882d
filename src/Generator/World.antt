-- ===== src/Generator/World.antt =====
-- src/reclaimos/generator/outcome_model.py: the probability surface and `resolve`. The sampling of
-- the sealed truth is in Population, the ceiling in Oracle.
pub mod Draws
use reclaim_os.Prelude.{ℕ, ◌+◌, List, Option, none, some, get_clamped, min, if◌then◌else◌, not}
use reclaim_os.Domain.Declines.{
  DeclineClass, same_class, soft_insufficient_funds, soft_issuer_technical, soft_limit_exceeded,
  hard_risk_flagged, hard_do_not_honor, hard_mandate_revoked, hard_not_permitted,
  expiry_card_expired, expiry_mandate_expired, unknown,
}
use reclaim_os.Domain.Models.{
  SubscriptionRecord, Method, upi_autopay, card, emandate, same_method, ActionType, retry_charge,
  send_payment_link, request_card_update, escalate_human, stop, AttemptResult,
}
use reclaim_os.Domain.Real.{Reals, max_of, min_of, ltb as lt_real}

abbrev pub max_slots : ℕ
max_slots = 8

-- `WorldRecord` without its id.
pub record WorldRecord (Real : Type 0) : Type 0 where
  pub true_class : DeclineClass
  pub funds_return_hours : Real
  pub outage_end_hours : Real
  pub base_intent : Real
  pub draws : List Real

module _ (R : Reals) where
  open R use {Real, lit, add, sub, mul, div, pow, of_nat, leb, hours}

  abbrev pub recovery_window_hours : Real
  recovery_window_hours = lit 7200 1

  unfoldable pub retry_base : DeclineClass → Real
  retry_base soft_insufficient_funds = lit 55 2
  retry_base soft_issuer_technical = lit 72 2
  retry_base soft_limit_exceeded = lit 45 2
  retry_base hard_do_not_honor = lit 4 2
  retry_base hard_risk_flagged = lit 1 2
  retry_base hard_mandate_revoked = lit 0 2
  retry_base hard_not_permitted = lit 0 2
  retry_base expiry_card_expired = lit 2 2
  retry_base expiry_mandate_expired = lit 0 2
  retry_base unknown = lit 35 2

  unfoldable pub link_receptivity : DeclineClass → Real
  link_receptivity soft_insufficient_funds = lit 50 2
  link_receptivity soft_issuer_technical = lit 60 2
  link_receptivity soft_limit_exceeded = lit 70 2
  link_receptivity hard_do_not_honor = lit 85 2
  link_receptivity hard_risk_flagged = lit 75 2
  link_receptivity hard_mandate_revoked = lit 25 2
  link_receptivity hard_not_permitted = lit 80 2
  link_receptivity expiry_card_expired = lit 90 2
  link_receptivity expiry_mandate_expired = lit 85 2
  link_receptivity unknown = lit 70 2

  -- `CARD_UPDATE_FIT.get(cls, CARD_UPDATE_FIT_DEFAULT)`
  unfoldable pub card_update_fit : DeclineClass → Real
  card_update_fit expiry_card_expired = lit 95 2
  card_update_fit hard_risk_flagged = lit 60 2
  card_update_fit hard_do_not_honor = lit 35 2
  card_update_fit _ = lit 8 2

  unfoldable pub method_multiplier : Method → Real
  method_multiplier upi_autopay = lit 95 2
  method_multiplier card = lit 100 2
  method_multiplier emandate = lit 90 2

  -- `_timing_multiplier`
  unfoldable pub timing_multiplier : Real → Real
  timing_multiplier t_hours =
      if lt_real R t_hours (lit 60 1)
      then lit 45 2
      else if lt_real R t_hours (lit 240 1)
      then lit 85 2
      else if leb t_hours (lit 1200 1)
      then lit 100 2
      else if leb t_hours (lit 3360 1)
      then lit 88 2
      else lit 72 2

  -- `_customer_multiplier`
  unfoldable pub customer_multiplier : SubscriptionRecord → Real
  customer_multiplier r =
      let tenure_frac = div (of_nat (min r.customer_tenure_months 24)) (lit 240 1) in
      let tenure = add (lit 88 2) (mul (lit 24 2) tenure_frac) in
      let history =
        max_of R (lit 70 2) (sub (lit 10 1) (mul (lit 6 2) (of_nat r.prior_failure_count))) in
      mul tenure history

  -- min(MAX_PROBABILITY, max(0.0, p))
  unfoldable pub clamp : Real → Real
  clamp p = min_of R (lit 97 2) (max_of R (lit 0 1) p)

  -- What the true class does to the probability of a retry.
  unfoldable pub class_timing : WorldRecord Real → Real → Real → Real
  class_timing truth t_hours p =
      if same_class truth.true_class soft_insufficient_funds
      then mul p (if leb truth.funds_return_hours t_hours then lit 150 2 else lit 55 2)
      else if same_class truth.true_class soft_issuer_technical
      then mul p (if lt_real R t_hours truth.outage_end_hours then lit 15 2 else lit 120 2)
      else p

  unfoldable pub success_probability :
      SubscriptionRecord → WorldRecord Real → ActionType → Real → ℕ → ℕ → Real
  success_probability r truth retry_charge t_hours charges contacts =
      let p =
        mul
          (mul
            (mul (mul (retry_base truth.true_class) (timing_multiplier t_hours))
              (pow (lit 62 2) charges))
            (method_multiplier r.method))
          (customer_multiplier r) in
      clamp (class_timing truth t_hours p)
  success_probability r truth send_payment_link t_hours charges contacts =
      let p =
        mul
          (mul (mul truth.base_intent (link_receptivity truth.true_class))
            (pow (lit 70 2) contacts))
          (customer_multiplier r) in
      clamp (if lt_real R (lit 3360 1) t_hours then mul p (lit 80 2) else p)
  success_probability r truth request_card_update t_hours charges contacts =
      let p =
        mul
          (mul (mul truth.base_intent (card_update_fit truth.true_class)) (pow (lit 70 2) contacts))
          (customer_multiplier r) in
      if not (same_method r.method card) then lit 0 1 else clamp p
  success_probability r truth escalate_human t_hours charges contacts = lit 0 1
  success_probability r truth stop t_hours charges contacts = lit 0 1

  -- `resolve`; none is the IndexError of a record without draws.
  unfoldable pub resolve :
      SubscriptionRecord
      → WorldRecord Real
      → ActionType
      → Real
      → ℕ
      → ℕ
      → ℕ
      → Option (AttemptResult Real)
  resolve r truth action t_hours slot charges contacts =
      let p = success_probability r truth action t_hours charges contacts in
      elim (get_clamped truth.draws slot) [
        | none ↦ none
        | some draw ↦
            let hit = lt_real R draw p in
            some (record {
              succeeded = hit;
              amount_paise = if hit then r.plan_amount_paise else 0;
              occurred_at = r.charge_at + hours t_hours;
              probability = p;
              draw = draw;
            })
      ]
