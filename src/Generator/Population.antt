-- ===== src/Generator/Population.antt =====
-- src/reclaimos/generator/generate.py and outcome_model.py (`draw_world_record`): the synthetic
-- subscriptions, their sealed truths and the split. Dates are microseconds from an origin, with the
-- calendar as a parameter.
pub mod Consistent
pub mod Split
use reclaim_os.Prelude.{
  ℕ, zero, suc, ◌+◌, ◌-◌, ◌*◌, ◌/◌, ◌%◌, Text, codes, Bool, true, false, not, none, some, List, [],
  ◌∷◌, ◌++◌, length, get_or, min, max, take, drop, if◌then◌else◌, ◌==◌,
}
use reclaim_os.Prelude.Dict.{Dict, insert}
use reclaim_os.Prelude.Sorting.{sort, leb_text}
use reclaim_os.Domain.Declines.{
  DeclineClass, DeclineCode, codes_for, same_class, soft_insufficient_funds, soft_issuer_technical,
  expiry_mandate_expired,
}
use reclaim_os.Domain.Models.{Method, Mandate, SubscriptionRecord, PaymentAttempt, retry_charge}
use reclaim_os.Domain.Real.{Reals, max_of, min_of}
use reclaim_os.Generator.World.{WorldRecord, max_slots}
use reclaim_os.Generator.Profiles.{
  Random, randint, sample_method, sample_decline_class, sample_plan_amount_paise,
  sample_tenure_months, sample_billing_cycle_day, razorpay_style_id,
}
use reclaim_os.Policy.Config.{Calendar, hours_until_month_turn}

abbrev pub minute_us : ℕ
minute_us = 60000000

abbrev pub hour_us : ℕ
hour_us = 3600000000

abbrev pub day_us : ℕ
day_us = 86400000000

module _ (R : Reals) (cal : Calendar R.Real) (g : Random R.Real) where
  open R use {Real, lit, add, sub, mul, div, of_nat}

  -- datetime(year, month, day, hour, minute, tzinfo=IST)
  abbrev pub datetime : ℕ → ℕ → ℕ → ℕ → ℕ → ℕ
  datetime year month day hour minute =
      cal.first_of year month + (day - 1) * day_us + hour * hour_us + minute * minute_us

  unfoldable pub sample_charge_at : ℕ → g.State → ℕ × g.State
  sample_charge_at billing_cycle_day s =
      let (month_offset, s1) = g.randrange 2 s in
      let month = 6 + month_offset in
      let year = 2026 + (month - 1) / 12 in
      let (i, s2) =
        g.choices (lit 30 2 ∷ (lit 22 2 ∷ (lit 16 2 ∷ (lit 12 2 ∷ (lit 10 2 ∷ (lit 10 2 ∷ []))))))
          s1 in
      let hour = get_or (2 ∷ (3 ∷ (4 ∷ (9 ∷ (13 ∷ (18 ∷ [])))))) i 2 in
      let (minute, s3) = g.randrange 60 s2 in
      (datetime year ((month - 1) % 12 + 1) billing_cycle_day hour minute, s3)

  unfoldable pub sample_mandate : ℕ → Method → ℕ → DeclineClass → g.State → Mandate × g.State
  sample_mandate plan_amount_paise method charge_at true_class s =
      let (i, s1) = g.choices (lit 25 2 ∷ (lit 55 2 ∷ (lit 20 2 ∷ []))) s in
      let multiple = get_or (1 ∷ (2 ∷ (3 ∷ []))) i 1 in
      let expired = same_class true_class expiry_mandate_expired in
      let (days, s2) = if expired then randint R g 1 30 s1 else randint R g 120 900 s1 in
      (
        record {
          max_amount_paise = plan_amount_paise * multiple;
          expiry = if expired then charge_at - days * day_us else charge_at + days * day_us;
          allowed_method = method;
          reason_code = codes "subscription_recovery";
        },
        s2,
      )

  -- The first of the following month at 11:00, which lies after `at`.
  unfoldable pub hours_to_next_salary_credit : ℕ → Real
  hours_to_next_salary_credit at =
      let payday =
        if cal.month at == 12
        then datetime (cal.year at + 1) 1 1 11 0
        else datetime (cal.year at) (cal.month at + 1) 1 11 0 in
      div (cal.total_seconds (payday - at)) (lit 36000 1)

  unfoldable pub random_draws : ℕ → g.State → List Real × g.State
  random_draws zero s = ([], s)
  random_draws (suc k) s =
      let (x, s1) = g.random s in let (rest, s2) = random_draws k s1 in (x ∷ rest, s2)

  -- `funds_return` of `draw_world_record`
  unfoldable pub draw_funds_return : DeclineClass → ℕ → g.State → Real × g.State
  unfolding hours_to_next_salary_credit
  draw_funds_return true_class charge_at s =
      let (wait, s1) = g.expovariate (div (lit 10 1) (lit 660 1)) s in
      let (noise, s2) = g.uniform (sub (lit 0 1) (lit 60 1)) (lit 180 1) s1 in
      let ordinary = add (lit 60 1) wait in
      let payday = add (hours_to_next_salary_credit charge_at) noise in
      if same_class true_class soft_insufficient_funds
      then (max_of R (lit 20 1) (min_of R ordinary payday), s2)
      else (lit 0 1, s)

  unfoldable pub draw_outage_end : DeclineClass → g.State → Real × g.State
  draw_outage_end true_class s =
      if same_class true_class soft_issuer_technical
      then g.uniform (lit 15 1) (lit 300 1) s
      else (lit 0 1, s)

  unfoldable pub draw_world_record : DeclineClass → ℕ → ℕ → g.State → WorldRecord Real × g.State
  unfolding draw_funds_return draw_outage_end random_draws
  draw_world_record true_class charge_at tenure_months s =
      let (funds_return, s1) = draw_funds_return true_class charge_at s in
      let (outage_end, s2) = draw_outage_end true_class s1 in
      let tenure_frac = div (of_nat (min tenure_months 24)) (lit 240 1) in
      let (beta, s3) = g.betavariate (lit 22 1) (lit 30 1) s2 in
      let intent = mul beta (add (lit 80 2) (mul (lit 40 2) tenure_frac)) in
      let (draws, s4) = random_draws max_slots s3 in
      (
        record {
          true_class = true_class;
          funds_return_hours = funds_return;
          outage_end_hours = outage_end;
          base_intent = min_of R (lit 10 1) intent;
          draws = draws;
        },
        s4,
      )

  -- The IndexError of an empty tuple of codes, which does not arise.
  abbrev pub no_code : DeclineCode
  no_code = record {
    code = [];
    source = [];
    step = [];
    reason = [];
    description = [];
    true_class = soft_insufficient_funds;
  }

  -- `PaymentAttempt(...)` for a code of the table
  unfoldable pub failed_with : DeclineCode → ℕ → ℕ → PaymentAttempt
  failed_with code charge_at plan_amount = record {
    attempt_no = 1;
    occurred_at = charge_at;
    amount_paise = plan_amount;
    succeeded = false;
    action = retry_charge;
    error_code = some code.code;
    error_source = some code.source;
    error_step = some code.step;
    error_reason = some code.reason;
    error_description = some code.description;
  }

  -- The body of the loop of `generate`: a record, its truth and the state behind them.
  unfoldable pub draw_one : g.State → (SubscriptionRecord × WorldRecord Real) × g.State
  draw_one s =
      let (method, s1) = sample_method R g s in
      let (true_class, s2) = sample_decline_class R g method s1 in
      let (plan_amount, s3) = sample_plan_amount_paise R g s2 in
      let (tenure, s4) = sample_tenure_months R g s3 in
      let (cycle_day, s5) = sample_billing_cycle_day R g s4 in
      let (charge_at, s6) = sample_charge_at cycle_day s5 in
      let (subscription_id, s7) = razorpay_style_id R g (codes "sub_") s6 in
      let candidates = codes_for true_class in
      let (k, s8) = g.randrange (length candidates) s7 in
      let (i, s9) = g.choices (lit 62 2 ∷ (lit 24 2 ∷ (lit 10 2 ∷ (lit 4 2 ∷ [])))) s8 in
      let (customer_id, s10) = razorpay_style_id R g (codes "cust_") s9 in
      let (plan_id, s11) = razorpay_style_id R g (codes "plan_") s10 in
      let (missed, s12) = randint R g 0 2 s11 in
      let (mandate, s13) = sample_mandate plan_amount method charge_at true_class s12 in
      let (truth, s14) = draw_world_record true_class charge_at tenure s13 in
      (
        (
          record {
            subscription_id = subscription_id;
            customer_id = customer_id;
            plan_id = plan_id;
            method = method;
            plan_amount_paise = plan_amount;
            currency = codes "INR";
            billing_cycle_day = cycle_day;
            charge_at = charge_at;
            customer_tenure_months = tenure;
            prior_success_count = max 0 (tenure - missed);
            prior_failure_count = get_or (0 ∷ (1 ∷ (2 ∷ (3 ∷ [])))) i 0;
            mandate = mandate;
            failed_attempt = failed_with (get_or candidates k no_code) charge_at plan_amount;
          },
          truth,
        ),
        s14,
      )

  -- The records in their order, and the world as the dict by their ids.
  unfoldable pub generate_from :
      ℕ → g.State → Dict (WorldRecord Real) → List SubscriptionRecord × Dict (WorldRecord Real)
  generate_from zero s world = ([], world)
  generate_from (suc n) s world =
      let ((r, truth), s') = draw_one s in
      let (rs, world') = generate_from n s' (insert r.subscription_id truth world) in
      (r ∷ rs, world')

  unfoldable pub generate : ℕ → ℕ → List SubscriptionRecord × Dict (WorldRecord Real)
  unfolding generate_from
  generate n seed = generate_from n (g.seeded seed) []

-- `split_records`: train and test. `digest` is the hexadecimal SHA-256, and `n_test_of n` is
-- round(n * test_fraction).
unfoldable pub split_records :
    (Text → Text)
    → (ℕ → ℕ)
    → List SubscriptionRecord
    → List SubscriptionRecord × List SubscriptionRecord
split_records digest n_test_of records =
    let ordered =
      sort (λ a b. leb_text (digest a.subscription_id) (digest b.subscription_id)) records in
    let n_test = n_test_of (length ordered) in (drop n_test ordered, take n_test ordered)
