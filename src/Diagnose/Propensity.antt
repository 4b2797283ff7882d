-- ===== src/Diagnose/Propensity.antt =====
-- src/reclaimos/diagnose/propensity.py: the rule table and `score`.
pub mod Bounds
use reclaim_os.Prelude.{
  ℕ, Text, codes, ◌++◌, Bool, true, false, not, ◌&&◌, List, [], ◌∷◌, foldl, map, lower, ltb, min,
  is_empty, if◌then◌else◌,
}
use reclaim_os.Prelude.Decimal.{decimal}
use reclaim_os.Domain.Declines.{
  DeclineClass, is_hard, name, soft_insufficient_funds, soft_issuer_technical, soft_limit_exceeded,
  hard_risk_flagged, hard_do_not_honor, hard_mandate_revoked, hard_not_permitted,
  expiry_card_expired, expiry_mandate_expired, unknown,
}
use reclaim_os.Domain.Models.{SubscriptionRecord, Method, upi_autopay, card, emandate, method_value}
use reclaim_os.Domain.Real.{Reals, max_of, min_of, ltb as lt_real}
use reclaim_os.Diagnose.Classifier.{Classification}

pub record Factor (Real : Type 0) : Type 0 where
  pub factor_name : Text
  pub multiplier : Real
  pub why : Text

pub record Propensity (Real : Type 0) : Type 0 where
  pub score : Real
  pub base : Real
  pub rule_id : Text
  pub factors : List (Factor Real)

-- " × ".join(steps)
unfoldable pub join_times : List Text → Text
join_times [] = []
join_times (s ∷ []) = s
join_times (s ∷ (t ∷ rest)) = s ++ (codes " × " ++ join_times (t ∷ rest))

module _ (R : Reals) where
  open R use {Real, lit, mul, add, sub, div, pow, of_nat, leb, round4, fixed}

  unfoldable pub base_propensity : DeclineClass → Real
  base_propensity soft_insufficient_funds = lit 60 2
  base_propensity soft_issuer_technical = lit 70 2
  base_propensity soft_limit_exceeded = lit 50 2
  base_propensity hard_do_not_honor = lit 5 2
  base_propensity hard_risk_flagged = lit 2 2
  base_propensity hard_mandate_revoked = lit 1 2
  base_propensity hard_not_permitted = lit 2 2
  base_propensity expiry_card_expired = lit 35 2
  base_propensity expiry_mandate_expired = lit 25 2
  base_propensity unknown = lit 30 2

  unfoldable pub method_factor : Method → Real
  method_factor upi_autopay = lit 95 2
  method_factor card = lit 100 2
  method_factor emandate = lit 92 2

  -- `if …: factors.append(Factor(…))`
  abbrev pub when : Bool → Factor Real → List (Factor Real)
  when test f = if test then f ∷ [] else []

  abbrev factor : Text → Real → Text → Factor Real
  factor n m w = record { factor_name = n; multiplier = m; why = w }

  -- The multipliers in the order in which `score` appends them.
  unfoldable pub factors_of : SubscriptionRecord → Classification Real → ℕ → List (Factor Real)
  unfolding method_factor
  factors_of r c attempts_made =
      when (ltb 0 attempts_made) (
        factor (codes "attempt_decay") (round4 (pow (lit 65 2) attempts_made))
          (decimal attempts_made ++ codes " attempt(s) already spent on this failure"))
      ++ (when (c.hard_possible && not (is_hard c.decline_class)) (
            factor (codes "ambiguity") (lit 70 2) (
              codes
                "the gateway tuple is also emitted by a hard decline; treating it cautiously because we cannot rule that out"))
          ++ (when (lt_real R c.confidence (lit 60 2)) (
                factor (codes "low_confidence") (lit 85 2)
                  (codes "classifier confidence " ++ (fixed 2 c.confidence ++ codes " is low")))
              ++ (when (ltb r.mandate.expiry r.charge_at) (
                    factor (codes "expired_mandate") (lit 15 2)
                      (codes "consent lapsed before the charge; no retry is permitted"))
                  ++ (factor (codes "method") (method_factor r.method) (
                        method_value r.method
                        ++ codes " recovers slightly differently to other rails")
                      ∷ (factor (codes "tenure")
                            (round4 (
                              add (lit 90 2) (
                                mul (lit 20 2)
                                  (div (of_nat (min r.customer_tenure_months 24)) (of_nat 24)))))
                            (decimal r.customer_tenure_months ++ codes " month(s) of tenure")
                          ∷ when (ltb 0 r.prior_failure_count) (
                              factor (codes "prior_failures")
                                (round4 (
                                  max_of R (lit 75 2)
                                    (sub (lit 1 0) (mul (lit 5 2) (of_nat r.prior_failure_count)))))
                                (decimal r.prior_failure_count
                                  ++ codes " prior failed charge(s)")))))))

  unfoldable pub product_of : Real → List (Factor Real) → Real
  product_of = foldl (λ value f. mul value f.multiplier)

  unfoldable pub score : SubscriptionRecord → Classification Real → ℕ → Propensity Real
  unfolding base_propensity factors_of product_of
  score r c attempts_made =
      let base = base_propensity c.decline_class in
      let factors = factors_of r c attempts_made in
      record {
        score = round4 (min_of R (lit 1 0) (max_of R (lit 0 0) (product_of base factors)));
        base = base;
        rule_id = codes "propensity." ++ lower (name c.decline_class);
        factors = factors;
      }

  -- `Propensity.recoverable`
  unfoldable pub recoverable : Propensity Real → Bool
  recoverable p = leb (lit 15 2) p.score

  -- `Propensity.explain`
  unfoldable pub explain : Propensity Real → Text
  unfolding join_times
  explain p =
      let steps =
        join_times (map (λ f. f.factor_name ++ (codes " " ++ fixed 2 f.multiplier)) p.factors) in
      if is_empty steps
      then fixed 2 p.base
      else fixed 2 p.base ++ (codes " × " ++ (steps ++ (codes " = " ++ fixed 3 p.score)))
