-- ===== src/Diagnose/Propensity/Bounds.antt =====
-- The score is a number between 0 and 1, whatever the record.
use reclaim_os.Prelude.{ℕ, ◌≡◌, true, subst}
use reclaim_os.Domain.Models.{SubscriptionRecord}
use reclaim_os.Domain.Real.{
  Reals, IsOrdered, max_of, min_of, le-max_of_left, min_of-le_left, le-min_of,
}
use reclaim_os.Diagnose.Classifier.{Classification}
use reclaim_os.Diagnose.Propensity.{score, product_of, base_propensity, factors_of}

-- For floats whose order keeps the laws of IsOrdered: the score of any record, classification
-- and number of attempts lies between 0 and 1.
pub score_bounds :
    (R : Reals) (o : IsOrdered R) (r : SubscriptionRecord) (c : Classification R.Real)
    (attempts_made : ℕ)
    → let p = score R r c attempts_made in
      (R.leb (R.lit 0 0) p.score ≡ true) × (R.leb p.score (R.lit 1 0) ≡ true)
unfolding score
score_bounds R o r c attempts_made =
    let zero_ = R.lit 0 0 in
    let one_ = R.lit 1 0 in
    let value = product_of R (base_propensity R c.decline_class) (factors_of R r c attempts_made) in
    let raised = max_of R zero_ value in
    (
      subst (λ z. R.leb z (R.round4 (min_of R one_ raised)) ≡ true) o.round4_zero
          (o.round4_mono zero_ (min_of R one_ raised)
            (le-min_of R o zero_ one_ raised o.zero-le-one (le-max_of_left R o zero_ value))),
      subst (λ z. R.leb (R.round4 (min_of R one_ raised)) z ≡ true) o.round4_one
          (o.round4_mono (min_of R one_ raised) one_ (min_of-le_left R o one_ raised)),
    )
