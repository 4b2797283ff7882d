-- ===== src/Tests/Review.antt =====
-- A queue with an item that was approved and one that waits.
use reclaim_os.Prelude.{codes, ◌≡◌, refl, some, none, List, [], ◌∷◌, text_eq}
use reclaim_os.Prelude.Dict.{lookup}
use reclaim_os.Domain.Models.{retry_charge}
use reclaim_os.Policy.Review.{ReviewItem, ReviewQueue, pending, approved}
use reclaim_os.Policy.Review.Lifecycle.{
  ReviewCall, submits, approves, rejects, run_calls, resolution_kept,
}

abbrev waiting : ReviewItem
waiting = record {
  review_id = codes "b";
  subscription_id = codes "sub_2";
  action = retry_charge;
  amount_paise = 700000;
  reason = codes "large";
  rule_id = codes "agent.gate.amount_threshold";
  created_at = 5;
  status = pending;
  resolved_at = none;
  resolved_by = none;
}

abbrev closed : ReviewItem
closed = record waiting {
  review_id = codes "a";
  status = approved;
  resolved_at = some 6;
  resolved_by = some (codes "operator");
}

abbrev queue : ReviewQueue
queue = (codes "a", closed) ∷ ((codes "b", waiting) ∷ [])

abbrev calls : List ReviewCall
calls =
    rejects (codes "a") (codes "x") 7
    ∷ (submits (codes "c") (codes "sub_3") retry_charge 800000 [] [] 8
        ∷ (approves (codes "b") (codes "y") 9 ∷ []))

resolution_kept_example : lookup (codes "a") (run_calls calls queue) ≡ some closed
resolution_kept_example =
    resolution_kept (codes "a") calls queue closed (unfold text_eq in (refl, (refl, (refl, tt))))
      (unfold lookup text_eq in refl) refl
