-- ===== src/Policy/Review.antt =====
-- src/reclaimos/policy/hitl.py: the human review queue. The fresh id and the clock are arguments.
pub mod Lifecycle
use reclaim_os.Prelude.{
  ℕ, Text, Bool, true, false, Option, none, some, List, keep, map, sum, if◌then◌else◌,
}
use reclaim_os.Prelude.Dict.{Dict, lookup, insert}
use reclaim_os.Domain.Models.{ActionType}

pub data ReviewStatus : Type 0 where
  pending approved rejected : ReviewStatus

pub record ReviewItem : Type 0 where
  pub review_id : Text
  pub subscription_id : Text
  pub action : ActionType
  pub amount_paise : ℕ
  pub reason : Text
  pub rule_id : Text
  pub created_at : ℕ
  pub status : ReviewStatus
  pub resolved_at : Option ℕ
  pub resolved_by : Option Text

abbrev pub is_pending_status : ReviewStatus → Bool
is_pending_status pending = true
is_pending_status approved = false
is_pending_status rejected = false

-- `ReviewItem.pending`
abbrev pub is_pending : ReviewItem → Bool
is_pending i = is_pending_status i.status

abbrev pub ReviewQueue : Type 0
ReviewQueue = Dict ReviewItem

-- `submit`, with the id that `uuid4` gives.
unfoldable pub submit :
    Text → Text → ActionType → ℕ → Text → Text → ℕ → ReviewQueue → ReviewItem × ReviewQueue
submit review_id subscription_id action amount reason rule_id at q =
    let item : ReviewItem = record {
      review_id = review_id;
      subscription_id = subscription_id;
      action = action;
      amount_paise = amount;
      reason = reason;
      rule_id = rule_id;
      created_at = at;
      status = pending;
      resolved_at = none;
      resolved_by = none;
    } in
    (item, insert review_id item q)

-- How `_resolve` ends: with the new item, a KeyError, or a ValueError.
pub data Resolution : Type 0 where
  resolved : ReviewItem → Resolution
  unknown_item : Resolution
  already_resolved : ReviewStatus → Resolution

unfoldable pub resolve : Text → ReviewStatus → Text → ℕ → ReviewQueue → Resolution × ReviewQueue
resolve review_id status by now q = elim (lookup review_id q) [
  | none ↦ (unknown_item, q)
  | some item ↦
      if is_pending item
      then (
        resolved (record item { status = status; resolved_at = some now; resolved_by = some by }),
        insert review_id
            (record item { status = status; resolved_at = some now; resolved_by = some by }) q,
      )
      else (already_resolved item.status, q)
]

unfoldable pub approve : Text → Text → ℕ → ReviewQueue → Resolution × ReviewQueue
unfolding resolve
approve review_id by now q = resolve review_id approved by now q

unfoldable pub reject : Text → Text → ℕ → ReviewQueue → Resolution × ReviewQueue
unfolding resolve
reject review_id by now q = resolve review_id rejected by now q

unfoldable pub all_items : ReviewQueue → List ReviewItem
all_items q = map (λ e. e.1) q

unfoldable pub pending_items : ReviewQueue → List ReviewItem
unfolding all_items
pending_items q = keep is_pending (all_items q)

unfoldable pub gated_paise : ReviewQueue → ℕ
unfolding pending_items
gated_paise q = sum (map (λ i. i.amount_paise) (pending_items q))
