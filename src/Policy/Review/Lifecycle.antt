-- ===== src/Policy/Review/Lifecycle.antt =====
-- The life of a review item: it waits, is resolved once, and then never changes; and the money
-- that waits is the money of the items that wait.
use reclaim_os.Prelude.{
  ℕ, ◌+◌, Text, ◌≡◌, refl, ◌∙◌, ap, Bool, true, false, none, some, arith, List, [], ◌∷◌,
  if◌then◌else◌, text_eq, text_eq_iff, Option-cases, Bool-cases, inl, inr, All,
}
use reclaim_os.Prelude.Dict.{lookup, insert, lookup-insert}
use reclaim_os.Domain.Models.{ActionType}
use reclaim_os.Policy.Review.{
  ReviewStatus, approved, rejected, ReviewItem, is_pending, is_pending_status, ReviewQueue, submit,
  Resolution, resolved, unknown_item, already_resolved, resolve, approve, reject, gated_paise,
}

-- A call on the queue, with the id or the clock that it is given.
pub data ReviewCall : Type 0 where
  submits : Text → Text → ActionType → ℕ → Text → Text → ℕ → ReviewCall
  approves : Text → Text → ℕ → ReviewCall
  rejects : Text → Text → ℕ → ReviewCall

unfoldable pub call : ReviewCall → ReviewQueue → ReviewQueue
call (submits id sub a n reason rule at) q = (submit id sub a n reason rule at q).1
call (approves id by now) q = (approve id by now q).1
call (rejects id by now) q = (reject id by now q).1

unfoldable pub run_calls : List ReviewCall → ReviewQueue → ReviewQueue
unfolding call
run_calls [] q = q
run_calls (c ∷ cs) q = run_calls cs (call c q)

-- `uuid4` does not give this id again.
abbrev pub is_new : Text → ReviewCall → Bool
is_new k (submits id _ _ _ _ _ _) = if text_eq id k then false else true
is_new k (approves _ _ _) = true
is_new k (rejects _ _ _) = true

-- What `_resolve` makes of an item.
abbrev close : ReviewStatus → Text → ℕ → ReviewItem → ReviewItem
close s by now i = record i { status = s; resolved_at = some now; resolved_by = some by }

resolve_kept :
    (k j : Text) (s : ReviewStatus) (by : Text) (now : ℕ) (q : ReviewQueue) (i : ReviewItem)
    → lookup k q ≡ some i
    → is_pending i ≡ false
    → lookup k (resolve j s by now q).1 ≡ some i
unfolding resolve
resolve_kept k j s by now q i e p = elim (Option-cases (lookup j q)) [
  | inl absent ↦ ground (arith, absent)
  | inr (x, found) ↦ ground (arith, text_eq_iff j k, lookup-insert j k (close s by now x) q)
]

call_kept :
    (k : Text) (c : ReviewCall) (q : ReviewQueue) (i : ReviewItem)
    → is_new k c ≡ true
    → lookup k q ≡ some i
    → is_pending i ≡ false
    → lookup k (call c q) ≡ some i
unfolding call submit approve reject
call_kept k (submits id sub a n reason rule at) q i new e p = lookup-insert id k _ q ∙ ground arith
call_kept k (approves id by now) q i new e p = resolve_kept k id approved by now q i e p
call_kept k (rejects id by now) q i new e p = resolve_kept k id rejected by now q i e p

-- An item that was approved or rejected stays as it is, with its status, its time and its
-- reviewer, after any sequence of submissions under other ids, approvals and rejections.
pub resolution_kept :
    (k : Text) (cs : List ReviewCall) (q : ReviewQueue) (i : ReviewItem)
    → All (λ c. is_new k c ≡ true) cs
    → lookup k q ≡ some i
    → is_pending i ≡ false
    → lookup k (run_calls cs q) ≡ some i
unfolding run_calls
resolution_kept k [] q i new e p = e
resolution_kept k (c ∷ cs) q i new e p =
    resolution_kept k cs (call c q) i new.1 (call_kept k c q i new.0 e p) p

-- The paise that an item holds back.
abbrev waiting : ReviewItem → ℕ
waiting i = if is_pending i then i.amount_paise else 0

gated_cons :
    (k : Text) (i : ReviewItem) (q : ReviewQueue)
    → gated_paise ((k, i) ∷ q) ≡ waiting i + gated_paise q
unfolding gated_paise
gated_cons k i q = ground arith

gated-insert_new :
    (k : Text) (i : ReviewItem) (q : ReviewQueue)
    → lookup k q ≡ none
    → gated_paise (insert k i q) ≡ waiting i + gated_paise q
unfolding insert lookup
gated-insert_new k i [] e = gated_cons k i []
gated-insert_new k i ((j, x) ∷ q) e = elim (Bool-cases (text_eq j k)) [
  | inl same ↦ absurd (ground arith)
  | inr other ↦ rw other (
      omega (
        arith,
        gated_cons j x (insert k i q),
        gated_cons j x q,
        gated-insert_new k i q (ground arith),
      ))
]

gated-insert_old :
    (k : Text) (i x : ReviewItem) (q : ReviewQueue)
    → lookup k q ≡ some x
    → gated_paise (insert k i q) + waiting x ≡ waiting i + gated_paise q
unfolding insert lookup
gated-insert_old k i x [] e = absurd (cc)
gated-insert_old k i x ((j, y) ∷ q) e = elim (Bool-cases (text_eq j k)) [
  | inl same ↦
      let here : y ≡ x = ground arith in
      rw same (omega (arith, gated_cons j i q, gated_cons j y q, ap waiting here))
  | inr other ↦ rw other (
      omega (
        arith,
        gated_cons j y (insert k i q),
        gated_cons j y q,
        gated-insert_old k i x q (ground arith),
      ))
]

-- The paise that a resolution lets go.
abbrev pub released : Resolution → ℕ
released (resolved i) = i.amount_paise
released unknown_item = 0
released (already_resolved _) = 0

resolve-gated :
    (k : Text) (s : ReviewStatus) (by : Text) (now : ℕ) (q : ReviewQueue)
    → is_pending_status s ≡ false
    → let (x, q') = resolve k s by now q in gated_paise q' + released x ≡ gated_paise q
unfolding resolve
resolve-gated k s by now q closed = elim (Option-cases (lookup k q)) [
  | inl absent ↦ ground (arith, absent)
  | inr (x, found) ↦ ground (arith, gated-insert_old k (close s by now x) x q found)
]

-- The money that waits for review: a submission under an id that is new adds its amount; an
-- approval or a rejection of any id takes off the amount of the item that it resolves, and
-- nothing if it raises.
pub gated_paise-calls :
    (k j sub : Text) (a : ActionType) (n : ℕ) (reason rule by : Text) (now : ℕ) (q : ReviewQueue)
    → lookup k q ≡ none
    → (gated_paise (submit k sub a n reason rule now q).1 ≡ n + gated_paise q)
      × (gated_paise (approve j by now q).1 + released (approve j by now q).0 ≡ gated_paise q)
      × (gated_paise (reject j by now q).1 + released (reject j by now q).0 ≡ gated_paise q)
unfolding submit approve reject
gated_paise-calls k j sub a n reason rule by now q e = (
  gated-insert_new k _ q e,
  resolve-gated j approved by now q refl,
  resolve-gated j rejected by now q refl,
)
