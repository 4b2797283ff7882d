-- ===== src/Diagnose/Classifier/Verdict.antt =====
-- What `classify` answers: always a candidate, and never less cautious than its candidates.
use reclaim_os.Prelude.{
  Text, ◌≡◌, ◌≢◌, refl, ap, ◌∙◌, Bool, true, false, not, ◌||◌, arith, Option, none, some, List, [],
  ◌∷◌, foldl, any, find, is_empty, Bool-cases, inl, inr,
}
use reclaim_os.Prelude.Dict.{is_some, or_default}
use reclaim_os.Domain.Declines.{
  DeclineClass, DeclineCode, same_class, is_hard, decline_codes, unknown,
}
use reclaim_os.Domain.Models.{PaymentAttempt}
use reclaim_os.Domain.Real.{Reals}
use reclaim_os.Diagnose.Classifier.{
  Key, key_of, Owners, Index, owns, add_owner, add_code, index_of, candidates_for, prefer,
  ambiguity_preference, classify_as, classify, attempt_key, tuple_index, same_key,
}
use reclaim_os.Diagnose.Classifier.Index.{same_class_iff, owns_nothing, index_of-candidates}

abbrev Inhabited : Index → Type 0
Inhabited [] = Unit
Inhabited ((k, o) ∷ rest) = (is_empty o ≡ false) × Inhabited rest

is_empty-add_owner : (c : DeclineClass) (o : Owners) → is_empty (add_owner c o) ≡ false
unfolding add_owner
is_empty-add_owner c [] = ground (arith, owns_nothing c)
is_empty-add_owner c (d ∷ o) = ground arith

add_code-Inhabited : (idx : Index) (c : DeclineCode) → Inhabited idx → Inhabited (add_code idx c)
unfolding add_code
add_code-Inhabited [] c h = (is_empty-add_owner c.true_class [], tt)
add_code-Inhabited ((k, o) ∷ idx) c h =
    ground (arith, is_empty-add_owner c.true_class o, add_code-Inhabited idx c h.1)

foldl-Inhabited :
    (idx : Index) (cs : List DeclineCode) → Inhabited idx → Inhabited (foldl add_code idx cs)
foldl-Inhabited idx [] h = h
foldl-Inhabited idx (c ∷ cs) h = foldl-Inhabited (add_code idx c) cs (add_code-Inhabited idx c h)

candidates_for-ne : (k : Key) (idx : Index) → Inhabited idx → candidates_for k idx ≢ some []
unfolding candidates_for
candidates_for-ne k [] h = λ e. cc
candidates_for-ne k ((j, o) ∷ idx) h = λ e. ground (arith, candidates_for-ne k idx h.1)

find-passes {ℓ} :
    {A : Type ℓ} (p : A → Bool) (xs : List A) (d : A)
    → p d ≡ true
    → p (or_default (find p xs) d) ≡ true
find-passes p [] d h = h
find-passes p (x ∷ xs) d h = elim (Bool-cases (p x)) [
  | inl e ↦ rw e e
  | inr e ↦ rw e (find-passes p xs d h)
]

owns-prefer : (c : DeclineClass) (rest : Owners) → owns (prefer c rest) (c ∷ rest) ≡ true
unfolding prefer
owns-prefer c rest =
    find-passes (λ d. owns d (c ∷ rest)) ambiguity_preference c
      (unfold owns in ground (arith, same_class_iff c c))

module _ (R : Reals) where
  classify_as_verdict :
      (evidence : List (Option Text)) (o : Option Owners)
      → o ≢ some []
      → let c = classify_as R evidence o in
        (owns c.decline_class c.candidates ≡ true)
        × (c.hard_possible ≡ (not (is_some o) || any is_hard c.candidates))
  unfolding classify_as
  classify_as_verdict evidence none h = (unfold owns same_class in refl, refl)
  classify_as_verdict evidence (some []) h = absurd (h refl)
  classify_as_verdict evidence (some (c ∷ [])) h =
      (unfold owns in ground (arith, same_class_iff c c), ground arith)
  classify_as_verdict evidence (some (c ∷ (d ∷ rest))) h = (owns-prefer c (d ∷ rest), refl)

  -- Of every attempt: the class answered is one of the candidates reported, and the attempt is
  -- marked as possibly hard exactly when its error tuple is not in the table or some candidate
  -- is a hard decline.
  pub classify_verdict :
      (a : PaymentAttempt)
      → let c = classify R a in
        (owns c.decline_class c.candidates ≡ true)
        × (c.hard_possible ≡ (
            not (any (λ o. same_key (key_of o) (attempt_key a)) decline_codes)
            || any is_hard c.candidates))
  unfolding classify
  classify_verdict a =
      let k = attempt_key a in
      let ne : candidates_for k tuple_index ≢ some [] =
        unfold index_of in
        candidates_for-ne k (foldl add_code [] decline_codes)
          (foldl-Inhabited [] decline_codes tt) in
      let evidence = a.error_code ∷ a.error_source ∷ a.error_step ∷ a.error_reason ∷ [] in
      let v = classify_as_verdict evidence (candidates_for k tuple_index) ne in
      (
        v.0,
        v.1
            ∙ ap
                (λ b.
                  not b
                  || any is_hard (classify_as R evidence (candidates_for k tuple_index)).candidates)
                ((index_of-candidates decline_codes k unknown).0),
      )
