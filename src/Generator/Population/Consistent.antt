-- ===== src/Generator/Population/Consistent.antt =====
-- Every generated subscription agrees with its sealed truth.
use reclaim_os.Prelude.{
  ℕ, zero, suc, ◌*◌, ◌<◌, ◌≤◌, ◌≡◌, refl, ap, ◌∙◌, inl, inr, arith, Bool, true, not, ◌&&◌, List, [],
  ◌∷◌, length, get_or, keep, any, map, foldl, All, All-imp, Bool-cases,
}
use reclaim_os.Prelude.Int.{pos}
use reclaim_os.Prelude.Dict.{Dict, insert}
use reclaim_os.Domain.Declines.{
  DeclineClass, DeclineCode, decline_codes, codes_for, same_class, expiry_mandate_expired,
  soft_insufficient_funds, name,
}
use reclaim_os.Domain.Models.{
  Method, upi_autopay, card, emandate, same_method, permits, SubscriptionRecord,
}
use reclaim_os.Domain.Real.{Reals}
use reclaim_os.Generator.World.{WorldRecord}
use reclaim_os.Generator.Profiles.{Random, IsRandom}
use reclaim_os.Generator.Population.{
  sample_charge_at, sample_mandate, draw_world_record, no_code, failed_with, draw_one,
  generate_from, generate,
}
use reclaim_os.Diagnose.Classifier.{
  key_of, same_key, attempt_key, candidates_for, index_of, tuple_index,
}
use reclaim_os.Diagnose.Classifier.Index.{has, same_key_iff, index_of-candidates}
use reclaim_os.Policy.Config.{Calendar}

-- An element of a list that an index in range picks.
get_or-All {ℓ κ} :
    {A : Type ℓ} (P : A → Type κ) (xs : List A) (i : ℕ) (d : A)
    → i < length xs
    → All P xs
    → P (get_or xs i d)
get_or-All P [] i d h k = absurd (omega arith)
get_or-All P (x ∷ xs) zero d h k = k.0
get_or-All P (x ∷ xs) (suc i) d h k = get_or-All P xs i d (omega arith) k.1

-- Each kept element is found again by what holds of it.
keep-any :
    {A : Type 0} (p : A → Bool) (q : A → A → Bool)
    → ((x : A) → p x ≡ true → q x x ≡ true)
    → (xs : List A) → All (λ x. any (q x) xs ≡ true) (keep p xs)
keep-any p q h [] = tt
keep-any p q h (x ∷ xs) =
    let rest : All (λ y. any (q y) (x ∷ xs) ≡ true) (keep p xs) =
      All-imp (λ y k. ground (arith, k)) (keep p xs) (keep-any p q h xs) in
    elim (Bool-cases (p x)) [
      | inl e ↦ let found : any (q x) (x ∷ xs) ≡ true = ground (arith, h x e) in rw e (found, rest)
      | inr e ↦ rw e rest
    ]

-- A row of a class in any table is found among the candidates of its tuple.
row_found :
    (cs : List DeclineCode) (c : DeclineClass)
    → All
        (λ o. has c (candidates_for (key_of o) (index_of cs)) ≡ true)
        (keep (λ o. same_class o.true_class c) cs)
row_found cs c =
    All-imp (λ o k. (index_of-candidates cs (key_of o) c).1 ∙ k)
      (keep (λ o. same_class o.true_class c) cs)
      (keep-any (λ o. same_class o.true_class c)
        (λ o x. same_key (key_of x) (key_of o) && same_class x.true_class c)
        (λ o e. ground (arith, e, same_key_iff (key_of o) (key_of o))) cs)

codes_for-found :
    (c : DeclineClass)
    → All (λ o. has c (candidates_for (key_of o) tuple_index) ≡ true) (codes_for c)
unfolding codes_for
codes_for-found c = row_found decline_codes c

codes_for-some : (c : DeclineClass) → 0 < length (codes_for c)
unfolding codes_for same_class name
codes_for-some soft_insufficient_funds = omega arith
codes_for-some _ = omega arith

same_method_refl : (m : Method) → same_method m m ≡ true
unfolding same_method
same_method_refl upi_autopay = refl
same_method_refl card = refl
same_method_refl emandate = refl

multiple-covers : (plan i : ℕ) → plan ≤ plan * get_or (1 ∷ (2 ∷ (3 ∷ []))) i 1
multiple-covers plan zero = omega arith
multiple-covers plan (suc zero) = omega arith
multiple-covers plan (suc (suc zero)) = omega arith
multiple-covers plan (suc (suc (suc i))) = omega arith

hour-positive : (i : ℕ) → 2 ≤ get_or (2 ∷ (3 ∷ (4 ∷ (9 ∷ (13 ∷ (18 ∷ [])))))) i 2
hour-positive zero = omega arith
hour-positive (suc zero) = omega arith
hour-positive (suc (suc zero)) = omega arith
hour-positive (suc (suc (suc zero))) = omega arith
hour-positive (suc (suc (suc (suc zero)))) = omega arith
hour-positive (suc (suc (suc (suc (suc zero))))) = omega arith
hour-positive (suc (suc (suc (suc (suc (suc i)))))) = omega arith

-- What `generate` returns for a list of drawn pairs.
abbrev pub returned :
    {Real : Type 0}
    → List (SubscriptionRecord × WorldRecord Real)
    → Dict (WorldRecord Real)
    → List SubscriptionRecord × Dict (WorldRecord Real)
returned pairs world =
    (map (λ d. d.0) pairs, foldl (λ w d. insert d.0.subscription_id d.1 w) world pairs)

module _ (R : Reals) (cal : Calendar R.Real) (g : Random R.Real) where
  charge_at-positive : (day : ℕ) (s : g.State) → 0 < (sample_charge_at R cal g day s).0
  unfolding sample_charge_at
  charge_at-positive day s =
      let i =
        (g.choices
          (R.lit 30 2
            ∷ (R.lit 22 2 ∷ (R.lit 16 2 ∷ (R.lit 12 2 ∷ (R.lit 10 2 ∷ (R.lit 10 2 ∷ []))))))
          (g.randrange 2 s).1).0 in
      omega (arith, hour-positive i)

  sample_mandate-permits :
      (plan : ℕ) (method : Method) (charge_at : ℕ) (c : DeclineClass) (s : g.State)
      → 0 < charge_at
      → permits (sample_mandate R cal g plan method charge_at c s).0 (pos plan) method charge_at
        ≡ not (same_class c expiry_mandate_expired)
  unfolding sample_mandate permits
  sample_mandate-permits plan method charge_at c s h =
      let (i, s1) = g.choices (R.lit 25 2 ∷ (R.lit 55 2 ∷ (R.lit 20 2 ∷ []))) s in
      let covers = multiple-covers plan i in
      let same = same_method_refl method in
      elim (Bool-cases (same_class c expiry_mandate_expired)) [
        | inl e ↦ rw e (rw same (ground (arith, covers)))
        | inr e ↦ rw e (rw same (ground (arith, covers)))
      ]

  -- A drawn record agrees with its truth.
  pub record IsConsistent (drawn : SubscriptionRecord × WorldRecord R.Real) : Type 0 where
    pub envelope :
        permits drawn.0.mandate (pos drawn.0.plan_amount_paise) drawn.0.method drawn.0.charge_at
        ≡ not (same_class drawn.1.true_class expiry_mandate_expired)
    pub candidate :
        has drawn.1.true_class (candidates_for (attempt_key drawn.0.failed_attempt) tuple_index)
        ≡ true
    pub amount : drawn.0.failed_attempt.amount_paise ≡ drawn.0.plan_amount_paise
    pub time : drawn.0.failed_attempt.occurred_at ≡ drawn.0.charge_at

  module _ (law : IsRandom g) where
    draw_one-IsConsistent : (s : g.State) → IsConsistent (draw_one R cal g s).0
    unfolding draw_one draw_world_record failed_with
    draw_one-IsConsistent s = record {
      envelope = sample_mandate-permits _ _ _ _ _ (charge_at-positive _ _);
      candidate =
          get_or-All (λ o. has _ (candidates_for (key_of o) tuple_index) ≡ true) (codes_for _) _
            (no_code R cal g) (law.randrange-lt (length (codes_for _)) _ (codes_for-some _))
            (codes_for-found _);
      amount = refl;
      time = refl;
    }

    generate_from-pairs :
        (n : ℕ) (s : g.State) (world : Dict (WorldRecord R.Real))
        → (pairs : List (SubscriptionRecord × WorldRecord R.Real)) × (length pairs ≡ n)
          × All IsConsistent pairs
          × (generate_from R cal g n s world ≡ returned pairs world)
    unfolding generate_from
    generate_from-pairs zero s world = ([], refl, tt, refl)
    generate_from-pairs (suc n) s world =
        let drawn = draw_one R cal g s in
        let (pairs, size, consistent, e) =
          generate_from-pairs n drawn.1 (insert drawn.0.0.subscription_id drawn.0.1 world) in
        (
          drawn.0 ∷ pairs,
          omega (arith, size),
          (draw_one-IsConsistent s, consistent),
          ap (λ out. (drawn.0.0 ∷ out.0, out.1)) e,
        )

    -- With a source of randomness that keeps the documented ranges: `generate` returns the records
    -- of n drawn pairs and the world in which each pair's truth was put under its record's id. Of
    -- every pair, the mandate permits the failed charge exactly when the true class is not an
    -- expired mandate; that class is among the classifier's candidates for the failed attempt; and
    -- the attempt is of the plan's amount at the time of the charge.
    pub generate-pairs :
        (n seed : ℕ)
        → (pairs : List (SubscriptionRecord × WorldRecord R.Real)) × (length pairs ≡ n)
          × All IsConsistent pairs
          × (generate R cal g n seed ≡ returned pairs [])
    unfolding generate
    generate-pairs n seed = generate_from-pairs n (g.seeded seed) []
