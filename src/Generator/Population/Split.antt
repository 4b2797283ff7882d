-- ===== src/Generator/Population/Split.antt =====
-- The train and test sides of `split_records`.
use reclaim_os.Prelude.{
  ℕ, ◌+◌, ◌≡◌, refl, sym, subst, ap, ◌∙◌, arith, Text, Bool, true, List, length, count,
  count-append, min, take, drop, All, take-append-drop, length-take,
}
use reclaim_os.Prelude.Sorting.{
  sort, IsSorted, sort-IsSorted, sort-count, sort-length, IsSorted-parts, leb_text, leb_text_total,
  leb_text_trans,
}
use reclaim_os.Domain.Models.{SubscriptionRecord}
use reclaim_os.Generator.Population.{split_records}

module _ (digest : Text → Text) where
  abbrev pub leb_hash : SubscriptionRecord → SubscriptionRecord → Bool
  leb_hash a b = leb_text (digest a.subscription_id) (digest b.subscription_id)

  -- The split is exact and by the hash alone: of n records, the test side has as many as asked for,
  -- or all if that is more; each record is on one of the sides, as often as before, whatever
  -- the test p that counts it; and the hash of no test record is beyond that of a train record.
  pub split_records-parts :
      (n_test_of : ℕ → ℕ) (records : List SubscriptionRecord) (p : SubscriptionRecord → Bool)
      → let (train, test) = split_records digest n_test_of records in
        (length test ≡ min (n_test_of (length records)) (length records))
        × (count p train + count p test ≡ count p records)
        × All (λ a. All (λ b. leb_hash a b ≡ true) train) test
  unfolding split_records
  split_records-parts n_test_of records p =
      let ordered = sort leb_hash records in
      let size = sort-length leb_hash records in
      let n = n_test_of (length ordered) in
      let whole = take-append-drop n ordered in
      let sorted : IsSorted leb_hash ordered =
        sort-IsSorted leb_hash
          (λ a b. leb_text_total (digest a.subscription_id) (digest b.subscription_id))
          (λ a b c.
            leb_text_trans (digest a.subscription_id) (digest b.subscription_id)
              (digest c.subscription_id))
          records in
      (
        length-take n ordered ∙ rw size refl,
        omega (
          arith,
          count-append p (take n ordered) (drop n ordered),
          ap (count p) whole,
          sort-count leb_hash p records,
        ),
        IsSorted-parts leb_hash (take n ordered) (drop n ordered)
            (subst (IsSorted leb_hash) (sym whole) sorted),
      )
