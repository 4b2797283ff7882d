-- ===== src/Diagnose/Classifier/Index.antt =====
-- The index that the classifier builds by its loop, against the table that it was built from.
use reclaim_os.Prelude.{
  ◌≡◌, refl, ◌∙◌, ◌↔◌, Bool, true, false, ◌&&◌, ◌||◌, arith, Option, none, some, List, [], ◌∷◌,
  ◌++◌, foldl, any, text_eq_iff,
}
use reclaim_os.Prelude.Dict.{is_some}
use reclaim_os.Domain.Declines.{DeclineClass, DeclineCode, same_class}
use reclaim_os.Diagnose.Classifier.{
  Key, same_key, key_of, Owners, Index, owns, add_owner, add_code, index_of, candidates_for,
}

pub same_key_iff : (k j : Key) → (same_key k j ≡ true) ↔ (k ≡ j)
unfolding same_key
same_key_iff k j =
    let a = text_eq_iff k.code j.code in
    let b = text_eq_iff k.source j.source in
    let c = text_eq_iff k.step j.step in
    let d = text_eq_iff k.reason j.reason in
    (λ h. ground (arith, a, b, c, d), λ h. ground (arith, a, b, c, d))

pub same_class_iff : (c d : DeclineClass) → (same_class c d ≡ true) ↔ (c ≡ d)
unfolding same_class
same_class_iff c d = (ground arith, ground arith)

-- Is the class among the candidates, if there are any?
abbrev pub has : DeclineClass → Option Owners → Bool
has d none = false
has d (some owners) = owns d owners

owns-append :
    (d c : DeclineClass) (o : Owners) → owns d (o ++ c ∷ []) ≡ (owns d o || same_class c d)
unfolding owns
owns-append d c [] = ground arith
owns-append d c (x ∷ o) = ground (arith, owns-append d c o)

pub owns_nothing : (d : DeclineClass) → owns d [] ≡ false
unfolding owns
owns_nothing d = refl

owns-add_owner :
    (d c : DeclineClass) (o : Owners) → owns d (add_owner c o) ≡ (owns d o || same_class c d)
unfolding add_owner
owns-add_owner d c o = ground (arith, same_class_iff c d, owns-append d c o)

has-add_code :
    (d : DeclineClass) (k : Key) (idx : Index) (c : DeclineCode)
    → has d (candidates_for k (add_code idx c))
      ≡ (has d (candidates_for k idx) || (same_key (key_of c) k && same_class c.true_class d))
unfolding add_code candidates_for
has-add_code d k [] c =
    ground (arith, same_key_iff (key_of c) k, owns-add_owner d c.true_class [], owns_nothing d)
has-add_code d k ((j, o) ∷ idx) c = ground (
  arith,
  same_key_iff j (key_of c),
  same_key_iff j k,
  same_key_iff (key_of c) k,
  owns-add_owner d c.true_class o,
  has-add_code d k idx c,
)

has-foldl :
    (d : DeclineClass) (k : Key) (idx : Index) (cs : List DeclineCode)
    → has d (candidates_for k (foldl add_code idx cs)) ≡ (
        has d (candidates_for k idx)
        || any (λ c. same_key (key_of c) k && same_class c.true_class d) cs)
has-foldl d k idx [] = ground arith
has-foldl d k idx (c ∷ cs) =
    has-foldl d k (add_code idx c) cs ∙ ground (arith, has-add_code d k idx c)

is_some-add_code :
    (k : Key) (idx : Index) (c : DeclineCode)
    → is_some (candidates_for k (add_code idx c))
      ≡ (is_some (candidates_for k idx) || same_key (key_of c) k)
unfolding add_code candidates_for
is_some-add_code k [] c = ground arith
is_some-add_code k ((j, o) ∷ idx) c = ground (
  arith,
  same_key_iff j (key_of c),
  same_key_iff j k,
  same_key_iff (key_of c) k,
  is_some-add_code k idx c,
)

is_some-foldl :
    (k : Key) (idx : Index) (cs : List DeclineCode)
    → is_some (candidates_for k (foldl add_code idx cs))
      ≡ (is_some (candidates_for k idx) || any (λ c. same_key (key_of c) k) cs)
is_some-foldl k idx [] = ground arith
is_some-foldl k idx (c ∷ cs) =
    is_some-foldl k (add_code idx c) cs ∙ ground (arith, is_some-add_code k idx c)

-- Of any table of codes, the index has an entry for a tuple exactly when some row of the table
-- has that tuple, and a class is among the tuple's candidates exactly when some row has both.
pub index_of-candidates :
    (cs : List DeclineCode) (k : Key) (d : DeclineClass)
    → (is_some (candidates_for k (index_of cs)) ≡ any (λ c. same_key (key_of c) k) cs)
      × (has d (candidates_for k (index_of cs))
          ≡ any (λ c. same_key (key_of c) k && same_class c.true_class d) cs)
unfolding index_of candidates_for
index_of-candidates cs k d = (is_some-foldl k [] cs, has-foldl d k [] cs)
