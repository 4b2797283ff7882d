-- ===== src/Store/Canonical/FloatMoney.antt =====
-- What `canonical_json` lets through, against an inductive description of float money.
use reclaim_os.Prelude.{Text, true, false, ◌≡◌, ◌↔◌, arith, Bool-cases, inl, inr, ◌&&◌, &&-true}
use reclaim_os.Store.Canonical.{
  Value, Items, Fields, object, array, nil, cons, end, field, float, null, bool, int, str,
  isoformat, enum, opaque, ends_with, paise_suffix, is_float, money_is_integer, items_are_integer,
  fields_are_integer, non_canonical, canonical_json, encodable,
}

-- A float stands directly under a key that ends with "_paise", at some depth of the value.
mutual
  pub data HasFloatMoney : Value → Type 0 where
    in_object : {fs : Fields} → FieldsHave fs → HasFloatMoney (object fs)
    in_array : {xs : Items} → ItemsHave xs → HasFloatMoney (array xs)

  pub data ItemsHave : Items → Type 0 where
    head : {x : Value} {xs : Items} → HasFloatMoney x → ItemsHave (cons x xs)
    tail : {x : Value} {xs : Items} → ItemsHave xs → ItemsHave (cons x xs)

  pub data FieldsHave : Fields → Type 0 where
    here :
        {k : Text} {v : Value} {fs : Fields}
        → ends_with paise_suffix k ≡ true
        → is_float v ≡ true
        → FieldsHave (field k v fs)
    below : {k : Text} {v : Value} {fs : Fields} → HasFloatMoney v → FieldsHave (field k v fs)
    later : {k : Text} {v : Value} {fs : Fields} → FieldsHave fs → FieldsHave (field k v fs)

mutual
  unfolding money_is_integer

  refused : {v : Value} → HasFloatMoney v → money_is_integer v ≡ false
  refused (in_object h) = refused_fields h
  refused (in_array h) = refused_items h

  refused_items : {xs : Items} → ItemsHave xs → items_are_integer xs ≡ false
  refused_items (head h) = ground (arith, refused h)
  refused_items (tail h) = ground (arith, refused_items h)

  refused_fields : {fs : Fields} → FieldsHave fs → fields_are_integer fs ≡ false
  refused_fields (here k v) = ground arith
  refused_fields (below h) = ground (arith, refused h)
  refused_fields (later h) = ground (arith, refused_fields h)

mutual
  unfolding money_is_integer

  found : (v : Value) → money_is_integer v ≡ false → HasFloatMoney v
  found (object fs) h = in_object (found_fields fs h)
  found (array xs) h = in_array (found_items xs h)
  found null h = absurd (cc)
  found (bool _) h = absurd (cc)
  found (int _) h = absurd (cc)
  found (float _) h = absurd (cc)
  found (str _) h = absurd (cc)
  found (isoformat _) h = absurd (cc)
  found (enum _) h = absurd (cc)
  found (opaque _) h = absurd (cc)

  found_items : (xs : Items) → items_are_integer xs ≡ false → ItemsHave xs
  found_items nil h = absurd (cc)
  found_items (cons x xs) h = elim (Bool-cases (money_is_integer x)) [
    | inl e ↦ tail (found_items xs (ground arith))
    | inr e ↦ head (found x e)
  ]

  found_fields : (fs : Fields) → fields_are_integer fs ≡ false → FieldsHave fs
  found_fields end h = absurd (cc)
  found_fields (field k v fs) h = elim (Bool-cases (ends_with paise_suffix k && is_float v)) [
    | inl e ↦ here ((&&-true _ _ e).0) ((&&-true _ _ e).1)
    | inr e ↦ elim (Bool-cases (money_is_integer v)) [
      | inl e' ↦ later (found_fields fs (ground arith))
      | inr e' ↦ below (found v e')
    ]
  ]

-- Of a payload that `json.dumps` can encode, `canonical_json` raises exactly when some float
-- stands directly under a key ending with "_paise", at any depth.
pub canonical_json-non_canonical :
    (dumps : Value → Text) (v : Value)
    → encodable v ≡ true
    → (canonical_json dumps v ≡ non_canonical) ↔ HasFloatMoney v
unfolding canonical_json
canonical_json-non_canonical dumps v e =
    (λ h. found v (ground arith), λ h. ground (arith, refused h))
