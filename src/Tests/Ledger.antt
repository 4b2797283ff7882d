-- ===== src/Tests/Ledger.antt =====
-- Ledgers of two entries.
use reclaim_os.Prelude.{
  Text, codes, ◌≡◌, ◌≢◌, ◌⊎◌, refl, ◌↔◌, true, false, List, [], ◌∷◌, ◌++◌, map, text_eq,
  text_eq_iff, arith,
}
use reclaim_os.Store.Canonical.{
  encodable, money_is_integer, Value, object, array, cons, nil, field, end, float, str, chain_hash,
  genesis_hash, canonical_json, non_canonical,
}
use reclaim_os.Store.Canonical.FloatMoney.{HasFloatMoney, canonical_json-non_canonical}
use reclaim_os.Store.Ledger.{
  Row, Table, empty, append, transaction, has_hash, check_link, verify, head, entry_hash_mismatch,
}
use reclaim_os.Store.Ledger.Chain.{IsChain, verify-IsChain}
use reclaim_os.Store.Ledger.Append.{IsNumbered, append_all, verify-append_all}
use reclaim_os.Store.Ledger.Edit.{edit_payload, breaks-edit_payload}
use reclaim_os.Store.Ledger.Tamper.{Collision, content, same_head}
use reclaim_os.Tests.Fixtures.{sha, sha_width, dumps}

differ : (s t : Text) → text_eq s t ≡ false → s ≢ t
differ s t h e = ground (arith, text_eq_iff s t)

abbrev history : Text → List (Text × Value)
history now = (now, str (codes "a")) ∷ ((now, str (codes "b")) ∷ [])

abbrev first_row : Text → Row
first_row now = record {
  seq = 1;
  recorded_at = now;
  prev_hash = genesis_hash;
  entry_hash = sha (genesis_hash ++ codes "a");
  payload = codes "a";
}

abbrev second_row : Text → Row
second_row now = record {
  seq = 2;
  recorded_at = now;
  prev_hash = sha (genesis_hash ++ codes "a");
  entry_hash = sha (sha (genesis_hash ++ codes "a") ++ codes "b");
  payload = codes "b";
}

abbrev two : Text → Table
two now = record { rows = first_row now ∷ (second_row now ∷ []); autoincrement = 2 }

-- The appends give that table, and it verifies.
append-two :
    (append sha dumps
      (codes "t")
      (str (codes "b"))
      (append sha dumps (codes "t") (str (codes "a")) empty).1).1
    ≡ two (codes "t")
unfolding append chain_hash text_eq canonical_json money_is_integer encodable transaction has_hash
    head
append-two = refl

verify-two : (verify sha (two (codes "t"))).ok ≡ true
unfolding verify check_link text_eq
verify-two = refl

-- A float amount is refused at depth.
abbrev float_money : Value
float_money = object (
    field (codes "x")
      (array (cons (object (field (codes "amount_paise") (float (codes "1.5")) end)) nil)) end)

same_head_example :
    Collision sha ⊎ (map content (two (codes "t")).rows ≡ map content (two (codes "u")).rows)
same_head_example =
    same_head sha sha_width (two (codes "t")) (two (codes "u"))
      (unfold verify check_link text_eq in refl) (unfold verify check_link text_eq in refl)
      (unfold verify check_link text_eq in refl) (unfold verify check_link text_eq in refl)

verify-IsChain_example :
    (((verify sha (two (codes "t"))).ok ≡ true) ↔ IsChain sha genesis_hash (two (codes "t")).rows)
    × ((verify sha (two (codes "t"))).entries ≡ 2)
    × ((verify sha (two (codes "t"))).head ≡ head (two (codes "t")))
verify-IsChain_example = verify-IsChain sha (two (codes "t"))

verify-append_all_example :
    let t = append_all sha dumps (history (codes "t")) empty in
    ((verify sha t).ok ≡ true) × IsNumbered 1 t.rows
verify-append_all_example = verify-append_all sha dumps (history (codes "t"))

breaks-edit_payload_example :
    let v =
      verify sha
        (record (two (codes "t")) { rows = edit_payload (two (codes "t")).rows 0 (codes "z") }) in
    (v.ok ≡ false)
    × (v.breaks
        ≡ record {
          seq = 1;
          reason = entry_hash_mismatch;
          expected = chain_hash sha genesis_hash (codes "z");
          found = (first_row (codes "t")).entry_hash;
        }
          ∷ [])
breaks-edit_payload_example =
    breaks-edit_payload sha (two (codes "t")) 0 (first_row (codes "t")) (codes "z")
      (unfold verify check_link text_eq in refl) refl
      (differ (chain_hash sha genesis_hash (codes "z")) (first_row (codes "t")).entry_hash
        (unfold chain_hash text_eq in refl))

canonical_json-non_canonical_example :
    (canonical_json dumps float_money ≡ non_canonical) ↔ HasFloatMoney float_money
canonical_json-non_canonical_example =
    canonical_json-non_canonical dumps float_money (unfold encodable in refl)
