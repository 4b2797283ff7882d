-- ===== src/Store/Events.antt =====
-- src/reclaimos/store/events.py over the `events` table of src/reclaimos/store/db.py. Instants
-- are kept as their ISO text. `json.dumps`, `json.loads` and the clock are parameters.
pub mod Log
use reclaim_os.Prelude.{
  ℕ, ◌+◌, Text, Bool, true, false, Option, none, some, List, [], ◌∷◌, ◌++◌, any, find, keep, length,
  text_eq, if◌then◌else◌,
}
use reclaim_os.Store.Canonical.{Value, Outcome, done, non_canonical, canonical_json}

pub record InboundEvent : Type 0 where
  pub event_id : Text
  pub event_type : Text
  pub occurred_at : Text
  pub signature_verified : Bool
  pub payload : Value
  pub subscription_id : Option Text
  pub payment_id : Option Text

-- `StoredEvent`: an event with its place in the sequence.
pub record StoredEvent : Type 0 where
  pub inbound : InboundEvent
  pub seq : ℕ
  pub received_at : Text

pub record EventRow : Type 0 where
  pub seq : ℕ
  pub event_id : Text
  pub event_type : Text
  pub subscription_id : Option Text
  pub payment_id : Option Text
  pub occurred_at : Text
  pub received_at : Text
  pub signature_verified : Bool
  pub payload : Text

pub record EventTable : Type 0 where
  pub rows : List EventRow
  pub autoincrement : ℕ

-- `append` returns the stored event and whether it is new, or lets an exception out.
pub data EventAppended : Type 0 where
  stored : StoredEvent → Bool → EventAppended
  not_canonical : EventAppended
  integrity_error : EventAppended

-- WHERE event_id = ?
unfoldable pub row_for : Text → List EventRow → Option EventRow
row_for k = find (λ (r : EventRow). text_eq r.event_id k)

abbrev pub event_row : Text → Text → InboundEvent → EventTable → EventRow
event_row now body e t = record {
  seq = t.autoincrement + 1;
  event_id = e.event_id;
  event_type = e.event_type;
  subscription_id = e.subscription_id;
  payment_id = e.payment_id;
  occurred_at = e.occurred_at;
  received_at = now;
  signature_verified = e.signature_verified;
  payload = body;
}

-- The INSERT, under the constraint UNIQUE on `event_id`; none is the IntegrityError.
unfoldable pub insert_event : Text → Text → InboundEvent → EventTable → Option EventTable
unfolding row_for
insert_event now body e t = elim (row_for e.event_id t.rows) [
  | some _ ↦ none
  | none ↦
      some (record {
        rows = t.rows ++ event_row now body e t ∷ [];
        autoincrement = t.autoincrement + 1;
      })
]

module _ (loads : Text → Value) where
  -- `_to_event`
  unfoldable pub to_event : EventRow → StoredEvent
  to_event r = record {
    inbound = record {
      event_id = r.event_id;
      event_type = r.event_type;
      occurred_at = r.occurred_at;
      signature_verified = r.signature_verified;
      payload = loads r.payload;
      subscription_id = r.subscription_id;
      payment_id = r.payment_id;
    };
    seq = r.seq;
    received_at = r.received_at;
  }

  unfoldable pub get_event : Text → EventTable → Option StoredEvent
  get_event k t = elim (row_for k t.rows) [ none ↦ none | some r ↦ some (to_event r) ]

  -- The `self.get(…)` that follows the INSERT; a missing row raises on both paths.
  unfoldable pub read_back : Text → Bool → EventTable → EventAppended × EventTable
  read_back k is_new t = elim (get_event k t) [
    | none ↦ (integrity_error, t)
    | some e ↦ (stored e is_new, t)
  ]

module _ (dumps : Value → Text) (loads : Text → Value) where
  unfoldable pub append_event : Text → InboundEvent → EventTable → EventAppended × EventTable
  unfolding read_back
  append_event now e t = elim (canonical_json dumps e.payload) [
    | non_canonical ↦ (not_canonical, t)
    | done body ↦ elim (insert_event now body e t) [
      | none ↦ read_back loads e.event_id false t
      | some t' ↦ read_back loads e.event_id true t'
    ]
  ]

unfoldable pub count_events : Bool → EventTable → ℕ
count_events verified_only t =
    length (keep (λ (r : EventRow). if verified_only then r.signature_verified else true) t.rows)
