-- ===== src/Store/Idempotency/History.antt =====
-- Any interleaving of calls on one store is a list of atomic calls: a key is won once, and what
-- was recorded under it never changes.
use reclaim_os.Prelude.{
  ℕ, ◌+◌, Text, ◌≡◌, Bool, true, false, ◌&&◌, some, arith, List, [], ◌∷◌, any, text_eq, text_eq_iff,
  if◌then◌else◌, Bool-cases,
}
use reclaim_os.Prelude.Dict.{is_some}
use reclaim_os.Store.Canonical.{Value}
use reclaim_os.Store.Idempotency.{Claim, Backend}
use reclaim_os.Store.Idempotency.Laws.{IsBackend}

-- A call of some thread; the first text of a claim is its clock.
pub data Call : Type 0 where
  claims : Text → Text → Call
  records : Text → Value → Call

abbrev pub claims_key : Text → Call → Bool
claims_key k (claims now j) = text_eq j k
claims_key k (records j v) = false

module _ {S : Type 0} (b : Backend S) where
  unfoldable pub call : Call → S → S
  call (claims now k) s = (b.claim now k s).1
  call (records k v) s = (b.record_result k v s).1

  unfoldable pub run : List Call → S → S
  unfolding call
  run [] s = s
  run (c ∷ cs) s = run cs (call c s)

  -- Did this call claim `k` and win?
  unfoldable pub won : Text → Call → S → ℕ
  won k (claims now j) s = if text_eq j k && (b.claim now j s).0 then 1 else 0
  won k (records j v) s = 0

  unfoldable pub wins : Text → List Call → S → ℕ
  unfolding won
  wins k [] s = 0
  wins k (c ∷ cs) s = won k c s + wins k cs (call c s)

  module _ {accepts : Value → Bool} {reread : Value → Value}
      (laws : IsBackend b accepts reread) where
    won-first :
        (k : Text) (c : Call) (s : S)
        → won k c s ≡ (if is_some (b.get k s) then 0 else if claims_key k c then 1 else 0)
    unfolding won
    won-first k (claims now j) s = ground (arith, text_eq_iff j k, laws.claim_answer now j s)
    won-first k (records j v) s = ground arith

    held-call :
        (k : Text) (c : Call) (s : S)
        → is_some (b.get k (call c s)) ≡ (if is_some (b.get k s) then true else claims_key k c)
    unfolding call
    held-call k (claims now j) s = ground (arith, text_eq_iff j k, laws.get-claim now j k s)
    held-call k (records j v) s = ground (arith, text_eq_iff j k, laws.get-record_result j k v s)

    -- Of a store that keeps the promises: in any sequence of calls a key that is held is
    -- never won again, and a key that is free is won exactly once if any call claims it,
    -- and never if none does.
    pub wins_once :
        (k : Text) (cs : List Call) (s : S)
        → wins k cs s ≡ (if is_some (b.get k s) then 0 else if any (claims_key k) cs then 1 else 0)
    unfolding wins
    wins_once k [] s = ground arith
    wins_once k (c ∷ cs) s =
        ground (arith, won-first k c s, held-call k c s, wins_once k cs (call c s))

    kept-call :
        (k : Text) (c : Call) (s : S) {held : Claim} {v : Value}
        → b.get k s ≡ some held
        → held.result ≡ some v
        → b.get k (call c s) ≡ some held
    unfolding call
    kept-call k (claims now j) s e r = ground (arith, text_eq_iff j k, laws.get-claim now j k s)
    kept-call k (records j w) s e r =
        ground (arith, text_eq_iff j k, laws.get-record_result j k w s, Bool-cases (accepts w))

    -- Of a store that keeps the promises: once a key has a result, its claim, result and
    -- time of claim are the same after any sequence of further calls.
    pub result_kept :
        (k : Text) (cs : List Call) (s : S) {held : Claim} {v : Value}
        → b.get k s ≡ some held
        → held.result ≡ some v
        → b.get k (run cs s) ≡ some held
    unfolding run
    result_kept k [] s e r = e
    result_kept k (c ∷ cs) s e r = result_kept k cs (call c s) (kept-call k c s e r) r
