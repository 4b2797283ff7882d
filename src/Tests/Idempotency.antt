-- ===== src/Tests/Idempotency.antt =====
-- Claims on both backends.
use reclaim_os.Prelude.{ℕ, Text, codes, ◌≡◌, refl, some, [], ◌∷◌, List, text_eq}
use reclaim_os.Prelude.Dict.{lookup, insert}
use reclaim_os.Domain.Models.{retry_charge}
use reclaim_os.Store.Canonical.{str}
use reclaim_os.Store.Idempotency.{Claim}
use reclaim_os.Store.Idempotency.Backends.{
  Memory, memory, memory_claim, memory_record_result, sqlite,
}
use reclaim_os.Store.Idempotency.Laws.{IsBackend, memory-IsBackend, sqlite-IsBackend, is_canonical}
use reclaim_os.Store.Idempotency.History.{
  Call, claims, records, call, run, wins, wins_once, result_kept,
}
use reclaim_os.Store.Idempotency.Key.{idempotency_key-injective}
use reclaim_os.Tests.Fixtures.{dumps, loads}

abbrev k : Text
k = codes "k"

-- Two threads race for a key, and a third records a result in between.
abbrev race : List Call
race = claims (codes "1") k ∷ (records k (str (codes "r")) ∷ (claims (codes "2") k ∷ []))

wins-race : wins memory k race [] ≡ 1
unfolding wins call memory_claim memory_record_result lookup insert text_eq
wins-race = refl

abbrev finished : Claim
finished = record { key = k; claimed_at = codes "1"; result = some (str (codes "r")) }

abbrev held : Memory
held = (k, finished) ∷ []

wins_once_example : wins memory k race [] ≡ 1
unfolding lookup text_eq
wins_once_example = wins_once memory memory-IsBackend k race []

result_kept_example : lookup k (run memory race held) ≡ some finished
result_kept_example =
    result_kept memory memory-IsBackend k race held {held = finished} {v = str (codes "r")}
      (unfold lookup text_eq in refl) refl

sqlite-IsBackend_example :
    IsBackend (sqlite dumps loads) (is_canonical dumps) (λ v. loads (dumps v))
sqlite-IsBackend_example = sqlite-IsBackend dumps loads

abbrev two : ℕ
two = 2

idempotency_key-injective_example :
    (codes "sub_1" ≡ codes "sub_1") × (two ≡ two) × (retry_charge ≡ retry_charge)
idempotency_key-injective_example =
    idempotency_key-injective (codes "sub_1") (codes "sub_1") two two retry_charge retry_charge refl
