-- ===== src/Persistence/OperationLogs/Examples.antt =====
-- Two steps of one operation (persistence/audit_repository.py), with a small hash function.
use trustworthy_personal_kno.Prelude.{
  ◌+◌, ◌≡◌, refl, true, none, some, [], ◌∷◌, codes, length, ok, ◌⊎◌,
}
use trustworthy_personal_kno.Persistence.OperationLogs.{
  Hash, OperationLogRecord, latest, append_operation_log, entries,
}
use trustworthy_personal_kno.Persistence.OperationLogs.Chains.{IsChain, append-IsChain}
use trustworthy_personal_kno.Persistence.OperationLogs.Vouching.{
  Appended, empty, append, Collision, payloads, last_hash_vouches,
}

abbrev small : Hash
small operation step payload link = step + length payload

abbrev begun : OperationLogRecord
begun = record {
  id = 1;
  operation_id = codes "op";
  step_number = 0;
  payload = codes "begun";
  previous_entry_hash = none;
  entry_hash = 5;
}

abbrev ended : OperationLogRecord
ended = record {
  id = 2;
  operation_id = codes "op";
  step_number = 1;
  payload = codes "ended";
  previous_entry_hash = some 5;
  entry_hash = 6;
}

appended : append_operation_log small true ended (begun ∷ []) ≡ ok (ended ∷ begun ∷ [])
unfolding append_operation_log latest
appended = refl

chain : IsChain small (begun ∷ [])
chain = (refl, refl, refl, tt)

append-IsChain_example : IsChain small (entries (codes "op") (ended ∷ begun ∷ []))
append-IsChain_example =
    append-IsChain small true ended (begun ∷ []) (ended ∷ begun ∷ []) (codes "op") chain appended

first_appended : append_operation_log small true begun [] ≡ ok (begun ∷ [])
unfolding append_operation_log latest
first_appended = refl

built : Appended small (ended ∷ begun ∷ [])
built = append true ended _ _ (append true begun _ _ empty first_appended) appended

last : latest (codes "op") (ended ∷ begun ∷ []) ≡ some ended
unfolding latest
last = refl

last_hash_vouches_example :
    (payloads (ended ∷ begun ∷ []) ≡ payloads (ended ∷ begun ∷ []))
    ⊎ Collision small (ended ∷ begun ∷ []) (ended ∷ begun ∷ [])
last_hash_vouches_example =
    last_hash_vouches small (codes "op") (ended ∷ begun ∷ []) (ended ∷ begun ∷ []) ended ended built
      built last last refl
