-- ===== src/Tests/Stores.antt =====
-- Transactions on a storage of at most two keys, and the locks that are held.
use certmagic.Prelude.{
  ap, ◌≡◌, refl, Bool, true, false, none, some, List, [], ◌∷◌, ◌++◌, Among, length, ltb,
  if◌then◌else◌, Str, codes, str_eq, has_prefix, Dict, lookup, insert, delete, lookup-insert, arith,
}
use certmagic.Storage.Backend.{Storage}
use certmagic.Tests.Folders.{delete_all, lookup-delete_all}
use certmagic.Storage.Store.{KeyValue, store_tx, latest, keys_of, store_tx-stored, store_tx-failed}
use certmagic.Storage.Locks.{Locks}

-- A value is stored if its key is there or fewer than two keys are.
put : Str → Str → Dict Str → Dict Str × Bool
put k v s = if ltb (length s) 2 then (insert k v s, true) else (s, false)

load_put :
    (k v : Str) (s : Dict Str)
    → (put k v s).1 ≡ true
    → (j : Str) → lookup j (put k v s).0 ≡ (if str_eq k j then some v else lookup j s)
unfolding put
load_put k v s good j = ground (arith, good, lookup-insert j k v s)

abbrev small : Storage
small = record {
  State = Dict Str;
  load = λ s k. lookup k s;
  broken = λ s k. false;
  store = put;
  delete = λ k s. (delete_all k s, true);
  load-store = load_put;
  load-delete = λ k s good j. lookup-delete_all j k s;
}

abbrev before : Dict Str
before = (codes "a", codes "old") ∷ []

abbrev pair : List KeyValue
pair =
    record { key = codes "a"; value = codes "1" }
    ∷ record { key = codes "b"; value = codes "2" }
    ∷ []

abbrev triple : List KeyValue
triple =
    record { key = codes "a"; value = codes "1" }
    ∷ record { key = codes "b"; value = codes "2" }
    ∷ record { key = codes "c"; value = codes "3" }
    ∷ []

pair_stored : (store_tx small pair before).1 ≡ true
unfolding store_tx put insert lookup str_eq
pair_stored = refl

store_tx-stored_example :
    lookup (codes "b") (store_tx small pair before).0
    ≡ latest (codes "b") pair (lookup (codes "b") before)
store_tx-stored_example = store_tx-stored small pair before (codes "b") pair_stored

triple_failed : store_tx small triple before ≡ ([], false)
unfolding store_tx put insert delete lookup str_eq delete_all has_prefix
triple_failed = refl

store_tx-failed_example :
    (stored : List KeyValue) × ((failing : KeyValue) × ((others : List KeyValue) × ((triple
            ≡ stored ++ failing ∷ others)
          × ((store_tx small stored before).1 ≡ true)
          × ((put failing.key failing.value (store_tx small stored before).0).1 ≡ false)
          × ((j : Str)
              → Among j (keys_of stored)
              → lookup j (store_tx small triple before).0 ≡ none))))
store_tx-failed_example =
    store_tx-failed small triple before (λ k t. refl) (ap (λ r. r.1) triple_failed)

abbrev held : Locks
held = (codes "x", 0) ∷ (codes "y", 1) ∷ []
