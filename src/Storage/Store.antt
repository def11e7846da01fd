-- ===== src/Storage/Store.antt =====
-- storage.go: storeTx, over a storage whose keys are files.
use certmagic.Prelude.{
  ◌≡◌, refl, ◌∙◌, ap, inl, inr, ◌⊎◌, ◌++◌, Among, Bool, true, false, Bool-cases, Option, none, some,
  List, [], ◌∷◌, if◌then◌else◌, map, Str, str_eq,
}
use certmagic.Storage.Backend.{Storage, delete-none, delete-still_none}

pub record KeyValue : Type 0 where
  pub key : Str
  pub value : Str

module _ (st : Storage) where
  open st use {State, load, store, delete, load-store}

  -- The loop that deletes what was stored, last first; its errors are not looked at.
  unfoldable pub roll_back : List KeyValue → State → State
  roll_back [] s = s
  roll_back (kv ∷ done) s = roll_back done (delete kv.key s).0

  -- The loop that stores; `done` is what was stored, last first.
  unfoldable pub store_from : List KeyValue → List KeyValue → State → State × Bool
  unfolding roll_back
  store_from done [] s = (s, true)
  store_from done (kv ∷ rest) s =
      let (s', good) = store kv.key kv.value s in
      let later = store_from (kv ∷ done) rest s' in
      if good then later else (roll_back done s', false)

  -- The state, and whether there was no error.
  unfoldable pub store_tx : List KeyValue → State → State × Bool
  unfolding store_from
  store_tx all s = store_from [] all s

-- What a key holds after values were stored one by one.
unfoldable pub latest : Str → List KeyValue → Option Str → Option Str
latest j [] old = old
latest j (kv ∷ rest) old = latest j rest (if str_eq kv.key j then some kv.value else old)

abbrev pub keys_of : List KeyValue → List Str
keys_of = map (λ kv. kv.key)

module _ (st : Storage) where
  open st use {State, load, store, delete, load-store}

  stored_from :
      (done all : List KeyValue) (s : State) (j : Str)
      → (store_from st done all s).1 ≡ true
      → load (store_from st done all s).0 j ≡ latest j all (load s j)
  unfolding store_from latest
  stored_from done [] s j h = refl
  stored_from done (kv ∷ rest) s j h = elim (Bool-cases (store kv.key kv.value s).1) [
    | inr bad ↦ let q = rw bad at h in cc
    | inl good ↦ rw good (
        stored_from (kv ∷ done) rest (store kv.key kv.value s).0 j (rw good at h)
        ∙ ap (latest j rest) (load-store kv.key kv.value s good j))
  ]

  -- When there is no error, every key holds the value that was stored there last, and the other
  -- keys hold what they held.
  pub store_tx-stored :
      (all : List KeyValue) (s : State) (j : Str)
      → (store_tx st all s).1 ≡ true
      → load (store_tx st all s).0 j ≡ latest j all (load s j)
  unfolding store_tx
  store_tx-stored all s j h = stored_from [] all s j h

  -- What was deleted stays away.
  gone_after :
      (done : List KeyValue) (s : State) (j : Str)
      → ((k : Str) (t : State) → (delete k t).1 ≡ true)
      → (load s j ≡ none) ⊎ Among j (keys_of done)
      → load (roll_back st done s) j ≡ none
  unfolding roll_back
  gone_after [] s j works (inl gone) = gone
  gone_after [] s j works (inr a) = absurd a
  gone_after (kv ∷ done) s j works h = gone_after done (delete kv.key s).0 j works (elim h [
    | inl gone ↦ inl (delete-still_none st kv.key s j (works kv.key s) gone)
    | inr (inl same) ↦
        inl (ap (load (delete kv.key s).0) same ∙ delete-none st kv.key s (works kv.key s))
    | inr (inr later) ↦ inr later
  ])

  -- The values before one that could not be stored, and what is left of those and of others.
  pub record Failed (done all : List KeyValue) (s : State) : Type 0 where
    pub stored : List KeyValue
    pub failing : KeyValue
    pub others : List KeyValue
    pub parts : all ≡ stored ++ failing ∷ others
    pub worked : (store_from st done stored s).1 ≡ true
    pub faulty : (store failing.key failing.value (store_from st done stored s).0).1 ≡ false
    pub removed :
        (j : Str)
        → Among j (keys_of done) ⊎ Among j (keys_of stored)
        → load (store_from st done all s).0 j ≡ none

  failing_write :
      (done all : List KeyValue) (s : State)
      → ((k : Str) (t : State) → (delete k t).1 ≡ true)
      → (store_from st done all s).1 ≡ false
      → Failed done all s
  unfolding store_from
  failing_write done [] s works h = cc
  failing_write done (kv ∷ rest) s works h = elim (Bool-cases (store kv.key kv.value s).1) [
    | inr bad ↦ record {
      stored = [];
      failing = kv;
      others = rest;
      parts = refl;
      worked = refl;
      faulty = bad;
      removed = λ j a. rw bad (
          gone_after done (store kv.key kv.value s).0 j works
            (elim a [ inl before ↦ inr before | inr none_there ↦ absurd none_there ]));
    }
    | inl good ↦
        let s' = (store kv.key kv.value s).0 in
        let more = failing_write (kv ∷ done) rest s' works (rw good at h) in
        let run : store_from st done (kv ∷ more.stored) s
            ≡ store_from st (kv ∷ done) more.stored s' =
          (rw good refl) in
        record {
          stored = kv ∷ more.stored;
          failing = more.failing;
          others = more.others;
          parts = ap (λ l. kv ∷ l) more.parts;
          worked = ap (λ x. x.1) run ∙ more.worked;
          faulty = ap (λ x. (store more.failing.key more.failing.value x.0).1) run ∙ more.faulty;
          removed = λ j a. rw good (
              more.removed j (elim a [
                | inl before ↦ inl (inr before)
                | inr (inl this) ↦ inl (inl this)
                | inr (inr later) ↦ inr later
              ]));
        }
  ]

  -- When a transaction fails and every deletion works, there is a value that could not be stored,
  -- after all the values before it were; and none of the keys of the values before it holds anything
  -- any more, also those that held something before the transaction.
  pub store_tx-failed :
      (all : List KeyValue) (s : State)
      → ((k : Str) (t : State) → (delete k t).1 ≡ true)
      → (store_tx st all s).1 ≡ false
      → (stored : List KeyValue) × ((failing : KeyValue) × ((others : List KeyValue) × ((all
                ≡ stored ++ failing ∷ others)
              × ((store_tx st stored s).1 ≡ true)
              × ((store failing.key failing.value (store_tx st stored s).0).1 ≡ false)
              × ((j : Str) → Among j (keys_of stored) → load (store_tx st all s).0 j ≡ none))))
  unfolding store_tx
  store_tx-failed all s works h =
      let f = failing_write [] all s works h in
      (f.stored, (f.failing, (f.others, (f.parts, f.worked, f.faulty, λ j a. f.removed j (inr a)))))
