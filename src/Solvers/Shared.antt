-- ===== src/Solvers/Shared.antt =====
-- solvers.go: distributedSolver, which shares challenge tokens through the storage, over the
-- solver that is embedded in it.
use certmagic.Prelude.{
  ◌-◌, ◌≡◌, sym, ◌∙◌, ap, inl, inr, Bool, ◌&&◌, Bool-cases, Option-cases, Option, none, some, [],
  ◌∷◌, ◌++◌, if◌then◌else◌, length, take, Str, codes, str_eq, str_eq_refl,
}
use certmagic.Storage.Backend.{Storage, delete-none}
use certmagic.Storage.Keys.{safe, join_path}

-- What the solvers read of acme.Challenge.
pub record Challenge : Type 0 where
  pub challenge_type : Str
  pub identifier_type : Str
  pub identifier_value : Str
  pub token : Str
  pub key_authorization : Str

-- `reverse_addr` is dns.ReverseAddr, when it gives no error.
unfoldable pub challenge_key : (Str → Option Str) → Challenge → Str
challenge_key reverse_addr chal =
    if str_eq chal.challenge_type (codes "tls-alpn-01") && str_eq chal.identifier_type (codes "ip")
    then elim (reverse_addr chal.identifier_value) [
      | some reversed ↦ take (length reversed - 1) reversed
      | none ↦ chal.identifier_value
    ]
    else chal.identifier_value

unfoldable pub challenge_tokens_prefix : Str → Str
challenge_tokens_prefix issuer_prefix = join_path (issuer_prefix ∷ codes "challenge_tokens" ∷ [])

unfoldable pub challenge_tokens_key : Str → Str → Str
unfolding challenge_tokens_prefix
challenge_tokens_key issuer_prefix domain =
    join_path (challenge_tokens_prefix issuer_prefix ∷ (safe domain ++ codes ".json") ∷ [])

pub data SharedError : Type 0 where
  not_encoded not_stored not_deleted embedded_failed : SharedError

-- acmez.Solver: its state, and whether it gave no error.
pub record Solver : Type 1 where
  pub State : Type 0
  pub present : Challenge → State → State × Bool
  pub clean_up : Challenge → State → State × Bool

-- `issuer_prefix` is the field storageKeyIssuerPrefix, and `encode` is json.Marshal.
module _ (st : Storage) (solver : Solver) (encode : Challenge → Option Str)
    (reverse_addr : Str → Option Str) (issuer_prefix : Str) where
  -- Where the token of a challenge is stored.
  unfoldable pub key_of : Challenge → Str
  unfolding challenge_tokens_key challenge_key
  key_of chal = challenge_tokens_key issuer_prefix (challenge_key reverse_addr chal)

  abbrev pub Both : Type 0
  Both = st.State × solver.State

  unfoldable pub present_embedded : Challenge → Both → Both × Option SharedError
  present_embedded chal (s, i) =
      let (i', good) = solver.present chal i in
      ((s, i'), if good then none else some embedded_failed)

  unfoldable pub store_token : Challenge → Option Str → Both → Both × Option SharedError
  unfolding present_embedded key_of
  store_token chal none b = (b, some not_encoded)
  store_token chal (some info) (s, i) =
      let (s', good) = st.store (key_of chal) info s in
      let presented = present_embedded chal (s', i) in
      if good then presented else ((s', i), some not_stored)

  unfoldable pub present_shared : Challenge → Both → Both × Option SharedError
  unfolding store_token
  present_shared chal b = store_token chal (encode chal) b

  unfoldable pub clean_up_shared : Challenge → Both → Both × Option SharedError
  unfolding key_of
  clean_up_shared chal (s, i) =
      let (s', good) = st.delete (key_of chal) s in
      let (i', good') = solver.clean_up chal i in
      if good
      then ((s', i'), if good' then none else some embedded_failed)
      else ((s', i), some not_deleted)

  stored :
      (chal : Challenge) (info : Str) (s : st.State) (i : solver.State)
      → (store_token chal (some info) (s, i)).1 ≡ none
      → st.load (store_token chal (some info) (s, i)).0.0 (key_of chal) ≡ some info
  unfolding store_token present_embedded
  stored chal info s i h = elim (Bool-cases (st.store (key_of chal) info s).1) [
    | inl good ↦
        rw good
          (st.load-store (key_of chal) info s good (key_of chal) ∙ rw (str_eq_refl (key_of chal)))
    | inr bad ↦ let q = rw bad at h in cc
  ]

  deleted :
      (chal : Challenge) (b : Both)
      → (clean_up_shared chal b).1 ≡ none
      → st.load (clean_up_shared chal b).0.0 (key_of chal) ≡ none
  unfolding clean_up_shared
  deleted chal (s, i) h = elim (Bool-cases (st.delete (key_of chal) s).1) [
    | inl good ↦ rw good (delete-none st (key_of chal) s good)
    | inr bad ↦ let q = rw bad at h in cc
  ]

  -- After a challenge is presented, its token is stored.
  pub present_shared-stored :
      (chal : Challenge) (b : Both)
      → (present_shared chal b).1 ≡ none
      → (info : Str) × (encode chal ≡ some info)
        × (st.load (present_shared chal b).0.0 (key_of chal) ≡ some info)
  unfolding present_shared store_token
  present_shared-stored chal (s, i) h = elim (Option-cases (encode chal)) [
    | inl missing ↦ cc (missing, h)
    | inr (info, e) ↦ (
      info,
      e,
      ap (λ o. st.load (store_token chal o (s, i)).0.0 (key_of chal)) e
          ∙ stored chal info s i (ap (λ o. (store_token chal o (s, i)).1) (sym e) ∙ h),
    )
  ]

  -- When presenting a challenge succeeds and then cleaning it up does, the storage held the encoded
  -- challenge under its key in between, for every instance that shares the storage, and then holds
  -- nothing there.
  pub present_shared-clean_up :
      (chal : Challenge) (b : Both)
      → (present_shared chal b).1 ≡ none
      → (clean_up_shared chal (present_shared chal b).0).1 ≡ none
      → ((info : Str) × (encode chal ≡ some info)
          × (st.load (present_shared chal b).0.0 (key_of chal) ≡ some info))
        × (st.load (clean_up_shared chal (present_shared chal b).0).0.0 (key_of chal) ≡ none)
  unfolding present_shared
  present_shared-clean_up chal b h k =
      (present_shared-stored chal b h, deleted chal (present_shared chal b).0 k)
