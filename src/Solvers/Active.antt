-- ===== src/Solvers/Active.antt =====
-- solvers.go: the active challenges in memory with solverWrapper, and the servers of the HTTP and
-- TLS-ALPN solvers; config.go: getChallengeInfo; handshake.go: getTLSALPNChallengeCert.
use certmagic.Prelude.{
  zero, suc, Bool, true, false, Option, none, some, List, [], ◌∷◌, if◌then◌else◌, Str, codes, Dict,
  lookup, insert, delete, Result, ok, err, ℤ, pos, negsuc,
}
use certmagic.Storage.Backend.{Storage, not_exist, read}
use certmagic.Storage.Keys.{safe, join_path}
use certmagic.Solvers.Shared.{Challenge, challenge_tokens_key}

-- A challenge, and the certificate that solves it, if it was made.
pub record ChallengeData : Type 0 where
  pub challenge : Challenge
  pub data' : Option Str

abbrev pub Active : Type 0
Active = Dict ChallengeData

abbrev pub get_acme_challenge : Str → Active → Option ChallengeData
get_acme_challenge = lookup

-- solverWrapper, around a solver that may change the active challenges too; `key_of` is
-- challengeKey.
module _ {S : Type 0} (present clean_up : Challenge → Active × S → (Active × S) × Bool)
    (key_of : Challenge → Str) where
  unfoldable pub present_wrapped : Challenge → Active × S → (Active × S) × Bool
  present_wrapped chal (active, s) =
      present chal (insert (key_of chal) (record { challenge = chal; data' = none }) active, s)

  unfoldable pub clean_up_wrapped : Challenge → Active × S → (Active × S) × Bool
  clean_up_wrapped chal (active, s) = clean_up chal (delete (key_of chal) active, s)

-- A solver's server at an address: how many challenges use it, and whether it listens.
pub record SolverInfo : Type 0 where
  pub count : ℤ
  pub listening : Bool

abbrev pub Servers : Type 0
Servers = Dict SolverInfo

unfoldable pub or_new : Option SolverInfo → SolverInfo
or_new none = record { count = pos 0; listening = false }
or_new (some si) = si

unfoldable pub get_solver_info : Str → Servers → SolverInfo
unfolding or_new
get_solver_info address servers = or_new (lookup address servers)

-- What robustTryListen gives: a listener, none and no error, or an error.
pub data Listening : Type 0 where
  bound in_use not_bound : Listening

unfoldable pub plus_one : ℤ → ℤ
plus_one (pos n) = pos (suc n)
plus_one (negsuc zero) = pos 0
plus_one (negsuc (suc n)) = negsuc n

unfoldable pub minus_one : ℤ → ℤ
minus_one (pos zero) = negsuc 0
minus_one (pos (suc n)) = pos n
minus_one (negsuc n) = negsuc (suc n)

unfoldable pub is_zero_int : ℤ → Bool
is_zero_int (pos zero) = true
is_zero_int _ = false

unfoldable pub is_bound : Listening → Bool
is_bound bound = true
is_bound _ = false

unfoldable pub is_failure : Listening → Bool
is_failure not_bound = true
is_failure _ = false

-- The servers, and whether there was no error.
unfoldable pub http_present : Str → Listening → Servers → Servers × Bool
unfolding get_solver_info plus_one is_bound is_failure
http_present address answer servers =
    let si = get_solver_info address servers in
    let counted = record si { count = plus_one si.count } in
    if si.listening then (insert address counted servers, true) else (
      insert address (record counted { listening = is_bound answer }) servers,
      if is_failure answer then false else true,
    )

-- The last one out closes the listener.
unfoldable pub http_clean_up : Str → Servers → Servers
unfolding get_solver_info minus_one is_zero_int
http_clean_up address servers =
    let si = get_solver_info address servers in
    let counted = record si { count = minus_one si.count } in
    if is_zero_int counted.count then delete address servers else insert address counted servers

-- The certificate is put with the challenge; without an entry, into an empty one. `blank` is
-- acme.Challenge{}.
unfoldable pub with_certificate : Challenge → Str → Str → Active → Active
with_certificate blank key cert active = elim (lookup key active) [
  | none ↦ insert key (record { challenge = blank; data' = some cert }) active
  | some c ↦ insert key (record c { data' = some cert }) active
]

-- `made` is what TLSALPN01ChallengeCert gives.
unfoldable pub tls_alpn_present :
    Challenge → Str → Option Str → Str → Listening → Active × Servers → (Active × Servers) × Bool
unfolding with_certificate http_present
tls_alpn_present blank key none address answer (active, servers) = ((active, servers), false)
tls_alpn_present blank key (some cert) address answer (active, servers) =
    let (servers', good) = http_present address answer servers in
    ((with_certificate blank key cert active, servers'), good)

pub data ChallengeError : Type 0 where
  unreadable_token no_information undecodable_token not_made : ChallengeError

-- storageKeyACMECAPrefix
unfoldable pub storage_key_acme_ca_prefix : Str → Str
storage_key_acme_ca_prefix issuer_key = join_path (codes "acme" ∷ safe issuer_key ∷ [])

module _ (st : Storage) (decode : Str → Option Challenge) where
  unfoldable pub token_key : Str → Str → Str
  unfolding challenge_tokens_key storage_key_acme_ca_prefix
  token_key identifier issuer_key =
      challenge_tokens_key (storage_key_acme_ca_prefix issuer_key) identifier

  -- The loop over the issuers; an empty text if no token is there.
  unfoldable pub find_token : Str → List Str → st.State → Result ChallengeError Str
  unfolding token_key read
  find_token identifier [] s = ok []
  find_token identifier (issuer_key ∷ issuers) s =
      elim (read st s (token_key identifier issuer_key)) [
        | ok info ↦ ok info
        | err not_exist ↦ find_token identifier issuers s
        | err _ ↦ err unreadable_token
      ]

  -- A challenge of another instance.
  unfoldable pub of_token : Result ChallengeError Str → Result ChallengeError (ChallengeData × Bool)
  of_token (err e) = err e
  of_token (ok []) = err no_information
  of_token (ok (c ∷ info)) = elim (decode (c ∷ info)) [
    | none ↦ err undecodable_token
    | some chal ↦ ok (record { challenge = chal; data' = none }, true)
  ]

  -- The challenge, and whether it comes from another instance.
  unfoldable pub get_challenge_info :
      List Str → Str → Active → st.State → Result ChallengeError (ChallengeData × Bool)
  unfolding of_token find_token
  get_challenge_info issuers identifier active s = elim (get_acme_challenge identifier active) [
    | some c ↦ ok (c, false)
    | none ↦ of_token (find_token identifier issuers s)
  ]

  -- `make` is TLSALPN01ChallengeCert, where it gives a certificate and no error.
  unfoldable pub get_tls_alpn_challenge_cert :
      (Challenge → Option Str)
      → List Str
      → Str
      → Active
      → st.State
      → Result ChallengeError (Str × Bool)
  unfolding get_challenge_info
  get_tls_alpn_challenge_cert make issuers server_name active s =
      elim (get_challenge_info issuers server_name active s) [
        | err e ↦ err e
        | ok (c, distributed) ↦ elim (c.data') [
          | some cert ↦ ok (cert, distributed)
          | none ↦ elim (make c.challenge) [
            | some cert ↦ ok (cert, distributed)
            | none ↦ err not_made
          ]
        ]
      ]
