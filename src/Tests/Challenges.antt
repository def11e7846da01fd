-- ===== src/Tests/Challenges.antt =====
-- A challenge that another instance has presented, and two challenges that use one server.
use certmagic.Prelude.{
  ◌≡◌, refl, Bool, ◌&&◌, Option, none, some, List, [], ◌∷◌, if◌then◌else◌, Str, codes, str_eq,
  lookup, Dict,
}
use certmagic.Solvers.Shared.{Challenge, SharedError, present_shared}
use certmagic.Solvers.Active.{in_use, bound, storage_key_acme_ca_prefix}
use certmagic.Solvers.Counts.{Use, presents, cleans_up, use_server, left, use_server-Counts}
use certmagic.Tests.Names.{keeping, resting, chal}

-- One challenge can be encoded.
is_chal : Challenge → Bool
is_chal c =
    str_eq c.challenge_type chal.challenge_type
    && (str_eq c.identifier_type chal.identifier_type
        && (str_eq c.identifier_value chal.identifier_value
            && (str_eq c.token chal.token && str_eq c.key_authorization chal.key_authorization)))

encode : Challenge → Option Str
unfolding is_chal
encode c = if is_chal c then some (codes "json") else none

abbrev decode : Str → Option Challenge
decode info = some chal

abbrev no_reverse : Str → Option Str
no_reverse addr = none

abbrev acme : Str
acme = codes "acme-v02.api.letsencrypt.org-directory"

abbrev presented : (Dict Str × Unit {0}) × Option SharedError
presented =
    present_shared keeping resting encode no_reverse (storage_key_acme_ca_prefix acme) chal ([], tt)

abbrev uses : List Use
uses = presents bound ∷ presents in_use ∷ cleans_up ∷ presents in_use ∷ cleans_up ∷ cleans_up ∷ []

use_server-Counts_example : lookup (codes ":80") (use_server (codes ":80") uses []) ≡ none
unfolding lookup left
use_server-Counts_example = use_server-Counts (codes ":80") 0 uses [] refl refl
