-- ===== src/Storage/Keys.antt =====
-- storage.go: KeyBuilder. Keys are joined by path.Join, which cleans the path.
use mathlib.Core.List.{reverse}
use certmagic.Prelude.{
  ℕ, Bool, true, false, ◌&&◌, ◌||◌, List, [], ◌∷◌, ◌++◌, leb, ◌==◌, if◌then◌else◌, Str, codes,
  str_eq, to_lower, trim_space,
}
use certmagic.Certificate.{Certificate}
use certmagic.Certificate.Names.{split_on, join_with}

-- What strings.NewReplacer puts for a byte; ".." is removed where a dot follows a dot.
unfoldable pub replacement : ℕ → Str
replacement c =
    if c == b' '
    then codes "_"
    else if c == b'+'
    then codes "_plus_"
    else if c == b'*'
    then codes "wildcard_"
    else if c == b':'
    then codes "-"
    else c ∷ []

unfoldable pub replace : Str → Str
unfolding replacement
replace [] = []
replace (c ∷ []) = replacement c
replace (c ∷ d ∷ s) = elim (c == b'.' && d == b'.') [
  | true ↦ replace s
  | false ↦ replacement c ++ replace (d ∷ s)
]

-- The bytes that safeKeyRE leaves: [\w@.-]
abbrev pub is_key_byte : ℕ → Bool
is_key_byte c =
    (leb b'a' c && leb c b'z')
    || ((leb b'A' c && leb c b'Z')
        || ((leb b'0' c && leb c b'9') || (c == b'_' || (c == b'@' || (c == b'.' || c == b'-')))))

unfoldable pub keep_key_bytes : Str → Str
keep_key_bytes [] = []
keep_key_bytes (c ∷ s) = let rest = keep_key_bytes s in if is_key_byte c then c ∷ rest else rest

unfoldable pub safe : Str → Str
unfolding replace keep_key_bytes
safe str = keep_key_bytes (replace (trim_space (to_lower str)))

-- One part of a path; the parts kept so far, last first.
unfoldable pub go_up : Bool → List Str → List Str
go_up rooted [] = if rooted then [] else codes ".." ∷ []
go_up rooted (q ∷ qs) = if str_eq q (codes "..") then codes ".." ∷ q ∷ qs else qs

unfoldable pub clean_part : Bool → List Str → Str → List Str
unfolding go_up
clean_part rooted stack p =
    if str_eq p [] || str_eq p (codes ".")
    then stack
    else if str_eq p (codes "..")
    then go_up rooted stack
    else p ∷ stack

-- path.Clean, over the parts between slashes
unfoldable pub clean_parts : Bool → List Str → List Str → List Str
unfolding clean_part
clean_parts rooted stack [] = reverse stack
clean_parts rooted stack (p ∷ ps) = clean_parts rooted (clean_part rooted stack p) ps

unfoldable pub is_rooted : Str → Bool
is_rooted [] = false
is_rooted (c ∷ s) = c == b'/'

unfoldable pub clean : Str → Str
unfolding clean_parts is_rooted
clean p =
    let kept = join_with b'/' (clean_parts (is_rooted p) [] (split_on b'/' p)) in
    if is_rooted p then b'/' ∷ kept else if str_eq kept [] then codes "." else kept

unfoldable pub without_empty : List Str → List Str
without_empty [] = []
without_empty (p ∷ ps) = let rest = without_empty ps in if str_eq p [] then rest else p ∷ rest

-- path.Join
unfoldable pub join_path : List Str → Str
unfolding without_empty
join_path ps =
    let joined = join_with b'/' (without_empty ps) in if str_eq joined [] then [] else clean joined

abbrev pub prefix_certs : Str
prefix_certs = codes "certificates"

abbrev pub prefix_ocsp : Str
prefix_ocsp = codes "ocsp"

unfoldable pub certs_prefix : Str → Str
certs_prefix issuer_key = join_path (prefix_certs ∷ safe issuer_key ∷ [])

unfoldable pub certs_site_prefix : Str → Str → Str
unfolding certs_prefix
certs_site_prefix issuer_key domain = join_path (certs_prefix issuer_key ∷ safe domain ∷ [])

unfoldable pub site_cert : Str → Str → Str
unfolding certs_site_prefix
site_cert issuer_key domain =
    join_path (certs_site_prefix issuer_key domain ∷ (safe domain ++ codes ".crt") ∷ [])

unfoldable pub site_private_key : Str → Str → Str
unfolding certs_site_prefix
site_private_key issuer_key domain =
    join_path (certs_site_prefix issuer_key domain ∷ (safe domain ++ codes ".key") ∷ [])

unfoldable pub site_meta : Str → Str → Str
unfolding certs_site_prefix
site_meta issuer_key domain =
    join_path (certs_site_prefix issuer_key domain ∷ (safe domain ++ codes ".json") ∷ [])

unfoldable pub first_name : List Str → Str
first_name [] = []
first_name (name ∷ names) = safe name ++ codes "-"

-- `fast_hash` is the hash of the PEM bundle.
unfoldable pub ocsp_staple : (Str → Str) → Certificate → Str → Str
unfolding first_name
ocsp_staple fast_hash cert pem_bundle =
    join_path (prefix_ocsp ∷ (first_name cert.names ++ fast_hash pem_bundle) ∷ [])
