-- ===== src/Config/Csr.antt =====
-- config.go: generateCSR; crypto.go: namesFromCSR; certmagic.go: NamesKey.
use certmagic.Prelude.{
  ◌-◌, Bool, true, false, ◌&&◌, ◌||◌, Option, none, some, List, [], ◌∷◌, ◌++◌, ltb, leb, ◌==◌,
  if◌then◌else◌, length, take, Str, codes, str_eq, contains_byte, Result, ok, err,
}

-- x509.CertificateRequest; the addresses and URIs stand as their String() gives them.
pub record Csr : Type 0 where
  pub common_name : Str
  pub dns_names : List Str
  pub email_addresses : List Str
  pub ip_addresses : List Str
  pub uris : List Str
  pub must_staple : Bool

abbrev pub blank_csr : Csr
blank_csr = record {
  common_name = [];
  dns_names = [];
  email_addresses = [];
  ip_addresses = [];
  uris = [];
  must_staple = false;
}

-- What generateCSR uses of other packages: idna.ToASCII, net.ParseIP and url.Parse with the
-- String() of what they give, and whether the request can be created with a key.
pub record Naming : Type 0 where
  pub to_ascii : Str → Option Str
  pub parse_ip : Str → Option Str
  pub parse_url : Str → Option Str
  pub created : Str → Csr → Bool

pub data CsrError : Type 0 where
  unconverted not_created : CsrError

module _ (n : Naming) where
  -- The field that an identifier goes to.
  unfoldable pub add_identifier : Str → Csr → Csr
  add_identifier name csr = elim (n.parse_ip name) [
    | some ip ↦ record csr { ip_addresses = csr.ip_addresses ++ ip ∷ [] }
    | none ↦
        if contains_byte b'@' name
        then record csr { email_addresses = csr.email_addresses ++ name ∷ [] }
        else elim (n.parse_url name) [
          | none ↦ record csr { dns_names = csr.dns_names ++ name ∷ [] }
          | some u ↦
              if contains_byte b'/' name
              then record csr { uris = csr.uris ++ u ∷ [] }
              else record csr { dns_names = csr.dns_names ++ name ∷ [] }
        ]
  ]

  -- The loop over the identifiers; a short first one may become the common name.
  unfoldable pub add_identifiers : (use_cn : Bool) → List Str → Csr → Result CsrError Csr
  unfolding add_identifier
  add_identifiers use_cn [] csr = ok csr
  add_identifiers use_cn (name ∷ sans) csr = elim (n.to_ascii name) [
    | none ↦ err unconverted
    | some ascii ↦ add_identifiers use_cn sans (
        if use_cn && (str_eq csr.common_name [] && leb (length ascii) 64)
        then record csr { common_name = ascii }
        else add_identifier ascii csr)
  ]

  unfoldable pub with_key : Str → Result CsrError Csr → Result CsrError Csr
  with_key key (err e) = err e
  with_key key (ok csr) = if n.created key csr then ok csr else err not_created

  -- `must_staple` is the field of the config.
  unfoldable pub generate_csr : Bool → Str → List Str → (use_cn : Bool) → Result CsrError Csr
  unfolding add_identifiers with_key
  generate_csr must_staple key sans use_cn =
      with_key key (add_identifiers use_cn sans (record blank_csr { must_staple = must_staple }))

unfoldable pub names_from_csr : Csr → List Str
names_from_csr csr =
    (if str_eq csr.common_name [] then [] else csr.common_name ∷ [])
    ++ (csr.dns_names ++ (csr.email_addresses ++ (csr.ip_addresses ++ csr.uris)))

-- The order of strings, by bytes.
unfoldable pub str_le : Str → Str → Bool
str_le [] t = true
str_le (a ∷ s) [] = false
str_le (a ∷ s) (b ∷ t) = ltb a b || (a == b && str_le s t)

-- sort.Strings
unfoldable pub insert_sorted : Str → List Str → List Str
unfolding str_le
insert_sorted s [] = s ∷ []
insert_sorted s (t ∷ ts) =
    let rest = insert_sorted s ts in if str_le s t then s ∷ t ∷ ts else t ∷ rest

unfoldable pub sort_strings : List Str → List Str
unfolding insert_sorted
sort_strings [] = []
sort_strings (s ∷ ss) = insert_sorted s (sort_strings ss)

-- strings.Join(names, ",")
unfoldable pub join_commas : List Str → Str
join_commas [] = []
join_commas (s ∷ []) = s
join_commas (s ∷ t ∷ ss) = s ++ b',' ∷ join_commas (t ∷ ss)

abbrev trunc : Str
trunc = codes "_trunc"

unfoldable pub names_key : List Str → Str
unfolding sort_strings join_commas
names_key sans =
    let result = join_commas (sort_strings sans) in
    if ltb 1024 (length result) then take (1024 - length trunc) result ++ trunc else result
