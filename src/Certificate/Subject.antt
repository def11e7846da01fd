-- ===== src/Certificate/Subject.antt =====
-- certificates.go: which names may be the subject of a certificate. Package net is a parameter.
use certmagic.Prelude.{
  suc, ◌≤◌, ◌<◌, ◌≡◌, refl, ap, Bool, true, false, not, ◌&&◌, ◌||◌, Option, none, some, List, [],
  ◌∷◌, ◌++◌, ltb, ◌==◌, if◌then◌else◌, length, Str, codes, str_eq, has_prefix, has_suffix,
  contains_byte, to_lower, trim_space, arith,
}
use certmagic.Certificate.Names.{star, labels_of, split_on, count_byte, length-split_on}

-- strings.ContainsAny(s, chars)
unfoldable pub contains_any : Str → Str → Bool
contains_any [] chars = false
contains_any (c ∷ s) chars = contains_byte c chars || contains_any s chars

-- ()[]{}<> tab newline " \ !@#$%^&|;'+= and the space
abbrev special_chars : Str
special_chars = codes "()[]{}<> " ++ (9 ∷ 10 ∷ 34 ∷ 92 ∷ codes "!@#$%^&|;'+=")

unfoldable pub subject_qualifies_for_cert : Str → Bool
unfolding contains_any
subject_qualifies_for_cert subj =
    not (str_eq (trim_space subj) [])
    && (not (has_prefix (codes ".") subj)
        && (not (has_suffix (codes ".") subj)
            && ((not (contains_byte b'*' subj)
                  || (has_prefix (codes "*.") subj || str_eq subj star))
                && not (contains_any subj special_chars))))

-- What the program uses of package net: the host of host:port, if there is a port, and addresses.
pub record Net : Type 1 where
  pub Ip : Type 0
  pub split_host_port : Str → Option Str
  pub parse_ip : Str → Option Ip
  pub in_network : Str → Ip → Bool

-- strings.TrimSuffix(s, ".")
unfoldable pub trim_dot : Str → Str
trim_dot [] = []
trim_dot (c ∷ s) =
    let rest = trim_dot s in elim s [ [] ↦ if c == b'.' then [] else c ∷ [] | _ ∷ _ ↦ c ∷ rest ]

abbrev private_networks : List Str
private_networks =
    codes "127.0.0.0/8"
    ∷ codes "0.0.0.0/16"
    ∷ codes "10.0.0.0/8"
    ∷ codes "172.16.0.0/12"
    ∷ codes "192.168.0.0/16"
    ∷ codes "169.254.0.0/16"
    ∷ codes "::1/7"
    ∷ codes "fe80::/10"
    ∷ codes "fc00::/7"
    ∷ []

module _ (n : Net) where
  open n use {Ip, split_host_port, parse_ip, in_network}

  unfoldable pub host_only : Str → Str
  host_only hostport = elim (split_host_port hostport) [ some host ↦ host | none ↦ hostport ]

  unfoldable pub in_any : List Str → Ip → Bool
  in_any [] ip = false
  in_any (net ∷ nets) ip = let rest = in_any nets ip in if in_network net ip then true else rest

  unfoldable pub is_internal_ip : Str → Bool
  unfolding host_only in_any
  is_internal_ip addr = elim (parse_ip (host_only addr)) [
    | none ↦ false
    | some ip ↦ in_any private_networks ip
  ]

  pub subject_is_ip : Str → Bool
  subject_is_ip subj = elim (parse_ip subj) [ none ↦ false | some _ ↦ true ]

  unfoldable pub subject_is_internal : Str → Bool
  unfolding host_only is_internal_ip trim_dot
  subject_is_internal subj =
      let host = to_lower (trim_dot (host_only subj)) in
      str_eq host (codes "localhost")
      || (has_suffix (codes ".localhost") host
          || (has_suffix (codes ".local") host
              || (has_suffix (codes ".internal") host
                  || (has_suffix (codes ".home.arpa") host || is_internal_ip host))))

  unfoldable pub subject_qualifies_for_public_cert : Str → Bool
  unfolding subject_is_internal
  subject_qualifies_for_public_cert subj =
      subject_qualifies_for_cert subj
      && (not (subject_is_internal subj)
          && (not (contains_byte b'*' subj)
              || ((count_byte b'*' subj == 1)
                  && (ltb 1 (count_byte b'.' subj)
                      && (ltb 2 (length subj) && has_prefix (codes "*.") subj)))))

split_on-star :
    (s : Str)
    → has_prefix (codes "*.") s ≡ true
    → (rest : Str) × (s ≡ b'*' ∷ b'.' ∷ rest) × (labels_of s ≡ star ∷ labels_of rest)
unfolding has_prefix split_on
split_on-star [] h = absurd (ground arith)
split_on-star (c ∷ []) h = absurd (ground arith)
split_on-star (c ∷ d ∷ s) h =
    let same : c ∷ d ∷ s ≡ b'*' ∷ b'.' ∷ s = ground arith in (s, same, ap labels_of same)

counts :
    (rest : Str)
    → (count_byte b'*' (b'*' ∷ b'.' ∷ rest) ≡ suc (count_byte b'*' rest))
      × (count_byte b'.' (b'*' ∷ b'.' ∷ rest) ≡ suc (count_byte b'.' rest))
unfolding count_byte
counts rest = (refl, refl)

public-tests :
    (n : Net) (subj : Str)
    → subject_qualifies_for_public_cert n subj ≡ true
    → contains_byte b'*' subj ≡ true
    → (count_byte b'*' subj ≡ 1)
      × (1 < count_byte b'.' subj)
      × (has_prefix (codes "*.") subj ≡ true)
unfolding subject_qualifies_for_public_cert
public-tests n subj h w = ground (arith, h, w)

-- A name that qualifies for a public certificate and has a star has exactly one, which is its
-- whole first label, and at least two more labels.
pub public-wildcard :
    (n : Net) (subj : Str)
    → subject_qualifies_for_public_cert n subj ≡ true
    → contains_byte b'*' subj ≡ true
    → (rest : Str) × (labels_of subj ≡ star ∷ labels_of rest)
      × (count_byte b'*' rest ≡ 0)
      × (2 ≤ length (labels_of rest))
public-wildcard n subj h w =
    let (one, dots, prefix) = public-tests n subj h w in
    let (rest, same, labels) = split_on-star subj prefix in
    (
      rest,
      labels,
      omega (arith, counts rest, ap (count_byte b'*') same),
      omega (arith, counts rest, ap (count_byte b'.') same, length-split_on b'.' rest),
    )
