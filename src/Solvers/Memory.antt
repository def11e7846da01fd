-- ===== src/Solvers/Memory.antt =====
-- solvers.go: DNSManager's memory of the records that were presented.
use certmagic.Prelude.{
  ℕ, suc, ◌+◌, ◌≡◌, refl, ◌∙◌, ap, inl, inr, ◌&&◌, Bool-cases, Option-cases, Option, none, some,
  List, [], ◌∷◌, ◌++◌, if◌then◌else◌, Str, str_eq, str_eq_iff, str_eq_refl, Dict, lookup, insert,
  lookup-insert, arith,
}

-- libdns.Record
pub record DnsRecord : Type 0 where
  pub rec_type : Str
  pub name : Str
  pub value : Str
  pub ttl : ℕ

pub record ZoneRecord : Type 0 where
  pub zone : Str
  pub dns_record : DnsRecord

pub record DnsPresentMemory : Type 0 where
  pub dns_name : Str
  pub zone_rec : ZoneRecord

abbrev pub Records : Type 0
Records = Dict (List DnsPresentMemory)

abbrev or_nil : Option (List DnsPresentMemory) → List DnsPresentMemory
or_nil none = []
or_nil (some l) = l

-- s.records[name]
unfoldable pub memories : Str → Records → List DnsPresentMemory
memories n records = or_nil (lookup n records)

unfoldable pub save_dns_present_memory : DnsPresentMemory → Records → Records
unfolding memories
save_dns_present_memory mem records =
    insert mem.dns_name (memories mem.dns_name records ++ mem ∷ []) records

unfoldable pub find_memory :
    (rec_type value : Str) → List DnsPresentMemory → Option DnsPresentMemory
find_memory t v [] = none
find_memory t v (mem ∷ mems) =
    let rest = find_memory t v mems in
    if str_eq mem.zone_rec.dns_record.rec_type t && str_eq mem.zone_rec.dns_record.value v
    then some mem
    else rest

unfoldable pub get_dns_present_memory :
    (dns_name rec_type value : Str) → Records → Option DnsPresentMemory
unfolding find_memory memories
get_dns_present_memory n t v records = find_memory t v (memories n records)

-- The list without its first memory of a value, if there is one.
unfoldable pub drop_first : Str → List DnsPresentMemory → Option (List DnsPresentMemory)
drop_first v [] = none
drop_first v (mem ∷ mems) =
    let rest = drop_first v mems in
    if str_eq mem.zone_rec.dns_record.value v
    then some mems
    else elim rest [ none ↦ none | some left ↦ some (mem ∷ left) ]

unfoldable pub keep_left : Str → Option (List DnsPresentMemory) → Records → Records
keep_left n none records = records
keep_left n (some left) records = insert n left records

unfoldable pub delete_dns_present_memory : (dns_name key_auth : Str) → Records → Records
unfolding drop_first memories keep_left
delete_dns_present_memory n v records = keep_left n (drop_first v (memories n records)) records

-- How many memories of a list have a value.
unfoldable pub count_value : Str → List DnsPresentMemory → ℕ
count_value v [] = 0
count_value v (mem ∷ mems) =
    if str_eq mem.zone_rec.dns_record.value v then suc (count_value v mems) else count_value v mems

count_value-append :
    (v : Str) (xs ys : List DnsPresentMemory)
    → count_value v (xs ++ ys) ≡ count_value v xs + count_value v ys
unfolding count_value
count_value-append v [] ys = omega arith
count_value-append v (x ∷ xs) ys = ground (arith, count_value-append v xs ys)

count_value-one :
    (v : Str) (mem : DnsPresentMemory)
    → count_value v (mem ∷ []) ≡ (if str_eq mem.zone_rec.dns_record.value v then 1 else 0)
unfolding count_value
count_value-one v mem = ground arith

memories-insert :
    (n k : Str) (l : List DnsPresentMemory) (records : Records)
    → memories n (insert k l records) ≡ (if str_eq k n then l else memories n records)
unfolding memories
memories-insert n k l records = ap or_nil (lookup-insert n k l records) ∙ ground arith

-- What dropping the first memory of a value leaves of each value.
count_value-drop_first :
    (w v : Str) (mems left : List DnsPresentMemory)
    → drop_first v mems ≡ some left
    → count_value w mems ≡ count_value w left + (if str_eq v w then 1 else 0)
unfolding drop_first count_value
count_value-drop_first w v [] left e = cc
count_value-drop_first w v (mem ∷ mems) left e =
    elim (Bool-cases (str_eq mem.zone_rec.dns_record.value v)) [
      | inl same ↦
          let s = (str_eq_iff mem.zone_rec.dns_record.value v).0 same in
          let q : mems ≡ left = (let r = rw same at e in cc) in rw (s, q) (ground arith)
      | inr other ↦ elim (Option-cases (drop_first v mems)) [
        | inl missing ↦ let r = rw (other, missing) at e in cc
        | inr (rest, found) ↦
            let q : mem ∷ rest ≡ left = (let r = rw (other, found) at e in cc) in
            rw (← q) (ground (arith, count_value-drop_first w v mems rest found))
      ]
    ]

drop_first-some :
    (v : Str) (mem : DnsPresentMemory) (mems : List DnsPresentMemory)
    → mem.zone_rec.dns_record.value ≡ v
    → (left : List DnsPresentMemory) × (drop_first v (mems ++ mem ∷ []) ≡ some left)
unfolding drop_first
drop_first-some v mem [] e = ([], rw (e, str_eq_refl v))
drop_first-some v mem (x ∷ xs) e = elim (Bool-cases (str_eq x.zone_rec.dns_record.value v)) [
  | inl same ↦ (xs ++ mem ∷ [], rw same)
  | inr other ↦ let (left, found) = drop_first-some v mem xs e in (x ∷ left, rw (other, found))
]

-- How many memories of a name have a value.
abbrev pub held : (dns_name value : Str) → Records → ℕ
held n v records = count_value v (memories n records)

-- Deleting the memory of a record that was just saved leaves as many memories of each name and
-- value as before it was saved.
pub held-delete-save :
    (mem : DnsPresentMemory) (records : Records) (n w : Str)
    → held n w (
        delete_dns_present_memory mem.dns_name mem.zone_rec.dns_record.value
          (save_dns_present_memory mem records))
      ≡ held n w records
unfolding save_dns_present_memory
held-delete-save mem records n w =
    let v = mem.zone_rec.dns_record.value in
    let k = mem.dns_name in
    let saved = memories k records ++ mem ∷ [] in
    let (left, found) = drop_first-some v mem (memories k records) refl in
    let counts = count_value-drop_first w v saved left found in
    let now_saved : memories k (insert k saved records) ≡ saved =
      memories-insert k k saved records ∙ rw (str_eq_refl k) in
    let dropped : delete_dns_present_memory k v (insert k saved records)
        ≡ insert k left (insert k saved records) =
      unfold delete_dns_present_memory keep_left in rw (now_saved, found) in
    rw dropped (elim (Bool-cases (str_eq k n)) [
      | inl same ↦
          let s = (str_eq_iff k n).0 same in
          rw (memories-insert n k left (insert k saved records), same)
            (omega (
              arith,
              counts,
              count_value-append w (memories k records) (mem ∷ []),
              count_value-one w mem,
              ap (λ j. count_value w (memories j records)) s,
            ))
      | inr other ↦ rw (
        memories-insert n k left (insert k saved records),
        other,
        memories-insert n k saved records,
        other,
      )
    ])

find_memory-some :
    (t v : Str) (mem : DnsPresentMemory) (mems : List DnsPresentMemory)
    → mem.zone_rec.dns_record.rec_type ≡ t
    → mem.zone_rec.dns_record.value ≡ v
    → (found : DnsPresentMemory) × (find_memory t v (mems ++ mem ∷ []) ≡ some found)
      × (found.zone_rec.dns_record.rec_type ≡ t)
      × (found.zone_rec.dns_record.value ≡ v)
unfolding find_memory
find_memory-some t v mem [] e f = (mem, ground (arith, e, f, str_eq_refl t, str_eq_refl v), e, f)
find_memory-some t v mem (x ∷ xs) e f =
    elim (Bool-cases
      (str_eq x.zone_rec.dns_record.rec_type t && str_eq x.zone_rec.dns_record.value v)) [
        | inl same ↦ (
          x,
          rw same,
          (str_eq_iff x.zone_rec.dns_record.rec_type t).0 (ground (arith, same)),
          (str_eq_iff x.zone_rec.dns_record.value v).0 (ground (arith, same)),
        )
        | inr other ↦
            let (found, made, g, h) = find_memory-some t v mem xs e f in
            (found, rw (other, made), g, h)
      ]

pub get-save :
    (t v : Str) (mem : DnsPresentMemory) (records : Records)
    → mem.zone_rec.dns_record.rec_type ≡ t
    → mem.zone_rec.dns_record.value ≡ v
    → (found : DnsPresentMemory) × (get_dns_present_memory mem.dns_name t v
          (save_dns_present_memory mem records)
        ≡ some found)
      × (found.zone_rec.dns_record.rec_type ≡ t)
      × (found.zone_rec.dns_record.value ≡ v)
unfolding get_dns_present_memory save_dns_present_memory
get-save t v mem records e f =
    rw
      (
        memories-insert mem.dns_name mem.dns_name (memories mem.dns_name records ++ mem ∷ [])
            records,
        str_eq_refl mem.dns_name,
      )
      (find_memory-some t v mem (memories mem.dns_name records) e f)
