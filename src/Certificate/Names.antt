-- ===== src/Certificate/Names.antt =====
-- The labels of a domain name, as strings.Split and strings.Join give them, and the names that
-- the loops of AllMatchingCertificates, getCertificateFromCache and MatchWildcard try.
use mathlib.Core.List.{append_assoc}
use certmagic.Prelude.{
  inl, inr, ℕ, zero, suc, ◌+◌, ◌<◌, ◌≡◌, ◌≢◌, refl, ap, ◌∙◌, false, some, Bool-cases, List, [], ◌∷◌,
  ◌++◌, ◌==◌, if◌then◌else◌, length, get_elem?, drop, replicate, Str, codes, arith,
}

abbrev pub star : Str
star = codes "*"

cons_head : ℕ → List Str → List Str
cons_head c [] = (c ∷ []) ∷ []
cons_head c (l ∷ ls) = (c ∷ l) ∷ ls

-- strings.Split(s, d) for a separator of one byte
unfoldable pub split_on : ℕ → Str → List Str
unfolding cons_head
split_on d [] = [] ∷ []
split_on d (c ∷ s) = let rest = split_on d s in if c == d then [] ∷ rest else cons_head c rest

-- strings.Join(labels, d) for a separator of one byte
unfoldable pub join_with : ℕ → List Str → Str
join_with d [] = []
join_with d (l ∷ []) = l
join_with d (l ∷ m ∷ ls) = l ++ d ∷ join_with d (m ∷ ls)

abbrev pub labels_of : Str → List Str
labels_of = split_on b'.'

abbrev pub join_labels : List Str → Str
join_labels = join_with b'.'

-- The loop that replaces one label after the other by a star; `done` are the labels replaced.
unfoldable pub wildcards_from : List Str → List Str → List Str
wildcards_from done [] = []
wildcards_from done (l ∷ rest) =
    join_labels (done ++ star ∷ rest) ∷ wildcards_from (done ++ star ∷ []) rest

unfoldable pub wildcards : Str → List Str
unfolding wildcards_from
wildcards name = wildcards_from [] (labels_of name)

unfoldable pub count_byte : ℕ → Str → ℕ
count_byte d [] = 0
count_byte d (c ∷ s) = if c == d then suc (count_byte d s) else count_byte d s

pub count_byte-append :
    (d : ℕ) (s t : Str) → count_byte d (s ++ t) ≡ count_byte d s + count_byte d t
unfolding count_byte
count_byte-append d [] t = omega arith
count_byte-append d (c ∷ s) t = ground (arith, count_byte-append d s t)

pub length-split_on : (d : ℕ) (s : Str) → length (split_on d s) ≡ suc (count_byte d s)
unfolding split_on count_byte
length-split_on d [] = refl
length-split_on d (c ∷ s) = ground (arith, length-split_on d s, length-cons_head c (split_on d s))
  where
    length-cons_head : (c : ℕ) (ls : List Str) → length ls ≢ 0 → length (cons_head c ls) ≡ length ls
    length-cons_head c [] h = absurd (h refl)
    length-cons_head c (l ∷ ls) h = refl

-- Labels that hold no separator.
abbrev pub Plain : ℕ → List Str → Type 0
Plain d [] = Unit {0}
Plain d (l ∷ ls) = (count_byte d l ≡ 0) × Plain d ls

pub split_on-Plain : (d : ℕ) (s : Str) → Plain d (split_on d s)
unfolding split_on count_byte
split_on-Plain d [] = (refl, tt)
split_on-Plain d (c ∷ s) = elim (Bool-cases (c == d)) [
  | inl e ↦ rw e (refl, split_on-Plain d s)
  | inr e ↦ rw e (go (split_on d s) e (split_on-Plain d s))
]
  where
    go : (ls : List Str) → (c == d) ≡ false → Plain d ls → Plain d (cons_head c ls)
    go [] e p = (ground (arith, e), tt)
    go (l ∷ ls) e p = (ground (arith, e, p.0), p.1)

join-cons_head :
    (d c : ℕ) (ls : List Str) → ls ≢ [] → join_with d (cons_head c ls) ≡ c ∷ join_with d ls
unfolding join_with cons_head
join-cons_head d c [] h = absurd (h refl)
join-cons_head d c (l ∷ []) h = refl
join-cons_head d c (l ∷ m ∷ ls) h = refl

join-empty : (d : ℕ) (ls : List Str) → ls ≢ [] → join_with d ([] ∷ ls) ≡ d ∷ join_with d ls
unfolding join_with
join-empty d [] h = absurd (h refl)
join-empty d (l ∷ ls) h = refl

pub split_on-ne-nil : (d : ℕ) (s : Str) → split_on d s ≢ []
split_on-ne-nil d s e = absurd (omega (arith, length-split_on d s, ap length e))

pub join-split : (d : ℕ) (s : Str) → join_with d (split_on d s) ≡ s
unfolding split_on
join-split d [] = unfold join_with in refl
join-split d (c ∷ s) = elim (Bool-cases (c == d)) [
  | inl e ↦
      let same : c ≡ d = ground (arith, e) in
      rw e (join-empty d (split_on d s) (split_on-ne-nil d s) ∙ rw (same, join-split d s))
  | inr e ↦ rw e (join-cons_head d c (split_on d s) (split_on-ne-nil d s) ∙ rw (join-split d s))
]

-- A joined name has one separator fewer than it has labels.
pub count-join :
    (d : ℕ) (l : Str) (ls : List Str)
    → Plain d (l ∷ ls)
    → count_byte d (join_with d (l ∷ ls)) ≡ length ls
unfolding join_with
count-join d l [] p = p.0
count-join d l (m ∷ ls) p = ground (
  arith,
  count_byte-append d l (d ∷ join_with d (m ∷ ls)),
  count-join d m ls p.1,
  count_byte-cons d (join_with d (m ∷ ls)),
)
  where
    count_byte-cons : (d : ℕ) (s : Str) → count_byte d (d ∷ s) ≡ suc (count_byte d s)
    count_byte-cons d s = unfold count_byte in ground arith

pub Plain-append : (d : ℕ) (ls ms : List Str) → Plain d ls → Plain d ms → Plain d (ls ++ ms)
Plain-append d [] ms p q = q
Plain-append d (l ∷ ls) ms p q = (p.0, Plain-append d ls ms p.1 q)

-- The first k + 1 labels of a name replaced by stars.
unfoldable pub wildcard_name : Str → ℕ → Str
wildcard_name name k = join_labels (replicate (suc k) star ++ drop (suc k) (labels_of name))

wildcards_from_lem :
    (done ls : List Str) (k : ℕ)
    → k < length ls
    → get_elem? (wildcards_from done ls) k
      ≡ some (join_labels (done ++ (replicate (suc k) star ++ drop (suc k) ls)))
unfolding wildcards_from
wildcards_from_lem done [] k h = elim h [ ]
wildcards_from_lem done (l ∷ ls) zero h = refl
wildcards_from_lem done (l ∷ ls) (suc k) h =
    wildcards_from_lem (done ++ star ∷ []) ls k (omega arith)
    ∙ rw (append_assoc done (star ∷ []) (replicate (suc k) star ++ drop (suc k) ls))

length-wildcards_from : (done ls : List Str) → length (wildcards_from done ls) ≡ length ls
unfolding wildcards_from
length-wildcards_from done [] = refl
length-wildcards_from done (l ∷ ls) = ap suc (length-wildcards_from (done ++ star ∷ []) ls)

-- The loop over the labels tries, for each label in turn, the name in which it and the labels
-- before it are replaced, and nothing else.
pub get_elem?-wildcards :
    (name : Str) (k : ℕ)
    → k < suc (count_byte b'.' name)
    → (get_elem? (wildcards name) k ≡ some (wildcard_name name k))
      × (length (wildcards name) ≡ suc (count_byte b'.' name))
unfolding wildcards wildcard_name
get_elem?-wildcards name k h = (
  wildcards_from_lem [] (labels_of name) k (omega (arith, length-split_on b'.' name)),
  length-wildcards_from [] (labels_of name) ∙ length-split_on b'.' name,
)
