-- ===== src/Certificate/Wildcard.antt =====
-- certificates.go: MatchWildcard, against a description of the names that a wildcard covers.
use mathlib.Core.List.{append_assoc}
use certmagic.Prelude.{
  ℕ, zero, suc, ◌<◌, ◌≡◌, ◌≢◌, ◌↔◌, ◌⊎◌, inl, inr, refl, ap, Bool, true, false, ◌&&◌, Bool-cases,
  List, [], ◌∷◌, ◌++◌, map, if◌then◌else◌, length, get_or, take, drop, Str, str_eq, str_eq_iff,
  contains_byte, to_lower, arith,
}
use certmagic.Certificate.Names.{
  star, labels_of, join_labels, count_byte, Plain, Plain-append, split_on-Plain, length-split_on,
  count-join,
}

is_blank : Str → Bool
is_blank [] = true
is_blank (c ∷ s) = false

-- The loop over the labels; empty labels are left as they are and not tried.
match_labels : List Str → List Str → Str → Bool
unfolding is_blank
match_labels done [] wildcard = false
match_labels done (l ∷ rest) wildcard =
    let replaced = done ++ (if is_blank l then l else star) ∷ [] in
    let later = match_labels replaced rest wildcard in
    if is_blank l
    then later
    else if str_eq (join_labels (done ++ star ∷ rest)) wildcard
    then true
    else later

unfoldable pub match_wildcard : Str → Str → Bool
unfolding match_labels
match_wildcard subject wildcard =
    let s = to_lower subject in
    let w = to_lower wildcard in
    if str_eq s w then true else contains_byte b'*' w && match_labels [] (labels_of s) w

-- A label replaced by a star, unless it is empty.
unfoldable pub starred : Str → Str
starred [] = []
starred (c ∷ s) = star

-- The name in which the labels up to the one at `k` are replaced.
unfoldable pub covered : List Str → ℕ → Str
unfolding starred
covered ls k = join_labels (map starred (take (suc k) ls) ++ drop (suc k) ls)

abbrev Covers : List Str → List Str → Str → Type 0
Covers done ls w =
    (k : ℕ) × (k < length ls)
    × (get_or ls k [] ≢ [])
    × (join_labels (done ++ (map starred (take (suc k) ls) ++ drop (suc k) ls)) ≡ w)

match_labels-Covers :
    (done ls : List Str) (w : Str) → match_labels done ls w ≡ true → Covers done ls w
unfolding match_labels starred
match_labels-Covers done [] w h = absurd (ground arith)
match_labels-Covers done ([] ∷ rest) w h =
    let (k, less, full, same) = match_labels-Covers (done ++ [] ∷ []) rest w h in
    (suc k, omega arith, full, rw append_assoc at same)
match_labels-Covers done ((c ∷ l) ∷ rest) w h =
    elim (Bool-cases (str_eq (join_labels (done ++ star ∷ rest)) w)) [
      | inl e ↦ (0, omega arith, λ q. ground arith, (str_eq_iff _ _).0 e)
      | inr e ↦
          let (k, less, full, same) = match_labels-Covers (done ++ star ∷ []) rest w (rw e at h) in
          (suc k, omega arith, full, rw append_assoc at same)
    ]

Covers-match_labels :
    (done ls : List Str) (w : Str) → Covers done ls w → match_labels done ls w ≡ true
unfolding match_labels starred
Covers-match_labels done [] w (k, less, full, same) = elim less [ ]
Covers-match_labels done ([] ∷ rest) w (zero, less, full, same) = absurd (full refl)
Covers-match_labels done ([] ∷ rest) w (suc k, less, full, same) =
    Covers-match_labels (done ++ [] ∷ []) rest w (k, omega arith, full, rw append_assoc same)
Covers-match_labels done ((c ∷ l) ∷ rest) w (zero, less, full, same) = rw ((str_eq_iff _ _).1 same)
Covers-match_labels done ((c ∷ l) ∷ rest) w (suc k, less, full, same) = ground (
  arith,
  Covers-match_labels (done ++ star ∷ []) rest w (k, omega arith, full, rw append_assoc same),
)

-- A subject matches a wildcard exactly when, in lower case, they are equal, or the wildcard has a
-- star and is the subject with the labels up to one that is not empty replaced by stars, where
-- empty labels stay.
pub match_wildcard_iff :
    (subject wildcard : Str)
    → (match_wildcard subject wildcard ≡ true) ↔ (
        (to_lower subject ≡ to_lower wildcard)
        ⊎ ((contains_byte b'*' (to_lower wildcard) ≡ true)
            × ((k : ℕ) × (k < length (labels_of (to_lower subject)))
                × (get_or (labels_of (to_lower subject)) k [] ≢ [])
                × (covered (labels_of (to_lower subject)) k ≡ to_lower wildcard))))
unfolding match_wildcard covered
match_wildcard_iff subject wildcard =
    let s = to_lower subject in
    let w = to_lower wildcard in
    (
      λ h. elim (Bool-cases (str_eq s w)) [
        | inl e ↦ inl ((str_eq_iff s w).0 e)
        | inr e ↦ inr (by_star e h)
      ],
      λ h. elim h [
        | inl same ↦ rw ((str_eq_iff s w).1 same)
        | inr (has_star, covers) ↦
            ground (arith, has_star, Covers-match_labels [] (labels_of s) w covers)
      ],
    )
  where
    by_star :
        str_eq (to_lower subject) (to_lower wildcard) ≡ false
        → match_wildcard subject wildcard ≡ true
        → (contains_byte b'*' (to_lower wildcard) ≡ true)
          × Covers [] (labels_of (to_lower subject)) (to_lower wildcard)
    by_star e h =
        let loop : match_labels [] (labels_of (to_lower subject)) (to_lower wildcard) ≡ true =
          ground (arith, e, h) in
        (ground (arith, e, h), match_labels-Covers [] _ _ loop)

Plain-starred : (ls : List Str) (n : ℕ) → Plain b'.' (map starred (take n ls))
unfolding starred
Plain-starred ls zero = tt
Plain-starred [] (suc n) = tt
Plain-starred ([] ∷ ls) (suc n) = (unfold count_byte in refl, Plain-starred ls n)
Plain-starred ((c ∷ l) ∷ ls) (suc n) = (unfold count_byte in refl, Plain-starred ls n)

Plain-drop : (ls : List Str) (n : ℕ) → Plain b'.' ls → Plain b'.' (drop n ls)
Plain-drop ls zero p = p
Plain-drop [] (suc n) p = tt
Plain-drop (l ∷ ls) (suc n) p = Plain-drop ls n p.1

length-covered : (ls : List Str) (n : ℕ) → length (map starred (take n ls) ++ drop n ls) ≡ length ls
length-covered ls zero = refl
length-covered [] (suc n) = refl
length-covered (l ∷ ls) (suc n) = ap suc (length-covered ls n)

count-join_labels :
    (ls : List Str)
    → 0 < length ls
    → Plain b'.' ls
    → suc (count_byte b'.' (join_labels ls)) ≡ length ls
count-join_labels [] h p = elim h [ ]
count-join_labels (l ∷ ls) h p = ap suc (count-join b'.' l ls p)

-- A wildcard covers a subject only if the two have the same number of labels: it never stands for
-- several labels, nor for none.
pub match_wildcard_labels :
    (subject wildcard : Str)
    → match_wildcard subject wildcard ≡ true
    → count_byte b'.' (to_lower subject) ≡ count_byte b'.' (to_lower wildcard)
unfolding covered
match_wildcard_labels subject wildcard h = elim ((match_wildcard_iff subject wildcard).0 h) [
  | inl same ↦ ap (count_byte b'.') same
  | inr (has_star, (k, less, full, same)) ↦
      let ls = labels_of (to_lower subject) in
      let parts = map starred (take (suc k) ls) ++ drop (suc k) ls in
      let plain =
        Plain-append b'.' (map starred (take (suc k) ls)) (drop (suc k) ls)
          (Plain-starred ls (suc k)) (Plain-drop ls (suc k) (split_on-Plain b'.' _)) in
      let counted = count-join_labels parts (omega (arith, length-covered ls (suc k))) plain in
      omega (
        arith,
        counted,
        length-covered ls (suc k),
        length-split_on b'.' (to_lower subject),
        ap (count_byte b'.') same,
      )
]
