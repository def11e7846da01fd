-- ===== src/Storage/Safe.antt =====
-- storage.go: what KeyBuilder.Safe gives, and when it is idempotent.
use mathlib.Core.List.{reverse, reverse-append, reverse-reverse}
use certmagic.Prelude.{
  ℕ, ◌≡◌, refl, ap, ap₂, inl, inr, Bool, true, false, not, ◌&&◌, ◌||◌, Bool-cases, [], ◌∷◌, ◌++◌,
  leb, ◌==◌, Str, to_lower, is_space, trim_left, trim_space, arith,
}
use certmagic.Storage.Keys.{replacement, replace, is_key_byte, keep_key_bytes, safe}

-- Every byte passes a test.
abbrev pub AllBytes : (ℕ → Bool) → Str → Type 0
AllBytes p [] = Unit {0}
AllBytes p (c ∷ s) = (p c ≡ true) × AllBytes p s

abbrev is_lower : ℕ → Bool
is_lower c = not (leb b'A' c && leb c b'Z')

-- A byte that safeKeyRE leaves and that ToLower does not change.
abbrev pub is_safe_byte : ℕ → Bool
is_safe_byte c = is_key_byte c && is_lower c

-- Whether two dots stand side by side.
unfoldable pub has_dots : Str → Bool
has_dots [] = false
has_dots (c ∷ []) = false
has_dots (c ∷ d ∷ s) = (c == b'.' && d == b'.') || has_dots (d ∷ s)

module _ (p : ℕ → Bool) where
  AllBytes-append : (s t : Str) → AllBytes p s → AllBytes p t → AllBytes p (s ++ t)
  AllBytes-append [] t a b = b
  AllBytes-append (c ∷ s) t a b = (a.0, AllBytes-append s t a.1 b)

  AllBytes-reverse : (s : Str) → AllBytes p s → AllBytes p (reverse s)
  AllBytes-reverse [] a = tt
  AllBytes-reverse (c ∷ s) a =
      rw (reverse-append (c ∷ []) s)
        (AllBytes-append (reverse s) (c ∷ []) (AllBytes-reverse s a.1) (a.0, tt))

  AllBytes-trim_left : (s : Str) → AllBytes p s → AllBytes p (trim_left s)
  unfolding trim_left
  AllBytes-trim_left [] a = tt
  AllBytes-trim_left (c ∷ s) a = elim (Bool-cases (is_space c)) [
    | inl e ↦ rw e (AllBytes-trim_left s a.1)
    | inr e ↦ rw e a
  ]

  AllBytes-trim_space : (s : Str) → AllBytes p s → AllBytes p (trim_space s)
  unfolding trim_space
  AllBytes-trim_space s a = AllBytes-reverse (trim_left (reverse (trim_left s))) (
      AllBytes-trim_left (reverse (trim_left s))
        (AllBytes-reverse (trim_left s) (AllBytes-trim_left s a)))

AllBytes-to_lower : (s : Str) → AllBytes is_lower (to_lower s)
unfolding to_lower
AllBytes-to_lower [] = tt
AllBytes-to_lower (c ∷ s) = (ground arith, AllBytes-to_lower s)

AllBytes-replacement : (c : ℕ) → is_lower c ≡ true → AllBytes is_lower (replacement c)
unfolding replacement
AllBytes-replacement c h = ground arith

AllBytes-replace : (s : Str) → AllBytes is_lower s → AllBytes is_lower (replace s)
unfolding replace
AllBytes-replace [] a = tt
AllBytes-replace (c ∷ []) a = AllBytes-replacement c a.0
AllBytes-replace (c ∷ d ∷ s) a = elim (Bool-cases (c == b'.' && d == b'.')) [
  | inl e ↦ rw (e, replace) (AllBytes-replace s a.1.1)
  | inr e ↦
      rw (e, replace)
        (AllBytes-append is_lower (replacement c) (replace (d ∷ s)) (AllBytes-replacement c a.0)
          (AllBytes-replace (d ∷ s) a.1))
]

AllBytes-keep : (s : Str) → AllBytes is_lower s → AllBytes is_safe_byte (keep_key_bytes s)
unfolding keep_key_bytes
AllBytes-keep [] a = tt
AllBytes-keep (c ∷ s) a = elim (Bool-cases (is_key_byte c)) [
  | inl e ↦ rw e (rw (e, a.0), AllBytes-keep s a.1)
  | inr e ↦ rw e (AllBytes-keep s a.1)
]

-- Every byte of a sanitized string is a lower-case letter, a digit, or one of _ @ . and -; there is
-- no slash, no space and no capital letter.
pub safe-AllBytes : (s : Str) → AllBytes is_safe_byte (safe s)
unfolding safe
safe-AllBytes s =
    AllBytes-keep _
      (AllBytes-replace _ (AllBytes-trim_space is_lower (to_lower s) (AllBytes-to_lower s)))

to_lower_same : (s : Str) → AllBytes is_safe_byte s → to_lower s ≡ s
unfolding to_lower
to_lower_same [] a = refl
to_lower_same (c ∷ s) a = ap₂ ◌∷◌ (ground (arith, a.0)) (to_lower_same s a.1)

trim_left_same : (s : Str) → AllBytes is_safe_byte s → trim_left s ≡ s
unfolding trim_left
trim_left_same [] a = refl
trim_left_same (c ∷ s) a = let e : is_space c ≡ false = ground (arith, a.0) in rw e

trim_space_same : (s : Str) → AllBytes is_safe_byte s → trim_space s ≡ s
unfolding trim_space
trim_space_same s a =
    rw (trim_left_same s a, trim_left_same (reverse s) (AllBytes-reverse is_safe_byte s a))
      (reverse-reverse s)

replacement_same : (c : ℕ) → is_safe_byte c ≡ true → replacement c ≡ c ∷ []
unfolding replacement
replacement_same c a = ground arith

replace_same : (s : Str) → AllBytes is_safe_byte s → has_dots s ≡ false → replace s ≡ s
unfolding replace has_dots
replace_same [] a h = refl
replace_same (c ∷ []) a h = replacement_same c a.0
replace_same (c ∷ d ∷ s) a h =
    let apart : (c == b'.' && d == b'.') ≡ false = ground (arith, h) in
    let rest : has_dots (d ∷ s) ≡ false = ground (arith, h) in
    rw (apart, replace, replacement_same c a.0) (ap (◌∷◌ c) (replace_same (d ∷ s) a.1 rest))

keep_same : (s : Str) → AllBytes is_safe_byte s → keep_key_bytes s ≡ s
unfolding keep_key_bytes
keep_same [] a = refl
keep_same (c ∷ s) a =
    let e : is_key_byte c ≡ true = ground (arith, a.0) in rw e (ap (◌∷◌ c) (keep_same s a.1))

-- Sanitizing is idempotent on a string whose sanitized form has no two dots side by side.
pub safe-safe : (s : Str) → has_dots (safe s) ≡ false → safe (safe s) ≡ safe s
safe-safe s h = again (safe s) (safe-AllBytes s) h
  where
    again : (t : Str) → AllBytes is_safe_byte t → has_dots t ≡ false → safe t ≡ t
    again t a h =
        unfold safe in
        rw (to_lower_same t a, trim_space_same t a, replace_same t a h) (keep_same t a)
