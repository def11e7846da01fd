-- ===== src/Cache/Index.antt =====
-- cache.go: what the loops over the name index do to it, name by name.
use certmagic.Prelude.{
  ◌≡◌, refl, ◌∙◌, inl, inr, Bool, true, false, not, ◌&&◌, ◌||◌, Bool-cases, none, some, List, [],
  ◌∷◌, ◌++◌, if◌then◌else◌, Str, str_eq, str_eq_iff, str_eq_refl, elem, Dict, lookup, insert,
  delete, lookup-insert, lookup-delete, arith,
}
use certmagic.Cache.{or_nil, without, unindex, unindex_all, index_names}

pub elem-append : (s : Str) (xs ys : List Str) → elem s (xs ++ ys) ≡ (elem s xs || elem s ys)
unfolding elem
elem-append s [] ys = refl
elem-append s (x ∷ xs) ys = ground (arith, elem-append s xs ys)

elem-without : (k h : Str) (ks : List Str) → elem k (without h ks) ≡ (not (str_eq k h) && elem k ks)
unfolding elem without
elem-without k h [] = ground arith
elem-without k h (x ∷ ks) =
    ground (arith, elem-without k h ks, str_eq_iff k h, str_eq_iff k x, str_eq_iff x h)

-- The keys of a name in an index.
abbrev pub keys : Str → Dict (List Str) → List Str
keys n index = or_nil (lookup n index)

keys-insert :
    (n name : Str) (ks : List Str) (index : Dict (List Str))
    → keys n (insert name ks index) ≡ (if str_eq name n then ks else keys n index)
keys-insert n name ks index = rw (lookup-insert n name ks index) (go (str_eq name n))
  where
    go :
        (b : Bool)
        → or_nil (if b then some ks else lookup n index) ≡ (if b then ks else keys n index)
    go true = refl
    go false = refl

keys-unindex :
    (n h name : Str) (index : Dict (List Str))
    → keys n (unindex h name index)
      ≡ (if str_eq name n then without h (keys name index) else keys n index)
unfolding unindex
keys-unindex n h name index = go (without h (keys name index))
  where
    go :
        (left : List Str)
        → keys n (elim left [ [] ↦ delete name index | k ∷ ks ↦ insert name (k ∷ ks) index ])
          ≡ (if str_eq name n then left else keys n index)
    go [] = rw (lookup-delete n name index) (split (str_eq name n))
      where
        split :
            (b : Bool)
            → or_nil (if b then none else lookup n index) ≡ (if b then [] else keys n index)
        split true = refl
        split false = refl
    go (k ∷ ks) = keys-insert n name (k ∷ ks) index

pub elem-keys-unindex_all :
    (k n h : Str) (names : List Str) (index : Dict (List Str))
    → elem k (keys n (unindex_all h names index))
      ≡ (not (str_eq k h && elem n names) && elem k (keys n index))
unfolding unindex_all
elem-keys-unindex_all k n h [] index = unfold elem in ground arith
elem-keys-unindex_all k n h (name ∷ names) index =
    elem-keys-unindex_all k n h names (unindex h name index)
    ∙ rw (keys-unindex n h name index) (
        unfold elem in
        elim (Bool-cases (str_eq name n)) [
          | inl e ↦
              let same = (str_eq_iff name n).0 e in
              rw e (ground (arith, same, str_eq_refl n, elem-without k h (keys name index)))
          | inr e ↦ rw e (ground (arith, e, str_eq_iff n name, str_eq_iff name n))
        ])

pub elem-keys-index_names :
    (k n h : Str) (names : List Str) (index : Dict (List Str))
    → elem k (keys n (index_names h names index))
      ≡ (elem k (keys n index) || (str_eq k h && elem n names))
unfolding index_names
elem-keys-index_names k n h [] index = unfold elem in ground arith
elem-keys-index_names k n h (name ∷ names) index =
    elem-keys-index_names k n h names (insert name (keys name index ++ h ∷ []) index)
    ∙ rw (keys-insert n name (keys name index ++ h ∷ []) index) (
        unfold elem in
        elim (Bool-cases (str_eq name n)) [
          | inl e ↦
              let same = (str_eq_iff name n).0 e in
              rw e (ground (arith, same, str_eq_refl n, elem-append k (keys name index) (h ∷ [])))
          | inr e ↦ rw e (ground (arith, e, str_eq_iff n name, str_eq_iff name n))
        ])
