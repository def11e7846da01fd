-- ===== src/Storage/Parts.antt =====
-- storage.go: path.Join, on parts that it keeps as they are.
use mathlib.Core.List.{reverse, reverse-append, append_assoc, append-nil}
use certmagic.Prelude.{
  ℕ, ◌≡◌, ◌≢◌, refl, ap, sym, ◌∙◌, inl, inr, Bool, false, Bool-cases, List, [], ◌∷◌, ◌++◌, ◌==◌,
  Str, codes, str_eq, str_eq_iff, arith,
}
use certmagic.Certificate.Names.{split_on, join_with, count_byte, Plain}
use certmagic.Storage.Keys.{clean_part, clean_parts, is_rooted, clean, join_path}

-- A part of a path that path.Clean keeps as it is.
pub record IsPart (p : Str) : Type 0 where
  pub full : p ≢ []
  pub no_slash : count_byte b'/' p ≡ 0
  pub not_here : p ≢ codes "."
  pub not_up : p ≢ codes ".."

abbrev Parts : List Str → Type 0
Parts [] = Unit {0}
Parts (p ∷ ps) = IsPart p × Parts ps

split_on-none : (d : ℕ) (s : Str) → count_byte d s ≡ 0 → split_on d s ≡ s ∷ []
unfolding split_on count_byte
split_on-none d [] h = refl
split_on-none d (c ∷ s) h =
    let other : (c == d) ≡ false = ground (arith, h) in
    let rest : count_byte d s ≡ 0 = ground (arith, h) in rw (other, split_on-none d s rest)

split_on-first :
    (d : ℕ) (s t : Str) → count_byte d s ≡ 0 → split_on d (s ++ d ∷ t) ≡ s ∷ split_on d t
unfolding split_on count_byte
split_on-first d [] t h = ground arith
split_on-first d (c ∷ s) t h =
    let other : (c == d) ≡ false = ground (arith, h) in
    let rest : count_byte d s ≡ 0 = ground (arith, h) in rw (other, split_on-first d s t rest)

pub split-join :
    (d : ℕ) (l : Str) (ls : List Str)
    → Plain d (l ∷ ls)
    → split_on d (join_with d (l ∷ ls)) ≡ l ∷ ls
unfolding join_with
split-join d l [] p = split_on-none d l p.0
split-join d l (m ∷ ls) p =
    split_on-first d l (join_with d (m ∷ ls)) p.0 ∙ ap (◌∷◌ l) (split-join d m ls p.1)

Parts-Plain : (ps : List Str) → Parts ps → Plain b'/' ps
Parts-Plain [] h = tt
Parts-Plain (p ∷ ps) h = (h.0.no_slash, Parts-Plain ps h.1)

pub clean_part_kept :
    (rooted : Bool) (stack : List Str) (p : Str) → IsPart p → clean_part rooted stack p ≡ p ∷ stack
unfolding clean_part
clean_part_kept rooted stack p h = ground (
  arith,
  str_eq_iff p [],
  str_eq_iff p (codes "."),
  str_eq_iff p (codes ".."),
  h.full,
  h.not_here,
  h.not_up,
)

clean_parts_kept :
    (rooted : Bool) (stack ps : List Str)
    → Parts ps
    → clean_parts rooted stack ps ≡ reverse stack ++ ps
unfolding clean_parts
clean_parts_kept rooted stack [] h = sym (append-nil (reverse stack))
clean_parts_kept rooted stack (p ∷ ps) h = rw (clean_part_kept rooted stack p h.0) (
    clean_parts_kept rooted (p ∷ stack) ps h.1
    ∙ rw (reverse-append (p ∷ []) stack) (append_assoc (reverse stack) (p ∷ []) ps))

pub is_rooted-join :
    (p : Str) (ps : List Str) → IsPart p → is_rooted (join_with b'/' (p ∷ ps)) ≡ false
unfolding is_rooted join_with count_byte
is_rooted-join [] ps h = absurd (h.full refl)
is_rooted-join (c ∷ p) [] h = ground (arith, h.no_slash)
is_rooted-join (c ∷ p) (q ∷ ps) h = ground (arith, h.no_slash)

pub join-ne-nil : (p : Str) (ps : List Str) → p ≢ [] → join_with b'/' (p ∷ ps) ≢ []
unfolding join_with
join-ne-nil [] ps h = absurd (h refl)
join-ne-nil (c ∷ p) [] h = λ e. cc
join-ne-nil (c ∷ p) (q ∷ ps) h = λ e. cc

pub differs : (s t : Str) → s ≢ t → str_eq s t ≡ false
differs s t h = elim (Bool-cases (str_eq s t)) [
  | inl e ↦ absurd (h ((str_eq_iff s t).0 e))
  | inr e ↦ e
]

clean-join :
    (p : Str) (ps : List Str)
    → Parts (p ∷ ps)
    → clean (join_with b'/' (p ∷ ps)) ≡ join_with b'/' (p ∷ ps)
unfolding clean
clean-join p ps h = rw (
  is_rooted-join p ps h.0,
  split-join b'/' p ps (Parts-Plain (p ∷ ps) h),
  clean_parts_kept false [] (p ∷ ps) h,
  differs (join_with b'/' (p ∷ ps)) [] (join-ne-nil p ps h.0.full),
)

pub join-append :
    (d : ℕ) (p q : Str) (ps : List Str)
    → join_with d (p ∷ (ps ++ q ∷ [])) ≡ join_with d (p ∷ ps) ++ d ∷ q
unfolding join_with
join-append d p q [] = refl
join-append d p q (r ∷ ps) =
    ap (λ s. p ++ d ∷ s) (join-append d r q ps)
    ∙ sym (append_assoc p (d ∷ join_with d (r ∷ ps)) (d ∷ q))

Parts-append : (ps : List Str) (q : Str) → Parts ps → IsPart q → Parts (ps ++ q ∷ [])
Parts-append [] q h k = (k, tt)
Parts-append (p ∷ ps) q h k = (h.0, Parts-append ps q h.1 k)

-- path.Join of a clean path and a part
pub join_path-part :
    (p q : Str) (ps : List Str)
    → Parts (p ∷ ps)
    → IsPart q
    → join_path (join_with b'/' (p ∷ ps) ∷ q ∷ []) ≡ join_with b'/' (p ∷ (ps ++ q ∷ []))
unfolding join_path
join_path-part p q ps h k =
    let all = Parts-append ps q h.1 k in
    rw
      (
        differs (join_with b'/' (p ∷ ps)) [] (join-ne-nil p ps h.0.full),
        differs q [] k.full,
        pair (join_with b'/' (p ∷ ps)) q,
        ← join-append b'/' p q ps,
        differs (join_with b'/' (p ∷ (ps ++ q ∷ []))) [] (join-ne-nil p (ps ++ q ∷ []) h.0.full),
      )
      (clean-join p (ps ++ q ∷ []) (h.0, all))
  where
    pair : (s t : Str) → join_with b'/' (s ∷ t ∷ []) ≡ s ++ b'/' ∷ t
    pair s t = unfold join_with in refl
