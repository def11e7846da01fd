-- ===== src/Solvers/Counts.antt =====
-- solvers.go: the counts of the challenges that use a server.
use certmagic.Prelude.{
  ℕ, zero, suc, ◌≡◌, inl, inr, refl, ap, ◌∙◌, subst, false, Bool-cases, Option, none, some, List,
  [], ◌∷◌, Str, str_eq_refl, lookup, insert, delete, lookup-insert, lookup-delete, pos,
}
use certmagic.Solvers.Active.{
  SolverInfo, Servers, or_new, get_solver_info, Listening, plus_one, minus_one, is_zero_int,
  is_bound, http_present, http_clean_up,
}

-- What is done at the address: a challenge is presented or cleaned up.
pub data Use : Type 0 where
  presents : Listening → Use
  cleans_up : Use

unfoldable pub use_server : Str → List Use → Servers → Servers
unfolding http_present http_clean_up
use_server address [] servers = servers
use_server address (presents answer ∷ uses) servers =
    use_server address uses (http_present address answer servers).0
use_server address (cleans_up ∷ uses) servers =
    use_server address uses (http_clean_up address servers)

-- How many challenges are left; none if one is cleaned up that was not presented.
unfoldable pub left : ℕ → List Use → Option ℕ
left n [] = some n
left n (presents answer ∷ uses) = left (suc n) uses
left zero (cleans_up ∷ uses) = none
left (suc n) (cleans_up ∷ uses) = left n uses

-- The address has an entry with the count if the count is not zero, and none if it is.
abbrev pub Counts : Str → ℕ → Servers → Type 0
Counts address zero servers = lookup address servers ≡ none
Counts address (suc n) servers =
    (si : SolverInfo) × (lookup address servers ≡ some si) × (si.count ≡ pos (suc n))

set :
    (address : Str) (si : SolverInfo) (servers : Servers)
    → lookup address (insert address si servers) ≡ some si
set address si servers = lookup-insert address address si servers ∙ rw (str_eq_refl address) refl

unset : (address : Str) (servers : Servers) → lookup address (delete address servers) ≡ none
unset address servers = lookup-delete address address servers ∙ rw (str_eq_refl address) refl

counted :
    (address : Str) (answer : Listening) (si : SolverInfo) (servers : Servers)
    → get_solver_info address servers ≡ si
    → (si' : SolverInfo) × (lookup address (http_present address answer servers).0 ≡ some si')
      × (si'.count ≡ plus_one si.count)
unfolding http_present
counted address answer si servers e =
    elim (Bool-cases (get_solver_info address servers).listening) [
      | inl on ↦ (
        record (get_solver_info address servers) {
          count = plus_one (get_solver_info address servers).count;
        },
        simp (http_present, on) (set address _ servers),
        ap (λ x. plus_one x.count) e,
      )
      | inr off ↦ (
        record (get_solver_info address servers) {
          count = plus_one (get_solver_info address servers).count;
          listening = is_bound answer;
        },
        simp (http_present, off) (set address _ servers),
        ap (λ x. plus_one x.count) e,
      )
    ]

present-Counts :
    (address : Str) (n : ℕ) (answer : Listening) (servers : Servers)
    → Counts address n servers
    → Counts address (suc n) (http_present address answer servers).0
unfolding get_solver_info or_new plus_one
present-Counts address zero answer servers gone =
    let (si, there, c) =
      counted address answer (record { count = pos 0; listening = false }) servers
        (ap or_new gone) in
    (si, there, c)
present-Counts address (suc n) answer servers (old, there, c) =
    let (si, there', c') = counted address answer old servers (ap or_new there) in
    (si, there', c' ∙ ap plus_one c)

clean_up-Counts :
    (address : Str) (n : ℕ) (servers : Servers)
    → Counts address (suc n) servers
    → Counts address n (http_clean_up address servers)
unfolding get_solver_info or_new http_clean_up minus_one is_zero_int
clean_up-Counts address zero servers (si, there, c) =
    let last : http_clean_up address servers ≡ delete address servers =
      (simp (http_clean_up, get_solver_info, there, c) refl) in
    ap (lookup address) last ∙ unset address servers
clean_up-Counts address (suc n) servers (si, there, c) =
    let more : http_clean_up address servers
        ≡ insert address (record si { count = pos (suc n) }) servers =
      (simp (http_clean_up, get_solver_info, there, c) refl) in
    (record si { count = pos (suc n) }, ap (lookup address) more ∙ set address _ servers, refl)

count_uses :
    (address : Str) (m n : ℕ) (uses : List Use) (servers : Servers)
    → Counts address m servers
    → left m uses ≡ some n
    → Counts address n (use_server address uses servers)
unfolding use_server left
count_uses address m n [] servers c h =
    subst (λ k. Counts address k servers) (let q : m ≡ n = cc in q) c
count_uses address m n (presents answer ∷ uses) servers c h =
    count_uses address (suc m) n uses (http_present address answer servers).0
      (present-Counts address m answer servers c) h
count_uses address zero n (cleans_up ∷ uses) servers c h = cc
count_uses address (suc m) n (cleans_up ∷ uses) servers c h =
    count_uses address m n uses (http_clean_up address servers)
      (clean_up-Counts address m servers c) h

-- After challenges were presented and cleaned up at an address without a server, in any order in
-- which none is cleaned up before it is presented, whether the server can listen or not: the entry of
-- the address counts the challenges that are left, and there is no entry if none is left.
pub use_server-Counts :
    (address : Str) (n : ℕ) (uses : List Use) (servers : Servers)
    → lookup address servers ≡ none
    → left 0 uses ≡ some n
    → Counts address n (use_server address uses servers)
use_server-Counts address n uses servers gone h = count_uses address 0 n uses servers gone h
