-- ===== src/Maintenance/Growing.antt =====
-- maintain.go: the queues of RenewManagedCertificates keep what they have.
use certmagic.Prelude.{
  ◌≡◌, inl, inr, refl, sym, ◌∙◌, subst, Bool, true, false, not, ◌&&◌, Bool-cases, Option, none,
  some, List, [], ◌∷◌, ◌++◌, if◌then◌else◌, Among, Str, str_eq, str_eq_iff, Dict, Result,
  Result-cases, ok, err,
}
use certmagic.Certificate.{Certificate, Ratios, Panic, needs_renewal}
use certmagic.Storage.Backend.{Storage}
use certmagic.Config.Resources.{Encoding}
use certmagic.Maintenance.{
  Managing, Queues, has_hash, insert_cert, Stored, renewed, not_renewed, unknown, Surroundings,
  look_up_stored, queue_due, queue_ari, queue_managed, with_config, visit_named, visit, scan,
}

pub if-false : {A : Type 0} (b : Bool) (x y : A) → b ≡ false → (if b then x else y) ≡ y
if-false true x y h = cc
if-false false x y h = refl

-- A list keeps what it has.
abbrev pub Keeps : List Certificate → List Certificate → Type 0
Keeps xs ys = (c : Certificate) → Among c xs → Among c ys

Keeps-append : (xs ys : List Certificate) → Keeps xs (xs ++ ys)
Keeps-append [] ys c a = absurd a
Keeps-append (x ∷ xs) ys c (inl e) = inl e
Keeps-append (x ∷ xs) ys c (inr a) = inr (Keeps-append xs ys c a)

pub last_one : (xs : List Certificate) (x : Certificate) → Among x (xs ++ x ∷ [])
last_one [] x = inl refl
last_one (y ∷ xs) x = inr (last_one xs x)

-- A certificate with the hash is in the list.
abbrev pub HasHash : Str → List Certificate → Type 0
HasHash h certs = (c : Certificate) × Among c certs × (c.hash ≡ h)

has_hash-true : (h : Str) (certs : List Certificate) → has_hash h certs ≡ true → HasHash h certs
unfolding has_hash
has_hash-true h [] e = cc
has_hash-true h (c ∷ certs) e = elim (Bool-cases (str_eq c.hash h)) [
  | inl same ↦ (c, inl refl, (str_eq_iff c.hash h).0 same)
  | inr other ↦ let (d, a, is) = has_hash-true h certs (rw (has_hash, other) at e) in (d, inr a, is)
]

pub insert_cert-Keeps :
    (cert : Certificate) (certs : List Certificate) → Keeps certs (insert_cert cert certs)
unfolding insert_cert
insert_cert-Keeps cert certs = elim (Bool-cases (has_hash cert.hash certs)) [
  | inl there ↦ rw (insert_cert, there) (λ c a. a)
  | inr missing ↦ rw (insert_cert, missing) (Keeps-append certs (cert ∷ []))
]

pub insert_cert-HasHash :
    (cert : Certificate) (certs : List Certificate) → HasHash cert.hash (insert_cert cert certs)
unfolding insert_cert
insert_cert-HasHash cert certs = elim (Bool-cases (has_hash cert.hash certs)) [
  | inl there ↦ rw (insert_cert, there) (has_hash-true cert.hash certs there)
  | inr missing ↦ rw (insert_cert, missing) (cert, last_one certs cert, refl)
]

module _ (st : Storage) (enc : Encoding) (f : Ratios) (env : Surroundings f st.State) where
  open st use {State}

  -- The queues keep what they have.
  pub record Grows (q q' : Queues f State) : Type 0 where
    pub renewals : Keeps q.renewals q'.renewals
    pub reloads : Keeps q.reloads q'.reloads

  same_queues : (q : Queues f State) → Grows q q
  same_queues q = record { renewals = λ c a. a; reloads = λ c a. a }

  further : (p q r : Queues f State) → Grows p q → Grows q r → Grows p r
  further p q r g h = record {
    renewals = λ c a. h.renewals c (g.renewals c a);
    reloads = λ c a. h.reloads c (g.reloads c a);
  }

  pub queue_ari-Grows :
      (cfg : Managing f State) (cert : Certificate) (q : Queues f State)
      → Grows q (queue_ari st enc f env cfg cert q)
  unfolding queue_ari
  queue_ari-Grows cfg cert q =
      elim (Bool-cases (not (cfg.renewing.disable_ari) && env.needs_refresh cert.ari)) [
        | inl wanted ↦ rw (queue_ari, wanted) (record { renewals = λ c a. a; reloads = λ c a. a })
        | inr unwanted ↦ rw (queue_ari, unwanted) (same_queues q)
      ]

  pub queue_due-Grows :
      (cfg : Managing f State) (cert : Certificate) (stored : Stored) (q : Queues f State)
      → Grows q (queue_due st enc f env cfg cert stored q)
  unfolding queue_due
  queue_due-Grows cfg cert renewed q = record {
    renewals = λ c a. a;
    reloads = Keeps-append q.reloads (cert ∷ []);
  }
  queue_due-Grows cfg cert not_renewed q = record {
    renewals = insert_cert-Keeps cert q.renewals;
    reloads = λ c a. a;
  }
  queue_due-Grows cfg cert unknown q = record {
    renewals = insert_cert-Keeps cert q.renewals;
    reloads = λ c a. a;
  }

  queue_managed-Grows :
      (cfg : Managing f State) (cert : Certificate) (s : State) (q q' : Queues f State)
      (due : Result Panic Bool)
      → queue_managed st enc f env cfg cert s q due ≡ ok q'
      → Grows q q'
  unfolding queue_managed
  queue_managed-Grows cfg cert s q q' (err p) e = cc
  queue_managed-Grows cfg cert s q q' (ok false) e =
      let same : q ≡ q' = cc in subst (Grows q) same (same_queues q)
  queue_managed-Grows cfg cert s q q' (ok true) e =
      elim (Result-cases (look_up_stored st enc f env cfg cert s)) [
        | inr (p, bad) ↦ let x = rw (queue_managed, bad) at e in cc
        | inl (stored, good) ↦
            let x : ok (queue_due st enc f env cfg cert stored q) ≡ ok q' =
              (rw (queue_managed, good) at e) in
            let same : queue_due st enc f env cfg cert stored q ≡ q' = cc in
            subst (Grows q) same (queue_due-Grows cfg cert stored q)
      ]

  pub off_demand :
      (cert : Certificate) (s : State) (q : Queues f State) (cfg : Managing f State)
      → cfg.on_demand ≡ false
      → with_config st enc f env cert s q (some (some cfg))
        ≡ queue_managed st enc f env cfg cert s
            (queue_ari st enc f env cfg cert q)
            (needs_renewal f cfg.renewing env.time (env.draw cert) cert)
  unfolding with_config
  off_demand cert s q cfg off = if-false cfg.on_demand _ _ off

  with_config-Grows :
      (cert : Certificate) (s : State) (q q' : Queues f State)
      (cfg : Option (Option (Managing f State)))
      → with_config st enc f env cert s q cfg ≡ ok q'
      → Grows q q'
  unfolding with_config
  with_config-Grows cert s q q' none e =
      let same : q ≡ q' = cc in subst (Grows q) same (same_queues q)
  with_config-Grows cert s q q' (some none) e =
      let same : q ≡ q' = cc in subst (Grows q) same (same_queues q)
  with_config-Grows cert s q q' (some (some cfg)) e = elim (Bool-cases cfg.on_demand) [
    | inl on ↦
        let run : with_config st enc f env cert s q (some (some cfg)) ≡ ok q =
          (simp (with_config, on) refl) in
        let x = sym run ∙ e in let same : q ≡ q' = cc in subst (Grows q) same (same_queues q)
    | inr off ↦ further q (queue_ari st enc f env cfg cert q) q' (queue_ari-Grows cfg cert q) (
        queue_managed-Grows cfg cert s (queue_ari st enc f env cfg cert q) q'
          (needs_renewal f cfg.renewing env.time (env.draw cert) cert)
          (sym (off_demand cert s q cfg off) ∙ e))
  ]

  visit_named-Grows :
      (cert : Certificate) (s : State) (q q' : Queues f State) (names : List Str)
      → visit_named st enc f env cert s q names ≡ ok q'
      → Grows q q'
  unfolding visit_named
  visit_named-Grows cert s q q' [] e =
      let same : record q { deletions = q.deletions ++ cert ∷ [] } ≡ q' = cc in
      subst (Grows q) same (record { renewals = λ c a. a; reloads = λ c a. a })
  visit_named-Grows cert s q q' (_ ∷ _) e = with_config-Grows cert s q q' (env.get_config cert) e

  pub visit-Grows :
      (cert : Certificate) (s : State) (q q' : Queues f State)
      → visit st enc f env cert s q ≡ ok q'
      → Grows q q'
  unfolding visit
  visit-Grows cert s q q' e = elim (Bool-cases cert.managed) [
    | inr unmanaged ↦
        let run : visit st enc f env cert s q ≡ ok q = (simp (visit, unmanaged) refl) in
        let x = sym run ∙ e in let same : q ≡ q' = cc in subst (Grows q) same (same_queues q)
    | inl managed ↦
        let run : visit st enc f env cert s q ≡ visit_named st enc f env cert s q cert.names =
          (simp (visit, managed) refl) in
        visit_named-Grows cert s q q' cert.names (sym run ∙ e)
  ]

  pub scan-Grows :
      (certs : Dict Certificate) (s : State) (q q' : Queues f State)
      → scan st enc f env certs s q ≡ ok q'
      → Grows q q'
  unfolding scan
  scan-Grows [] s q q' e = let same : q ≡ q' = cc in subst (Grows q) same (same_queues q)
  scan-Grows ((h, cert) ∷ certs) s q q' e = elim (Result-cases (visit st enc f env cert s q)) [
    | inr (p, bad) ↦ let x = rw (scan, bad) at e in cc
    | inl (q1, good) ↦
        further q q1 q' (visit-Grows cert s q q1 good)
          (scan-Grows certs s q1 q' (rw (scan, good) at e))
  ]
