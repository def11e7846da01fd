-- ===== src/Maintenance/Queued.antt =====
-- maintain.go: which queue a certificate that is due is put in.
use certmagic.Prelude.{
  ◌≡◌, ◌≢◌, inl, inr, refl, ap, sym, ◌∙◌, subst, true, false, not, Bool-cases, some, List, [], ◌∷◌,
  Among, Str, str_eq, Dict, lookup, Result-cases, ok,
}
use certmagic.Certificate.{Certificate, Ratios, needs_renewal}
use certmagic.Storage.Backend.{Storage}
use certmagic.Config.Resources.{Encoding}
use certmagic.Maintenance.{
  Managing, Queues, Stored, renewed, not_renewed, unknown, Surroundings, look_up_stored, queue_due,
  queue_ari, queue_managed, with_config, visit_named, visit, scan,
}
use certmagic.Maintenance.Growing.{
  if-false, last_one, HasHash, insert_cert-HasHash, Grows, off_demand, scan-Grows,
}

module _ (st : Storage) (enc : Encoding) (f : Ratios) (env : Surroundings f st.State) where
  open st use {State}

  -- A managed certificate with names, a config that is not on demand, and a time to renew.
  pub record IsDue (cfg : Managing f State) (cert : Certificate) : Type 0 where
    pub managed : cert.managed ≡ true
    pub has_names : cert.names ≢ []
    pub configured : env.get_config cert ≡ some (some cfg)
    pub off_demand : cfg.on_demand ≡ false
    pub due : needs_renewal f cfg.renewing env.time (env.draw cert) cert ≡ ok true

  visit_named-config :
      (cert : Certificate) (s : State) (q : Queues f State) (names : List Str)
      → names ≢ []
      → visit_named st enc f env cert s q names
        ≡ with_config st enc f env cert s q (env.get_config cert)
  unfolding visit_named
  visit_named-config cert s q [] full = absurd (full refl)
  visit_named-config cert s q (_ ∷ _) full = refl

  due_visited :
      (cfg : Managing f State) (cert : Certificate) (s : State) (q : Queues f State)
      → IsDue cfg cert
      → visit st enc f env cert s q
        ≡ queue_managed st enc f env cfg cert s (queue_ari st enc f env cfg cert q) (ok true)
  unfolding visit
  due_visited cfg cert s q d =
      let q' = queue_ari st enc f env cfg cert q in
      if-false (not cert.managed) (ok q) (visit_named st enc f env cert s q cert.names)
        (ap not d.managed)
      ∙ visit_named-config cert s q cert.names d.has_names
      ∙ ap (with_config st enc f env cert s q) d.configured
      ∙ off_demand st enc f env cert s q cfg d.off_demand
      ∙ ap (queue_managed st enc f env cfg cert s q') d.due

  -- What the storage says of a certificate that is due decides its queue.
  unfoldable pub Queued : Stored → Certificate → Queues f State → Type 0
  Queued renewed cert q = Among cert q.reloads
  Queued not_renewed cert q = HasHash cert.hash q.renewals
  Queued unknown cert q = HasHash cert.hash q.renewals

  queue_due-Queued :
      (cfg : Managing f State) (cert : Certificate) (stored : Stored) (q : Queues f State)
      → Queued stored cert (queue_due st enc f env cfg cert stored q)
  unfolding Queued queue_due
  queue_due-Queued cfg cert renewed q = last_one q.reloads cert
  queue_due-Queued cfg cert not_renewed q = insert_cert-HasHash cert q.renewals
  queue_due-Queued cfg cert unknown q = insert_cert-HasHash cert q.renewals

  stays :
      (stored : Stored) (cert : Certificate) (q q' : Queues f State)
      → Grows st enc f env q q'
      → Queued stored cert q
      → Queued stored cert q'
  unfolding Queued
  stays renewed cert q q' g a = g.reloads cert a
  stays not_renewed cert q q' g (c, a, e) = (c, g.renewals c a, e)
  stays unknown cert q q' g (c, a, e) = (c, g.renewals c a, e)

  visit-Queued :
      (cfg : Managing f State) (cert : Certificate) (s : State) (q q' : Queues f State)
      (stored : Stored)
      → IsDue cfg cert
      → look_up_stored st enc f env cfg cert s ≡ ok stored
      → visit st enc f env cert s q ≡ ok q'
      → Queued stored cert q'
  unfolding queue_managed
  visit-Queued cfg cert s q q' stored d known e =
      let q1 = queue_ari st enc f env cfg cert q in
      let run : queue_managed st enc f env cfg cert s q1 (ok true)
          ≡ ok (queue_due st enc f env cfg cert stored q1) =
        (simp (queue_managed, known) refl) in
      let x = sym run ∙ (sym (due_visited cfg cert s q d) ∙ e) in
      let same : queue_due st enc f env cfg cert stored q1 ≡ q' = cc in
      subst (Queued stored cert) same (queue_due-Queued cfg cert stored q1)

  -- A scan that does not panic queues each certificate that is due: for reloading if the stored one
  -- is renewed, and for renewal, under its hash, if it is not or if that cannot be told.
  pub scan-Queued :
      (certs : Dict Certificate) (s : State) (q q' : Queues f State) (h : Str) (cert : Certificate)
      (cfg : Managing f State) (stored : Stored)
      → lookup h certs ≡ some cert
      → IsDue cfg cert
      → look_up_stored st enc f env cfg cert s ≡ ok stored
      → scan st enc f env certs s q ≡ ok q'
      → Queued stored cert q'
  unfolding scan lookup
  scan-Queued [] s q q' h cert cfg stored there d known e = cc
  scan-Queued ((k, first) ∷ certs) s q q' h cert cfg stored there d known e =
      elim (Result-cases (visit st enc f env first s q)) [
        | inr (p, bad) ↦ let x = rw (scan, bad) at e in cc
        | inl (q1, good) ↦
            let rest : scan st enc f env certs s q1 ≡ ok q' = (rw (scan, good) at e) in
            elim (Bool-cases (str_eq k h)) [
              | inl same ↦
                  let x : some first ≡ some cert = (rw (lookup, same) at there) in
                  let is : first ≡ cert = cc in
                  stays stored cert q1 q' (scan-Grows st enc f env certs s q1 q' rest) (
                    visit-Queued cfg cert s q q1 stored d known
                      (subst (λ c. visit st enc f env c s q ≡ ok q1) is good))
              | inr other ↦
                  scan-Queued certs s q1 q' h cert cfg stored (rw (lookup, other) at there) d known
                    rest
            ]
      ]
