-- ===== src/Solvers/Dns01.antt =====
-- solvers.go: DNS01Solver, over a DNS provider and the look-up of the zone.
use mathlib.Core.Path.{subst}
use certmagic.Prelude.{
  ℕ, ◌≡◌, refl, sym, ◌∙◌, ap, Bool, Option, none, some, List, [], ◌∷◌, ◌++◌, if◌then◌else◌, Str,
  codes, str_eq, Result, ok, err,
}
use certmagic.Dns.{Exchange, DnsError}
use certmagic.Dns.Zone.{Context, SoaCache, find_zone_by_fqdn}
use certmagic.Solvers.Memory.{
  DnsRecord, ZoneRecord, DnsPresentMemory, Records, save_dns_present_memory, get_dns_present_memory,
  delete_dns_present_memory, held, held-delete-save, get-save,
}

-- libdns's appender and deleter of records, for one record. The name of a record in its zone is
-- what libdns.RelativeName gives.
pub record DnsProvider : Type 1 where
  pub State : Type 0
  pub append_records : Str → DnsRecord → State → State × Option (List DnsRecord)
  pub delete_records : Str → DnsRecord → State → State × Bool
  pub relative_name : Str → Str → Str

-- What a look-up of a zone needs.
pub record Lookup : Type 0 where
  pub exchange : Exchange
  pub split : Str → List ℕ
  pub ctx : Context
  pub now : ℕ
  pub evicted : ℕ
  pub nameservers : List Str

pub data SolverError : Type 0 where
  no_zone : DnsError → SolverError
  append_failed not_one_record no_memory delete_failed : SolverError

-- The fields of DNSManager that are configured.
pub record DnsConfig : Type 0 where
  pub time_to_live : ℕ
  pub override_domain : Str

-- acme.Challenge: the name of its TXT record and its key authorization.
pub record Challenge : Type 0 where
  pub record_name : Str
  pub key_auth : Str

unfoldable pub dns_name_of : DnsConfig → Challenge → Str
dns_name_of cfg chal =
    if str_eq cfg.override_domain [] then chal.record_name else cfg.override_domain

abbrev pub txt : Str
txt = codes "TXT"

module _ (p : DnsProvider) where
  pub record Manager : Type 0 where
    pub provider : p.State
    pub records : Records
    pub zones : SoaCache

  unfoldable pub one_record : Str → Option (List DnsRecord) → Result SolverError ZoneRecord
  one_record zone none = err append_failed
  one_record zone (some []) = err not_one_record
  one_record zone (some (r ∷ [])) = ok (record { zone = zone; dns_record = r })
  one_record zone (some (r ∷ r' ∷ rs)) = err not_one_record

  unfoldable pub append_to :
      ℕ
      → (dns_name rec_type rec_value : Str) → Manager
      → Result DnsError Str
      → Manager × Result SolverError ZoneRecord
  unfolding one_record
  append_to ttl n t v m (err e) = (m, err (no_zone e))
  append_to ttl n t v m (ok zone) =
      let name = p.relative_name (n ++ codes ".") zone in
      let (s, results) =
        p.append_records zone (record { rec_type = t; name = name; value = v; ttl = ttl })
          m.provider in
      (record m { provider = s }, one_record zone results)

  unfoldable pub create_record :
      Lookup
      → ℕ
      → (dns_name rec_type rec_value : Str) → Manager
      → Manager × Result SolverError ZoneRecord
  unfolding append_to
  create_record look ttl n t v m =
      let (zones, zone) =
        find_zone_by_fqdn look.exchange look.split look.ctx look.now look.evicted look.nameservers n
          m.zones in
      append_to ttl n t v (record m { zones = zones }) zone

  unfoldable pub remember :
      Str → Manager × Result SolverError ZoneRecord → Manager × Option SolverError
  remember n (m, err e) = (m, some e)
  remember n (m, ok zrec) = (
    record m {
      records = save_dns_present_memory (record { dns_name = n; zone_rec = zrec }) m.records;
    },
    none,
  )

  unfoldable pub present : Lookup → DnsConfig → Challenge → Manager → Manager × Option SolverError
  unfolding create_record remember dns_name_of
  present look cfg chal m =
      let n = dns_name_of cfg chal in
      remember n (create_record look cfg.time_to_live n txt chal.key_auth m)

  -- The deletion of the record that is remembered.
  unfoldable pub clean_up_record : Option DnsPresentMemory → Manager → Manager × Option SolverError
  clean_up_record none m = (m, some no_memory)
  clean_up_record (some mem) m =
      let (s, good) = p.delete_records mem.zone_rec.zone mem.zone_rec.dns_record m.provider in
      (record m { provider = s }, if good then none else some delete_failed)

  -- The memory is deleted in any case.
  unfoldable pub clean_up : DnsConfig → Challenge → Manager → Manager × Option SolverError
  unfolding clean_up_record dns_name_of
  clean_up cfg chal m =
      let n = dns_name_of cfg chal in
      let (m', e) = clean_up_record (get_dns_present_memory n txt chal.key_auth m.records) m in
      (record m' { records = delete_dns_present_memory n chal.key_auth m'.records }, e)

  -- The provider gives back the type and the value of a record that it appends.
  abbrev pub Echoes : Type 0
  Echoes =
      (zone : Str) (r r' : DnsRecord) (s : p.State)
      → (p.append_records zone r s).1 ≡ some (r' ∷ [])
      → (r'.rec_type ≡ r.rec_type) × (r'.value ≡ r.value)

  echoed :
      (zone : Str) (r : DnsRecord) (s : p.State)
      → Echoes
      → (zrec : ZoneRecord) → one_record zone (p.append_records zone r s).1 ≡ ok zrec
      → (zrec.dns_record.rec_type ≡ r.rec_type) × (zrec.dns_record.value ≡ r.value)
  unfolding one_record
  echoed zone r s echoes zrec made = go (p.append_records zone r s).1 refl made
    where
      go :
          (o : Option (List DnsRecord))
          → (p.append_records zone r s).1 ≡ o
          → one_record zone o ≡ ok zrec
          → (zrec.dns_record.rec_type ≡ r.rec_type) × (zrec.dns_record.value ≡ r.value)
      go none e k = cc
      go (some []) e k = cc
      go (some (x ∷ [])) e k =
          let q : record { zone = zone; dns_record = x } ≡ zrec = cc in
          rw (← q) (echoes zone r x s e)
      go (some (x ∷ x' ∷ xs)) e k = cc

  -- What presenting, cleaning up included, makes of a manager.
  pub record IsCleaned (cfg : DnsConfig) (chal : Challenge) (m m' : Manager) : Type 0 where
    pub mem : DnsPresentMemory
    pub remembered :
        get_dns_present_memory (dns_name_of cfg chal) txt chal.key_auth m'.records ≡ some mem
    pub valued : mem.zone_rec.dns_record.value ≡ chal.key_auth
    pub forgotten : (n v : Str) → held n v (clean_up cfg chal m').0.records ≡ held n v m.records

  records_clean_up :
      (cfg : DnsConfig) (chal : Challenge) (m : Manager)
      → (clean_up cfg chal m).0.records
        ≡ delete_dns_present_memory (dns_name_of cfg chal) chal.key_auth m.records
  unfolding clean_up
  records_clean_up cfg chal m =
      ap (delete_dns_present_memory (dns_name_of cfg chal) chal.key_auth)
        (same (get_dns_present_memory (dns_name_of cfg chal) txt chal.key_auth m.records))
    where
      same : (o : Option DnsPresentMemory) → (clean_up_record o m).0.records ≡ m.records
      same none = unfold clean_up_record in refl
      same (some mem) = unfold clean_up_record in refl

  remembered-IsCleaned :
      (cfg : DnsConfig) (chal : Challenge) (m m1 : Manager) (zrec : ZoneRecord)
      → m1.records ≡ m.records
      → zrec.dns_record.rec_type ≡ txt
      → zrec.dns_record.value ≡ chal.key_auth
      → IsCleaned cfg chal m (remember (dns_name_of cfg chal) (m1, ok zrec)).0
  unfolding remember
  remembered-IsCleaned cfg chal m m1 zrec same typed valued =
      let new : DnsPresentMemory = record { dns_name = dns_name_of cfg chal; zone_rec = zrec } in
      let saved = save_dns_present_memory new m1.records in
      let (mem, found, of_type, of_value) =
        get-save txt chal.key_auth new m1.records typed valued in
      record {
        mem = mem;
        remembered = found;
        valued = of_value;
        forgotten = λ n v.
            ap (held n v) (
              records_clean_up cfg chal (record m1 { records = saved })
              ∙ ap (λ w. delete_dns_present_memory (dns_name_of cfg chal) w saved) (sym valued))
            ∙ held-delete-save new m1.records n v
            ∙ ap (held n v) same;
      }

  made-IsCleaned :
      (cfg : DnsConfig) (chal : Challenge) (m m1 m' : Manager) (r : Result SolverError ZoneRecord)
      → m1.records ≡ m.records
      → ((zrec : ZoneRecord)
          → r ≡ ok zrec
          → (zrec.dns_record.rec_type ≡ txt) × (zrec.dns_record.value ≡ chal.key_auth))
      → remember (dns_name_of cfg chal) (m1, r) ≡ (m', none)
      → IsCleaned cfg chal m m'
  unfolding remember
  made-IsCleaned cfg chal m m1 m' (err e) same made h = let q = ap (λ x. x.1) h in cc
  made-IsCleaned cfg chal m m1 m' (ok zrec) same made h =
      let (typed, valued) = made zrec refl in
      subst (IsCleaned cfg chal m) (ap (λ x. x.0) h)
        (remembered-IsCleaned cfg chal m m1 zrec same typed valued)

  -- When presenting a challenge succeeds, with a provider that gives back the type and the value
  -- of the record that it appends, then cleaning up finds a memory of a record with the key
  -- authorization, and leaves as many memories of each name and value as before presenting.
  pub present-clean_up :
      (look : Lookup) (cfg : DnsConfig) (chal : Challenge) (m m' : Manager)
      → Echoes
      → present look cfg chal m ≡ (m', none)
      → IsCleaned cfg chal m m'
  unfolding present create_record
  present-clean_up look cfg chal m m' echoes h =
      let (zones, zone) =
        find_zone_by_fqdn look.exchange look.split look.ctx look.now look.evicted look.nameservers
          (dns_name_of cfg chal) m.zones in
      appended (record m { zones = zones }) zone refl h
    where
      appended :
          (m1 : Manager) (zone : Result DnsError Str)
          → m1.records ≡ m.records
          → remember
              (dns_name_of cfg chal)
              (append_to cfg.time_to_live (dns_name_of cfg chal) txt chal.key_auth m1 zone)
            ≡ (m', none)
          → IsCleaned cfg chal m m'
      appended m1 (err e) same k =
          made-IsCleaned cfg chal m m1 m' (err (no_zone e)) same (λ zrec q. cc)
            (unfold append_to in k)
      appended m1 (ok zone) same k =
          let rec : DnsRecord = record {
            rec_type = txt;
            name = p.relative_name (dns_name_of cfg chal ++ codes ".") zone;
            value = chal.key_auth;
            ttl = cfg.time_to_live;
          } in
          let appending = p.append_records zone rec m1.provider in
          made-IsCleaned cfg chal m (record m1 { provider = appending.0 }) m'
            (one_record zone appending.1) same (echoed zone rec m1.provider echoes)
            (unfold append_to in k)
