-- ===== src/Tests/Maintaining.antt =====
-- Maintenance of a cache with a certificate that has expired, and a stored one that is not renewed.
use certmagic.Prelude.{◌*◌, true, false, some, [], ◌∷◌, Str, codes, Dict}
use certmagic.Certificate.{Certificate, second}
use certmagic.Maintenance.{Managing, Surroundings}
use certmagic.Maintenance.Renewal.{Process, Effects}
use certmagic.Tests.Certs.{issuer, thousandths, config}
use certmagic.Tests.Issuing.{stored_site}
use certmagic.Tests.Caching.{plain, empty}
use certmagic.Tests.Loading.{making}

abbrev managing : Managing thousandths (Dict Str)
managing = record { on_demand = false; renewing = config; making = making; issuers = issuer ∷ [] }

abbrev env : Surroundings thousandths (Dict Str)
env = record {
  get_config = λ cert. some (some managing);
  needs_refresh = λ ari. false;
  time = 200 * second;
  draw = λ cert. 0;
  stored_draw = λ cert. 0;
}

abbrev eff : Effects thousandths (Dict Str)
eff = record {
  update_ari = λ cfg cert w. (w, (cert, false));
  caching_draw = λ cert. 0;
  job_of = λ cert. 0;
  renew = λ name s. (s, true);
}

abbrev before_renewal : Process (Dict Str)
before_renewal = record {
  storage = stored_site;
  cache = record empty {
    certs = (codes "h1", plain) ∷ [];
    index = (codes "example.com", codes "h1" ∷ []) ∷ (codes "a.example.com", codes "h1" ∷ []) ∷ [];
  };
  jobs = record { max_concurrent_jobs = 3; active_workers = 0; queue = []; names = [] };
}

abbrev after_renewal : Process (Dict Str)
after_renewal = record before_renewal {
  jobs = record {
    max_concurrent_jobs = 3;
    active_workers = 1;
    queue = record { name = codes "renew_example.com"; job = 0 } ∷ [];
    names = codes "renew_example.com" ∷ [];
  };
}
