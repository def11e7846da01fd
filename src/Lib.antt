-- ===== src/Lib.antt =====
-- A model of certmagic, which obtains, keeps and serves TLS certificates. Each module is about one
-- file of the repository, in its root.
--
-- RateLimiter (ratelimiter.go): the ring of timestamps. NewRateLimiter, SetMaxEvents, SetWindow,
--   advance and permit are new_rate_limiter, set_max_events, set_window, advance and permit; what the
--   goroutine `loop` and its callers do is the relation Loop.Step. View is the abstract limiter, a
--   list of timestamps with the oldest first, that Copying, Resize and Window reason about.
-- Certificate (certificates.go): the certificate and its renewal (certNeedsRenewal and
--   currentlyInRenewalWindow; Renewal), fillCertFromLeaf (Filling), the checks of subjects (Subject),
--   MatchWildcard (Wildcard), and the wildcards of a name, which cache.go and handshake.go also walk
--   (Names).
-- Storage (storage.go): KeyBuilder and Safe (Keys, Safe, Parts, Paths), storeTx over an interface of a
--   storage with its documented laws (Backend, Store), and the locks that the process holds (Locks).
--   Apart is about the keys of one site.
-- Cache (cache.go): the certificates by hash and the index from names to hashes. Its operations keep
--   the Go names in snake case. Invariant states that the index is exact; Keeps, Capacity, Lookup and
--   Removal are about the operations.
-- Async (async.go): the job manager (Jobs, Workers) and doWithRetry (Retry), also for a function that
--   changes a state (Retry/Attempts).
-- Config (config.go, crypto.go, certmagic.go): generateCSR and NamesKey (Csr); saveCertResource,
--   loadCertResource, loadCertResourceAnyIssuer and deleteSiteAssets (Resources, Stored); what
--   obtaining and renewing share, with checkStorage (Issuing); obtainCert and reusePrivateKey (Obtain);
--   renewCert and managedCertNeedsRenewal (Renew). They use the interface and the locks of Storage, the
--   retries of Async and the renewal of Certificate. Obtained, Results and Renewed are about one attempt,
--   Jobs and Repeated about obtainCert as a whole. Revoke is RevokeCert. Managed (certificates.go) is
--   the loading of certificates from the storage into the Cache, with reloadManagedCertificate and the
--   caching of unmanaged ones; Cached is about the cache afterwards.
-- Maintenance (maintain.go): RenewManagedCertificates, whose first pass over the cache only queues;
--   Renewal is what it does with the queues, with the job of queueRenewalTask. It uses the Cache, the
--   loading of Config/Managed and the job manager of Async. Growing, Queued and Named are about what
--   gets a job.
-- Handshake (handshake.go): getCertificateFromCache, selectCert and DefaultCertificateSelector, which
--   read the Cache by name and look at the expiry of Certificate; and the on-demand part: the state that
--   handshakes share and the checks of a name (Server), loading, maintenance, obtaining and renewal
--   (Maintain), and getCertDuringHandshake (Serve). The operations of a config that it calls are the
--   interface Operations. Allowed, Unblocked and Gaps are about what a handshake does.
-- Dns (dnsutil.go): queries (sendDNSQuery, dnsQuery), the search for the zone of a name and its cache
--   (Zone, Bounds), and checkDNSPropagation (Propagation).
-- Solvers (solvers.go): the memory of DNS records (Memory), DNS01Solver with createRecord and
--   cleanUpRecord (Dns01), DNSManager.wait (Waiting), and distributedSolver with the keys of its
--   tokens (Shared). Dns01 uses the search for zones of Dns; Shared uses the interface and the keys
--   of Storage. Active has solverWrapper with the challenges in memory, the counts and listeners of the
--   HTTP and TLS-ALPN solvers, getChallengeInfo (config.go) and getTLSALPNChallengeCert (handshake.go);
--   Counts and Found are about them.
-- FileStorage (filestorage.go): the lock file of one name, with Lock, Unlock and keepLockfileFresh of
--   several processes as the relation Step. Exclusion is about who holds the lock.
-- Prelude: the names that all modules share, and lemmas on lists, texts and maps. Tests: the theorems
--   at concrete values.
--
-- Conventions. A time is a number of nanoseconds since Go's zero time, so that IsZero is a test for
-- 0, and a comparison with t.Add(-d) is written with d on the other side; durations and validities
-- are not negative. A text is a list of bytes, and ToLower and TrimSpace act on ASCII. A Go map is an
-- association list. A panic is an error of a Result. A random number, the clock, and the answers of
-- channels and of contexts are arguments or steps. The locks of the cache and of the job manager are
-- held for whole operations, so that an operation is one function, and an interleaving is a sequence
-- of such steps; a job's return and the deletion of its name are one step. RemoveManaged, which takes the
-- lock for each subject and again for the removal, is one function too, for when nothing else happens
-- in between. Loops are recursions on
-- lists or numbers, with no fuel; a run of doWithRetry is over the list of its rounds, and a run whose
-- list ends before it has returned is pending; DNSManager.wait and the waits of a handshake on another
-- one are modelled in the same way. A handshake sees one time, and another after its maintenance. What a
-- handshake starts in the background is a list of tasks.
--
-- Parameters are the arithmetic of floating-point ratios (Ratios), the package net (Net), the parsing
-- and the hash of certificates, the hash of file names, custom selection of certificates, whether a
-- client supports a certificate, the storage, the answers of name servers, dns.Split and
-- dns.ReverseAddr, the DNS provider with libdns.RelativeName, the encoding of challenges, and the
-- solver that is embedded in distributedSolver; for obtaining and renewing the issuers, the key source,
-- the event handler, shuffling, PEM and JSON encodings, package idna, and the subject transformer; for a
-- handshake the managers, the decision function and the staples of OCSP; the generation of TLS-ALPN
-- certificates, and what robustTryListen gives; for the maintenance getConfig, updateARI and the renewal.
--
-- Not modelled: logging, and events except those whose error is looked at; the rest of the maintenance
-- (maintain.go: timers, staples, cleaning, updateARI and forceRenew), manageAll and manageOne
-- (config.go), the servers of the HTTP and TLS-ALPN solvers (solvers.go), the files of values of the
-- file storage (filestorage.go), stapling (ocsp.go), the issuers and accounts, and what is glue of
-- net/http, crypto or the file system (certmagic.go, httphandlers.go, crypto.go, internal).
pub mod Prelude
pub mod RateLimiter
pub mod Certificate
pub mod Storage
pub mod Cache
pub mod Async
pub mod FileStorage
pub mod Maintenance
pub mod Handshake
pub mod Dns
pub mod Solvers
pub mod Config
mod Tests
