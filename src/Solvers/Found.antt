-- ===== src/Solvers/Found.antt =====
-- config.go: getChallengeInfo finds what another instance has presented.
use certmagic.Storage.Backend.{Storage}
use certmagic.Solvers.Active.{Active}
