-- ===== src/Config/Renewed.antt =====
-- config.go: what renewCert has done when it returns.
use certmagic.Storage.Backend.{Storage}
use certmagic.Config.Csr.{Csr}
use certmagic.Config.Issuing.{Config}
