-- ===== src/Tests/Renewing.antt =====
-- Renewing a certificate that cannot be parsed, so that it is to be renewed.
use certmagic.Prelude.{Option, none, Str}
use certmagic.Config.Renew.{AcmeData}

abbrev no_data : Str → Option AcmeData
no_data s = none
