-- ===== src/Tests/Config.antt =====
-- The configuration of EbeeControl at its defaults.
use titanops.Common.{ℕ, ◌≡◌, ◌↔◌, none}
use titanops.Tests.EbeeControl.{floats}
use titanops.EbeeControl.Config.{Formats, default_config, validate}
use titanops.EbeeControl.Config.Schema.{IsInRange, validate_iff}

abbrev blank : Formats ℕ
blank = record { int = λ z. ""; float = λ f. ""; duration = λ z. "" }

validate_iff_example :
    (validate floats blank (default_config floats) ≡ none)
    ↔ IsInRange floats (default_config floats)
validate_iff_example = validate_iff floats blank (default_config floats)
