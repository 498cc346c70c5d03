-- ===== src/Correlation/Dedup/Fingerprint.antt =====
-- The separator of the fingerprint.
use titanops.Common.{◌≡◌, String}
use titanops.Common.Text.{◌+◌}
use text.Mathlib.TextLemmas.{append_assoc}
use titanops.Export.Event.{Event}
use titanops.Correlation.Dedup.Defs.{event_fingerprint}

-- Events of different modules and types share a fingerprint where the separator stands inside a
-- field: module "a|b" with type "c", and module "a" with type "b|c".
pub event_fingerprint_collides :
    (a b c : String) (ev : Event)
    → event_fingerprint (record ev { module_name = a + ("|" + b); event_type = c })
      ≡ event_fingerprint (record ev { module_name = a; event_type = b + ("|" + c) })
unfolding event_fingerprint
event_fingerprint_collides a b c ev = simp append_assoc
