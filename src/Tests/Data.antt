-- ===== src/Tests/Data.antt =====
-- Events and a buffer to run the theorems on.
use titanops.Common.{ℕ, String, some, [], ◌∷◌}
use titanops.Common.Int.{pos}
use titanops.Export.Event.{Event}
use titanops.Export.Buffer.{RingBuffer, RingBufferConfig}

-- An event of a module, at a node and a time.
abbrev pub event_of : String → String → String → ℕ → Event
event_of name event_type node t = record {
  namespace = "default";
  timestamp = t;
  zone = "UTC";
  severity = "high";
  module_name = name;
  event_type = event_type;
  payload = 123 ∷ 125 ∷ [];
  node = node;
  pod = "";
  event_id = event_type;
  labels = some (("risk_score", "80") ∷ []);
}

abbrev pub syscall : Event
syscall = event_of "tlapix" "syscall_anomaly" "node-1" 1_000_000_000

abbrev pub flow : Event
flow = event_of "earthworm" "flow_spike" "node-1" 4_000_000_000

abbrev pub deploy : Event
deploy = event_of "ollinai" "deployment_risk" "node-2" 6_000_000_000

abbrev pub small_config : RingBufferConfig
small_config = record {
  capacity = pos 2;
  initial_backoff = pos 100;
  max_backoff = pos 1000;
  max_retries = pos 2;
}

abbrev pub half_full : RingBuffer
half_full = record {
  items =
      record { event = syscall; attempts = 0; next_try = 5 }
      ∷ record { event = flow; attempts = 1; next_try = 3 }
      ∷ [];
  capacity = 4;
  dropped = 0;
  backend_name = "loki";
  initial_backoff = 100;
  max_backoff = 1000;
  max_retries = 3;
}
