-- ===== src/Tests/Deception.antt =====
-- The theorems on EbeeControl's monitor, deployer, trainer and agent at concrete inputs.
use titanops.Common.{
  ℕ, ◌+◌, ◌≤◌, ◌<◌, ◌≡◌, ◌≢◌, refl, true, none, some, List, [], ◌∷◌, map, take, if◌then◌else◌,
  str_eq,
}
use titanops.Common.Int.{pos}
use titanops.Common.Text.{Strings}
use titanops.Common.Dict.{lookup}
use titanops.EbeeControl.Types.{AccessEvent, DeploymentRequest, DeployedHoneytoken}
use titanops.EbeeControl.Monitor.{
  TetragonKprobeEvent, extract_file_path, transform_tetragon_event, handle_raw_event,
}
use titanops.EbeeControl.Monitor.Buffer.{recent, push, zero_event}
use titanops.EbeeControl.Monitor.Recent.{pushed, recent_refines}
use titanops.EbeeControl.Monitor.Delivery.{
  Operation, register, unregister, subscribe, after, is_watched, subscribers, handle_raw_event_lem,
}
use titanops.EbeeControl.Deployer.{Secret, SecretCall, K8sSecretClient, deploy}
use titanops.EbeeControl.Deployer.Restores.{is_live}
use titanops.EbeeControl.Deployer.Rollback.{IsAllOrNothing, deploy-IsAllOrNothing}

abbrev pub strings : Strings
strings = record {
  to_lower = λ s. s;
  to_upper = λ s. s;
  trim_space = λ s. s;
  replace_all = λ s a b. s;
  has_substring = λ s t. str_eq s t;
}

abbrev pub event_at : ℕ → AccessEvent
event_at t = record zero_event {
  event_id = "event-01";
  process_binary_path = "/bin/cat";
  pod_id = "web-1";
  namespace = "shop";
  honeytoken_path = "/secrets/token";
  access_type = "read";
  timestamp = t;
}

abbrev history : List AccessEvent
history = event_at 4 ∷ event_at 3 ∷ event_at 2 ∷ event_at 1 ∷ []

recent_refines_example :
    let b = pushed 3 history in
    (recent b (pos 2) ≡ some (take 2 (take 3 history)))
    × (b.size + b.overflow ≡ 4)
    × (b.size ≤ 3)
    × (0 < b.overflow → b.size ≡ 3)
recent_refines_example = recent_refines 2 2 history

abbrev pub raw : TetragonKprobeEvent
raw = record {
  process = record {
    pid = pos 17;
    binary = "/bin/cat";
    uid = pos 0;
    pod_name = "web-1";
    pod_namespace = "shop";
  };
  args = record { file_arg = "/secrets/token"; string_arg = "" };
  function_name = "sys_read";
  action = "post";
  time = 9;
}

abbrev operations : List Operation
operations = subscribe "agent" ∷ register "/secrets/token" ∷ unregister "/secrets/token" ∷ []

handle_raw_event_lem_example :
    let m = after strings (pos 2) true operations in
    let event = transform_tetragon_event strings "e-1" raw in
    handle_raw_event strings "e-1" raw m ≡ (
      if is_watched (extract_file_path raw) operations
      then (
        record m { buffer = push m.buffer event },
        map (λ callback. (callback, event)) (subscribers operations),
      )
      else (m, []))
handle_raw_event_lem_example = handle_raw_event_lem strings (pos 2) true operations "e-1" raw

-- The cluster refuses a name that it has, and every identifier is the same.
abbrev client : K8sSecretClient
client = record {
  create_secret =
      λ calls s. if is_live s.namespace s.name calls then some "already exists" else none;
  new_id = λ calls. "0123456789";
  now = λ calls. 5;
}

client_refuses :
    (calls : List SecretCall) (s : Secret)
    → is_live s.namespace s.name calls ≡ true
    → client.create_secret calls s ≢ none
client_refuses calls s live = rw live (λ e. cc)

abbrev request : DeploymentRequest
request = record {
  pod_id = "web-1";
  namespace = "shop";
  honeytokens =
      record { type_name = "decoy_file"; name = "a"; placement = "/a"; content = "x" }
      ∷ record { type_name = "decoy_file"; name = "b"; placement = "/b"; content = "y" }
      ∷ [];
}

client_fresh :
    (calls : List SecretCall) → lookup {V = DeployedHoneytoken} (client.new_id calls) [] ≡ none
unfolding lookup
client_fresh calls = refl

deploy-IsAllOrNothing_example : IsAllOrNothing request [] [] (deploy strings client request [] [])
deploy-IsAllOrNothing_example =
    deploy-IsAllOrNothing strings client request [] [] client_fresh client_refuses
