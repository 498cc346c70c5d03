-- ===== src/EbeeControl/Monitor/Defs.antt =====
-- `TetragonMonitor` (modules/ebeecontrol/tetragon.go): the paths that it watches, and what it does with a
-- raw event. A callback is a name; the calls that an event leads to are a result of the handler.
use titanops.Common.{
  ℕ, String, Bool, false, ◌||◌, none, some, List, [], ◌∷◌, ◌++◌, map, if◌then◌else◌, str_eq, not,
}
use titanops.Common.Int.{ℤ}
use titanops.Common.Text.{Strings}
use titanops.Common.Dict.{lookup, insert, erase, keys}
use titanops.EbeeControl.Types.{AccessEvent}
use titanops.EbeeControl.Monitor.Buffer.{
  EventBuffer, EventBufferStatus, new_event_buffer, push, status,
}

pub record TetragonProcess : Type 0 where
  pub pid : ℤ
  pub binary : String
  pub uid : ℤ
  pub pod_name : String
  pub pod_namespace : String

pub record TetragonArgs : Type 0 where
  pub file_arg : String
  pub string_arg : String

pub record TetragonKprobeEvent : Type 0 where
  pub process : TetragonProcess
  pub args : TetragonArgs
  pub function_name : String
  pub action : String
  pub time : ℕ

pub record TetragonMonitor : Type 0 where
  pub simulation : Bool
  pub registered_paths : List (String × Unit {0})
  pub callbacks : List String
  pub buffer : EventBuffer
  pub connected : Bool

unfoldable pub new_tetragon_monitor : ℤ → Bool → TetragonMonitor
new_tetragon_monitor capacity simulation = record {
  simulation = simulation;
  registered_paths = [];
  callbacks = [];
  buffer = new_event_buffer capacity;
  connected = false;
}

unfoldable pub register_path : TetragonMonitor → String → TetragonMonitor
register_path m path = record m { registered_paths = insert path tt m.registered_paths }

unfoldable pub unregister_path : TetragonMonitor → String → TetragonMonitor
unregister_path m path = record m { registered_paths = erase path m.registered_paths }

unfoldable pub on_event : TetragonMonitor → String → TetragonMonitor
on_event m callback = record m { callbacks = m.callbacks ++ callback ∷ [] }

unfoldable pub registered_paths : TetragonMonitor → List String
registered_paths m = keys m.registered_paths

unfoldable pub buffer_status : TetragonMonitor → EventBufferStatus
buffer_status m = status m.buffer

unfoldable pub stop : TetragonMonitor → TetragonMonitor
stop m = record m { connected = false }

unfoldable pub extract_file_path : TetragonKprobeEvent → String
extract_file_path event =
    if not (str_eq event.args.file_arg "")
    then event.args.file_arg
    else if not (str_eq event.args.string_arg "")
    then event.args.string_arg
    else "unknown"

module _ (strings : Strings) where
  unfoldable pub map_function_to_access_type : String → String
  map_function_to_access_type function_name =
      let fn = strings.to_lower function_name in
      if strings.has_substring fn "fd_install" || strings.has_substring fn "sys_open"
      then "open"
      else if strings.has_substring fn "sys_read" || strings.has_substring fn "vfs_read"
      then "read"
      else if strings.has_substring fn "sys_write" || strings.has_substring fn "vfs_write"
      then "write"
      else if strings.has_substring fn "sys_newstat" || strings.has_substring fn "stat"
      then "stat"
      else "read"

  -- `id` is the new identifier of the event.
  unfoldable pub transform_tetragon_event : String → TetragonKprobeEvent → AccessEvent
  transform_tetragon_event id event = record {
    event_id = id;
    process_id = event.process.pid;
    process_binary_path = event.process.binary;
    user_id = event.process.uid;
    pod_id = event.process.pod_name;
    namespace = event.process.pod_namespace;
    honeytoken_path = extract_file_path event;
    access_type = map_function_to_access_type event.function_name;
    timestamp = event.time;
  }

  unfoldable pub handle_raw_event :
      String → TetragonKprobeEvent → TetragonMonitor → TetragonMonitor × List (String × AccessEvent)
  handle_raw_event id raw m = elim (lookup (extract_file_path raw) m.registered_paths) [
    | none ↦ (m, [])
    | some _ ↦
        let event = transform_tetragon_event id raw in
        (record m { buffer = push m.buffer event }, map (λ callback. (callback, event)) m.callbacks)
  ]
