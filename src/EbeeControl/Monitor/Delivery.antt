-- ===== src/EbeeControl/Monitor/Delivery.antt =====
-- Which raw events reach the callbacks.
use titanops.Common.{
  ◌≡◌, refl, ap, String, Bool, true, false, none, some, List, [], ◌∷◌, ◌++◌, map, arith,
  if◌then◌else◌, str_eq, Bool-cases, inl, inr,
}
use titanops.Common.Int.{ℤ}
use titanops.Common.Text.{Strings}
use titanops.Common.Dict.{lookup, lookup-insert, lookup-erase}
use titanops.EbeeControl.Monitor.Buffer.{push}
use titanops.EbeeControl.Monitor.Defs.{
  TetragonKprobeEvent, TetragonMonitor, new_tetragon_monitor, register_path, unregister_path,
  on_event, extract_file_path, transform_tetragon_event, handle_raw_event,
}

pub data Operation : Type 0 where
  register : String → Operation
  unregister : String → Operation
  subscribe : String → Operation
  inject : String → TetragonKprobeEvent → Operation

module _ (strings : Strings) (capacity : ℤ) (simulation : Bool) where
  unfoldable pub apply : Operation → TetragonMonitor → TetragonMonitor
  apply (register path) m = register_path m path
  apply (unregister path) m = unregister_path m path
  apply (subscribe callback) m = on_event m callback
  apply (inject id raw) m = (handle_raw_event strings id raw m).0

  -- The monitor behind some operations, the newest first.
  unfoldable pub after : List Operation → TetragonMonitor
  after [] = new_tetragon_monitor capacity simulation
  after (op ∷ earlier) = apply op (after earlier)

-- The newest operation on a path decides whether it is watched.
unfoldable pub is_watched : String → List Operation → Bool
is_watched path [] = false
is_watched path (register p ∷ earlier) = if str_eq p path then true else is_watched path earlier
is_watched path (unregister p ∷ earlier) = if str_eq p path then false else is_watched path earlier
is_watched path (subscribe callback ∷ earlier) = is_watched path earlier
is_watched path (inject id raw ∷ earlier) = is_watched path earlier

-- The callbacks, the oldest first.
unfoldable pub subscribers : List Operation → List String
subscribers [] = []
subscribers (register p ∷ earlier) = subscribers earlier
subscribers (unregister p ∷ earlier) = subscribers earlier
subscribers (subscribe callback ∷ earlier) = subscribers earlier ++ callback ∷ []
subscribers (inject id raw ∷ earlier) = subscribers earlier

module _ (strings : Strings) where
  pub handle_keeps :
      (id : String) (raw : TetragonKprobeEvent) (m : TetragonMonitor)
      → ((handle_raw_event strings id raw m).0.registered_paths ≡ m.registered_paths)
        × ((handle_raw_event strings id raw m).0.callbacks ≡ m.callbacks)
  unfolding handle_raw_event
  handle_keeps id raw m = ground arith

module _ (strings : Strings) (capacity : ℤ) (simulation : Bool) where
  after-lookup :
      (ops : List Operation) (path : String)
      → lookup path (after strings capacity simulation ops).registered_paths
        ≡ (if is_watched path ops then some tt else none)
  unfolding after apply is_watched register_path unregister_path on_event new_tetragon_monitor
      lookup
  after-lookup [] path = refl
  after-lookup (register p ∷ earlier) path =
      let before = after-lookup earlier path in
      ground (
        arith,
        lookup-insert p path tt (after strings capacity simulation earlier).registered_paths,
      )
  after-lookup (unregister p ∷ earlier) path =
      let before = after-lookup earlier path in
      ground
        (arith, lookup-erase p path (after strings capacity simulation earlier).registered_paths)
  after-lookup (subscribe callback ∷ earlier) path = after-lookup earlier path
  after-lookup (inject id raw ∷ earlier) path =
      rw (handle_keeps strings id raw (after strings capacity simulation earlier)).0
        (after-lookup earlier path)

  after-callbacks :
      (ops : List Operation) → (after strings capacity simulation ops).callbacks ≡ subscribers ops
  unfolding after apply subscribers register_path unregister_path on_event new_tetragon_monitor
  after-callbacks [] = refl
  after-callbacks (register p ∷ earlier) = after-callbacks earlier
  after-callbacks (unregister p ∷ earlier) = after-callbacks earlier
  after-callbacks (subscribe callback ∷ earlier) =
      ap (λ callbacks. callbacks ++ callback ∷ []) (after-callbacks earlier)
  after-callbacks (inject id raw ∷ earlier) =
      rw (handle_keeps strings id raw (after strings capacity simulation earlier)).1
        (after-callbacks earlier)

  -- Behind any operations on a new monitor, a raw event whose path is watched, its newest registration
  -- standing behind its newest removal, goes transformed to each callback in the order of their
  -- registration and into the buffer; any other event goes nowhere and leaves the monitor as it is.
  pub handle_raw_event_lem :
      (ops : List Operation) (id : String) (raw : TetragonKprobeEvent)
      → let m = after strings capacity simulation ops in
        let event = transform_tetragon_event strings id raw in
        handle_raw_event strings id raw m ≡ (
          if is_watched (extract_file_path raw) ops
          then (
            record m { buffer = push m.buffer event },
            map (λ callback. (callback, event)) (subscribers ops),
          )
          else (m, []))
  unfolding handle_raw_event
  handle_raw_event_lem ops id raw =
      let found = after-lookup ops (extract_file_path raw) in
      let callers = after-callbacks ops in
      elim (Bool-cases (is_watched (extract_file_path raw) ops)) [
        | inl is ↦ rw (found, is, handle_raw_event) (rw callers refl)
        | inr is ↦ rw (found, is, handle_raw_event) refl
      ]
