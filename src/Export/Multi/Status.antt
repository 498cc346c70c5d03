-- ===== src/Export/Multi/Status.antt =====
-- `BufferStatus` against the backends that the exporter was made with.
use titanops.Common.{
  ◌≡◌, refl, String, Bool, true, false, ◌||◌, some, List, [], ◌∷◌, map, if◌then◌else◌, arith,
  str_eq,
}
use titanops.Common.Dict
use titanops.Export.Multi.Defs.{
  Backend, BufferState, fresh_state, add_buffers, new_multi_exporter, to_info, buffer_status,
}

abbrev has_name : String → List Backend → Bool
has_name name [] = false
has_name name (b ∷ bs) = str_eq b.name name || has_name name bs

lookup-add_buffers :
    (name : String) (bs : List Backend) (m : List (String × BufferState))
    → Dict.lookup name (add_buffers bs m)
      ≡ (if has_name name bs then some fresh_state else Dict.lookup name m)
unfolding add_buffers
lookup-add_buffers name [] m = refl
lookup-add_buffers name (b ∷ bs) m = ground (
  arith,
  lookup-add_buffers name bs (Dict.insert b.name fresh_state m),
  Dict.lookup-insert b.name name fresh_state m,
)

lookup-to_info :
    (name : String) (m : List (String × BufferState)) (s : BufferState)
    → Dict.lookup name m ≡ some s
    → Dict.lookup name (map to_info m) ≡ some (to_info (name, s)).1
unfolding Dict.lookup
lookup-to_info name [] s h = cc
lookup-to_info name ((k, v) ∷ m) s h = ground (arith, lookup-to_info name m s)

-- Every backend of a new exporter, enabled or not, is reported as empty, with room for 1000 events.
pub buffer_status-new :
    (bs : List Backend) (name : String)
    → has_name name bs ≡ true
    → Dict.lookup name (buffer_status (new_multi_exporter bs))
      ≡ some (record { capacity = 1000; used = 0; dropped = 0 })
unfolding buffer_status new_multi_exporter
buffer_status-new bs name h =
    lookup-to_info name (add_buffers bs []) fresh_state (rw (lookup-add_buffers name bs []) (rw h))
