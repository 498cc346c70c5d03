-- ===== src/Export/Multi/Defs.antt =====
-- `MultiExporter` and its methods.
use titanops.Common.{
  ℕ, String, Bool, true, false, Option, none, some, List, [], ◌∷◌, map, length, get_elem?, set,
  replicate, select,
}
use titanops.Common.Dict
use titanops.Export.Event.{Event}
use titanops.Export.Buffer.{BufferInfo}

-- What a call of `Send` does: return nil, return an error, or panic.
pub data SendOutcome : Type 0 where
  delivered : SendOutcome
  failed : String → SendOutcome
  panicked : String → SendOutcome

pub record Backend : Type 0 where
  pub name : String
  pub is_enabled : Bool
  pub send : Event → SendOutcome

pub data ExportError : Type 0 where
  backend_panic_error : String → String → ExportError
  backend_send_error : String → String → ExportError

pub record ExportResult : Type 0 where
  pub backend : String
  pub success : Bool
  pub error : Option ExportError

pub record BufferState : Type 0 where
  pub capacity : ℕ
  pub used : ℕ
  pub dropped : ℕ

pub record MultiExporter : Type 0 where
  pub backends : List Backend
  pub buffers : List (String × BufferState)

abbrev pub fresh_state : BufferState
fresh_state = record { capacity = 1000; used = 0; dropped = 0 }

unfoldable pub add_buffers :
    List Backend → List (String × BufferState) → List (String × BufferState)
add_buffers [] m = m
add_buffers (b ∷ bs) m = add_buffers bs (Dict.insert b.name fresh_state m)

unfoldable pub new_multi_exporter : List Backend → MultiExporter
new_multi_exporter backends = record { backends = backends; buffers = add_buffers backends [] }

unfoldable pub enabled_backends : MultiExporter → List Backend
enabled_backends m = select (λ (b : Backend). b.is_enabled) m.backends

-- The deferred recovery turns a panic into a result.
unfoldable pub send_to_backend : Event → Backend → ExportResult
send_to_backend ev b = elim (b.send ev) [
  | delivered ↦ record { backend = b.name; success = true; error = none }
  | failed cause ↦ record {
    backend = b.name;
    success = false;
    error = some (backend_send_error b.name cause);
  }
  | panicked r ↦ record {
    backend = b.name;
    success = false;
    error = some (backend_panic_error b.name r);
  }
]

-- `make([]ExportResult, n)`
abbrev pub zero_result : ExportResult
zero_result = record { backend = ""; success = false; error = none }

-- The goroutine with index i writes `results[i]`.
unfoldable pub finish : Event → List Backend → ℕ → List ExportResult → List ExportResult
finish ev backends i results = elim (get_elem? backends i) [
  | none ↦ results
  | some b ↦ set results i (send_to_backend ev b)
]

unfoldable pub finish_all : Event → List Backend → List ℕ → List ExportResult → List ExportResult
finish_all ev backends [] results = results
finish_all ev backends (i ∷ schedule) results =
    finish_all ev backends schedule (finish ev backends i results)

-- `Export` after `wg.Wait`; a nil result is the empty list.
unfoldable pub export : MultiExporter → Event → List ℕ → List ExportResult
export m ev schedule =
    let backends = enabled_backends m in
    finish_all ev backends schedule (replicate (length backends) zero_result)

abbrev pub to_info : String × BufferState → String × BufferInfo
to_info (name, buf) =
    (name, record { capacity = buf.capacity; used = buf.used; dropped = buf.dropped })

unfoldable pub buffer_status : MultiExporter → List (String × BufferInfo)
buffer_status m = map to_info m.buffers
