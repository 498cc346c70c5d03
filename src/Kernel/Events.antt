-- ===== src/Kernel/Events.antt =====
-- `Emit`, `Subscribe` and `Close`, and the filters.
use titanops.Common.{
  ℕ, String, Bool, true, false, not, ◌&&◌, Option, none, some, List, [], ◌∷◌, ◌++◌, length, set,
  get_elem?, ltb, str_eq, if◌then◌else◌,
}
use titanops.Export.Event.{Event}
use titanops.Kernel.Types.{EventFilter, Subscription, RuntimeKernel}

unfoldable pub severity_rank : String → ℕ
severity_rank severity =
    if str_eq severity "critical"
    then 5
    else if str_eq severity "high"
    then 4
    else if str_eq severity "medium"
    then 3
    else if str_eq severity "low"
    then 2
    else if str_eq severity "informational"
    then 1
    else 0

unfoldable pub matches_filter : Event → EventFilter → Bool
matches_filter event filter =
    if not (str_eq filter.module_name "") && not (str_eq event.module_name filter.module_name)
    then false
    else if not (str_eq filter.event_type "") && not (str_eq event.event_type filter.event_type)
    then false
    else if not (str_eq filter.min_severity "")
        && ltb (severity_rank event.severity) (severity_rank filter.min_severity)
    then false
    else true

-- The index of the new subscription is what the caller holds.
unfoldable pub subscribe : EventFilter → ℕ → RuntimeKernel → RuntimeKernel × ℕ
subscribe filter handler k = (
  record k { subs = k.subs ++ record { filter = filter; handler = handler; closed = false } ∷ [] },
  length k.subs,
)

-- `s.kernel.subs[s.index].closed = true` under its test.
unfoldable pub close : ℕ → RuntimeKernel → RuntimeKernel
close index k = elim (get_elem? k.subs index) [
  | none ↦ k
  | some sub ↦ record k { subs = set k.subs index (record sub { closed = true }) }
]

-- The loop of `Emit`: the handlers that it starts.
unfoldable pub dispatch : Event → List Subscription → List ℕ
dispatch event [] = []
dispatch event (sub ∷ subs) =
    let rest = dispatch event subs in
    if sub.closed
    then rest
    else if matches_filter event sub.filter
    then sub.handler ∷ rest
    else rest

-- The handlers started, and the error. `emitted` is the answer of the emitter.
unfoldable pub emit : Option String → Event → RuntimeKernel → List ℕ × Option String
emit emitted event k =
    if k.has_emitter
    then (dispatch event k.subs, emitted)
    else ([], some "no event emitter configured")
