-- ===== src/Correlation/Engine/Grouping.antt =====
-- `groupEvents` and `distinctModules`.
use titanops.Common.{
  String, Bool, false, ◌&&◌, ◌||◌, List, [], ◌∷◌, ◌++◌, map, if◌then◌else◌, str_eq,
}
use titanops.Export.Event.{Event}
use titanops.Correlation.Engine.Types.{TimedEvent, Engine}

pub record AttrKey : Type 0 where
  pub node : String
  pub pod : String
  pub namespace : String

pub record EventGroup : Type 0 where
  pub events : List Event
  pub matched_attributes : List String

abbrev pub attr_key : Event → AttrKey
attr_key ev = record { node = ev.node; pod = ev.pod; namespace = ev.namespace }

abbrev pub same_key : AttrKey → AttrKey → Bool
same_key a b = str_eq a.node b.node && (str_eq a.pod b.pod && str_eq a.namespace b.namespace)

abbrev named : String → String → List String
named attribute value = if str_eq value "" then [] else attribute ∷ []

unfoldable pub matched_of : AttrKey → List String
matched_of key = named "node" key.node ++ (named "pod" key.pod ++ named "namespace" key.namespace)

-- `groups[key]`: append to the group of the key, or make it.
unfoldable pub add_event : Event → List (AttrKey × EventGroup) → List (AttrKey × EventGroup)
add_event ev [] =
    (attr_key ev, record { events = ev ∷ []; matched_attributes = matched_of (attr_key ev) }) ∷ []
add_event ev ((key, g) ∷ groups) =
    if same_key key (attr_key ev)
    then (key, record g { events = g.events ++ ev ∷ [] }) ∷ groups
    else (key, g) ∷ add_event ev groups

unfoldable pub add_events :
    List TimedEvent → List (AttrKey × EventGroup) → List (AttrKey × EventGroup)
add_events [] groups = groups
add_events (te ∷ tes) groups = add_events tes (add_event te.event groups)

-- The groups in the order in which their first events came. The source hands them over in the order
-- in which Go walks the map, which `correlate` takes as an argument.
unfoldable pub group_events : Engine → List EventGroup
group_events e = map (λ (p : AttrKey × EventGroup). p.1) (add_events e.events [])

abbrev pub contains : String → List String → Bool
contains s [] = false
contains s (t ∷ l) = str_eq s t || contains s l

-- The loop over the events, with `seen` as the list of the modules so far.
unfoldable pub distinct_from : List String → List Event → List String
distinct_from seen [] = []
distinct_from seen (ev ∷ evs) =
    let more = ev.module_name ∷ distinct_from (ev.module_name ∷ seen) evs in
    let rest = distinct_from seen evs in if contains ev.module_name seen then rest else more

unfoldable pub distinct_modules : EventGroup → List String
distinct_modules g = distinct_from [] g.events
