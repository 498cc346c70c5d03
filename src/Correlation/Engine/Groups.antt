-- ===== src/Correlation/Engine/Groups.antt =====
-- What the groups of `groupEvents` are: the events of the window, divided by node, pod and namespace.
use titanops.Common.{
  ◌<◌, ◌≡◌, refl, ◌∙◌, sym, ap, ◌≢◌, true, List, [], ◌∷◌, ◌++◌, map, arith, All, Bool-cases, inl,
  inr, eq_iff, All-append, length, select, str_eq, not, Bool, String,
}
use mathlib.Core.List.{Perm, perm_middle, append_assoc, append-nil}
use mathlib.Core.List.Perm
use mathlib.Core.Path.{subst}
use titanops.Export.Event.{Event}
use titanops.Correlation.Engine.Types.{TimedEvent}
use titanops.Correlation.Engine.Grouping.{
  AttrKey, EventGroup, attr_key, same_key, matched_of, add_event, add_events,
}

abbrev pub all_events : List (AttrKey × EventGroup) → List Event
all_events [] = []
all_events ((key, g) ∷ groups) = g.events ++ all_events groups

-- The event has the node, the pod and the namespace of the key.
pub record HasKey (key : AttrKey) (ev : Event) : Type 0 where
  pub node : ev.node ≡ key.node
  pub pod : ev.pod ≡ key.pod
  pub namespace : ev.namespace ≡ key.namespace

abbrev pub is_set : String × String → Bool
is_set attribute = not (str_eq attribute.1 "")

-- The names of the attributes of a key that are not empty.
abbrev pub set_attributes : AttrKey → List String
set_attributes key =
    map (λ p. p.0)
      (select is_set (("node", key.node) ∷ ("pod", key.pod) ∷ ("namespace", key.namespace) ∷ []))

-- A group holds at least one event, all with its node, pod and namespace, and matched those of the three
-- that are not empty.
pub record IsGroup (p : AttrKey × EventGroup) : Type 0 where
  pub uniform : All (HasKey p.0) p.1.events
  pub filled : 0 < length p.1.events
  pub matched : p.1.matched_attributes ≡ set_attributes p.0

matched_of-set_attributes : (key : AttrKey) → matched_of key ≡ set_attributes key
unfolding matched_of
matched_of-set_attributes key = ground arith

attr_key-HasKey : (ev : Event) → HasKey (attr_key ev) ev
attr_key-HasKey ev = record { node = refl; pod = refl; namespace = refl }

same_key_iff : (a b : AttrKey) → same_key a b ≡ true → a ≡ b
same_key_iff a b h =
    ground (arith, eq_iff a.node b.node, eq_iff a.pod b.pod, eq_iff a.namespace b.namespace)

length-snoc : (xs : List Event) (x : Event) → 0 < length (xs ++ x ∷ [])
length-snoc [] x = omega arith
length-snoc (y ∷ xs) x = omega arith

add_event-IsGroup :
    (ev : Event) (groups : List (AttrKey × EventGroup))
    → All IsGroup groups
    → All IsGroup (add_event ev groups)
unfolding add_event
add_event-IsGroup ev [] h = (
  record {
    uniform = (attr_key-HasKey ev, tt);
    filled = omega arith;
    matched = matched_of-set_attributes (attr_key ev);
  },
  tt,
)
add_event-IsGroup ev ((key, g) ∷ groups) h = elim (Bool-cases (same_key key (attr_key ev))) [
  | inl same ↦ rw same (
    record {
      uniform =
          All-append (HasKey key) g.events (ev ∷ [])
            (
              subst (λ k. HasKey k ev) (sym (same_key_iff key (attr_key ev) same))
                  (attr_key-HasKey ev),
              tt,
            )
            h.0.uniform;
      filled = length-snoc g.events ev;
      matched = h.0.matched;
    },
    h.1,
  )
  | inr other ↦ rw other (h.0, add_event-IsGroup ev groups h.1)
]

add_event-perm :
    (ev : Event) (groups : List (AttrKey × EventGroup))
    → Perm (all_events (add_event ev groups)) (ev ∷ all_events groups)
unfolding add_event
add_event-perm ev [] = Perm.refl _
add_event-perm ev ((key, g) ∷ groups) = elim (Bool-cases (same_key key (attr_key ev))) [
  | inl same ↦ rw same (rw append_assoc (perm_middle g.events (all_events groups)))
  | inr other ↦ rw other (
      Perm.trans (Perm.append (Perm.refl g.events) (add_event-perm ev groups))
        (perm_middle g.events (all_events groups)))
]

add_events-IsGroup :
    (tes : List TimedEvent) (groups : List (AttrKey × EventGroup))
    → All IsGroup groups
    → All IsGroup (add_events tes groups)
unfolding add_events
add_events-IsGroup [] groups h = h
add_events-IsGroup (te ∷ tes) groups h =
    add_events-IsGroup tes (add_event te.event groups) (add_event-IsGroup te.event groups h)

abbrev pub event_of : TimedEvent → Event
event_of te = te.event

add_events-perm :
    (tes : List TimedEvent) (groups : List (AttrKey × EventGroup))
    → Perm (all_events (add_events tes groups)) (map event_of tes ++ all_events groups)
unfolding add_events
add_events-perm [] groups = Perm.refl _
add_events-perm (te ∷ tes) groups = Perm.trans (add_events-perm tes (add_event te.event groups)) (
    Perm.trans (Perm.append (Perm.refl (map event_of tes)) (add_event-perm te.event groups))
      (perm_middle (map event_of tes) (all_events groups)))

-- No two groups have one key.
abbrev pub DistinctKeys : List (AttrKey × EventGroup) → Type 0
DistinctKeys [] = Unit
DistinctKeys ((key, g) ∷ groups) = All (λ p. p.0 ≢ key) groups × DistinctKeys groups

same_key_refl : (a : AttrKey) → same_key a a ≡ true
same_key_refl a =
    ground (arith, eq_iff a.node a.node, eq_iff a.pod a.pod, eq_iff a.namespace a.namespace)

add_event-other :
    (ev : Event) (key : AttrKey) (groups : List (AttrKey × EventGroup))
    → attr_key ev ≢ key
    → All (λ p. p.0 ≢ key) groups
    → All (λ p. p.0 ≢ key) (add_event ev groups)
unfolding add_event
add_event-other ev key [] ne h = (ne, tt)
add_event-other ev key ((k, g) ∷ groups) ne h = elim (Bool-cases (same_key k (attr_key ev))) [
  | inl same ↦ rw same h
  | inr other ↦ rw other (h.0, add_event-other ev key groups ne h.1)
]

add_event-DistinctKeys :
    (ev : Event) (groups : List (AttrKey × EventGroup))
    → DistinctKeys groups
    → DistinctKeys (add_event ev groups)
unfolding add_event
add_event-DistinctKeys ev [] d = (tt, tt)
add_event-DistinctKeys ev ((k, g) ∷ groups) d = elim (Bool-cases (same_key k (attr_key ev))) [
  | inl same ↦ rw same d
  | inr other ↦
      let ne : attr_key ev ≢ k =
        λ e. absurd (cc (sym other ∙ ap (same_key k) e ∙ same_key_refl k)) in
      rw other (add_event-other ev k groups ne d.0, add_event-DistinctKeys ev groups d.1)
]

add_events-DistinctKeys :
    (tes : List TimedEvent) (groups : List (AttrKey × EventGroup))
    → DistinctKeys groups
    → DistinctKeys (add_events tes groups)
unfolding add_events
add_events-DistinctKeys [] groups d = d
add_events-DistinctKeys (te ∷ tes) groups d =
    add_events-DistinctKeys tes (add_event te.event groups)
      (add_event-DistinctKeys te.event groups d)

-- The groups are a division of the window: together they hold its events, each as often as it
-- holds them; within a group the node, pod and namespace agree, and the matched attributes are those
-- of the three that are not empty; two groups differ in one of the three.
pub add_events_partition :
    (tes : List TimedEvent)
    → let groups = add_events tes [] in
      Perm (all_events groups) (map event_of tes) × All IsGroup groups × DistinctKeys groups
add_events_partition tes = (
  rw append-nil at (add_events-perm tes []),
  add_events-IsGroup tes [] tt,
  add_events-DistinctKeys tes [] tt,
)
