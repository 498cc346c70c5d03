-- ===== src/Kernel/Delivery.antt =====
-- Which handlers an event reaches.
use titanops.Common.{
  ℕ, zero, suc, ◌≤◌, ◌≡◌, ◌⊎◌, ◌↔◌, refl, ◌∙◌, sym, ap, String, true, false, not, ◌&&◌, Option,
  none, some, List, [], ◌∷◌, ◌++◌, arith, length, set, get_elem?, ltb, str_eq, eq_iff,
  if◌then◌else◌, inl, inr, Bool-cases,
}
use mathlib.Core.Path.{subst}
use mathlib.Core.List.{append-nil}
use titanops.Export.Event.{Event}
use titanops.Kernel.Types.{EventFilter, Subscription, RuntimeKernel}
use titanops.Kernel.Events.{severity_rank, matches_filter, subscribe, close, dispatch, emit}

-- What a filter asks of an event, its empty fields asking for nothing.
pub record IsWanted (filter : EventFilter) (event : Event) : Type 0 where
  pub of_module : (filter.module_name ≡ "") ⊎ (event.module_name ≡ filter.module_name)
  pub of_type : (filter.event_type ≡ "") ⊎ (event.event_type ≡ filter.event_type)
  pub severe : severity_rank filter.min_severity ≤ severity_rank event.severity

same_or_empty :
    (a b : String) → ((not (str_eq b "") && not (str_eq a b)) ≡ false) ↔ ((b ≡ "") ⊎ (a ≡ b))
same_or_empty a b = (to, of)
  where
    to : (not (str_eq b "") && not (str_eq a b)) ≡ false → (b ≡ "") ⊎ (a ≡ b)
    to h = elim (Bool-cases (str_eq b "")) [
      | inl e ↦ inl ((eq_iff b "").0 e)
      | inr n ↦ inr ((eq_iff a b).0 (ground arith))
    ]

    of : (b ≡ "") ⊎ (a ≡ b) → (not (str_eq b "") && not (str_eq a b)) ≡ false
    of (inl e) = ground (arith, (eq_iff b "").1 e)
    of (inr e) = ground (arith, (eq_iff a b).1 e)

severity_rank-empty : severity_rank "" ≡ 0
unfolding severity_rank
severity_rank-empty = refl

severe_iff :
    (m s : String)
    → ((not (str_eq m "") && ltb (severity_rank s) (severity_rank m)) ≡ false)
      ↔ (severity_rank m ≤ severity_rank s)
severe_iff m s = (to, of)
  where
    to :
        (not (str_eq m "") && ltb (severity_rank s) (severity_rank m)) ≡ false
        → severity_rank m ≤ severity_rank s
    to h = elim (Bool-cases (str_eq m "")) [
      | inl e ↦ omega (arith, ap severity_rank ((eq_iff m "").0 e), severity_rank-empty)
      | inr n ↦ ground arith
    ]

    of :
        severity_rank m ≤ severity_rank s
        → (not (str_eq m "") && ltb (severity_rank s) (severity_rank m)) ≡ false
    of h = ground arith

-- A filter lets an event through just if the event is of its module, of its type and at least as severe
-- as it asks, where an empty field asks for nothing; a minimum that is no known severity asks for nothing
-- either.
pub matches_filter_iff :
    (event : Event) (filter : EventFilter)
    → (matches_filter event filter ≡ true) ↔ IsWanted filter event
unfolding matches_filter
matches_filter_iff event filter = (to, of)
  where
    m :
        ((not (str_eq filter.module_name "") && not (str_eq event.module_name filter.module_name))
          ≡ false)
        ↔ ((filter.module_name ≡ "") ⊎ (event.module_name ≡ filter.module_name))
    m = same_or_empty event.module_name filter.module_name

    t :
        ((not (str_eq filter.event_type "") && not (str_eq event.event_type filter.event_type))
          ≡ false)
        ↔ ((filter.event_type ≡ "") ⊎ (event.event_type ≡ filter.event_type))
    t = same_or_empty event.event_type filter.event_type

    s :
        ((not (str_eq filter.min_severity "")
            && ltb (severity_rank event.severity) (severity_rank filter.min_severity))
          ≡ false)
        ↔ (severity_rank filter.min_severity ≤ severity_rank event.severity)
    s = severe_iff filter.min_severity event.severity

    to : matches_filter event filter ≡ true → IsWanted filter event
    to h = record {
      of_module = m.0 (ground arith);
      of_type = t.0 (ground arith);
      severe = s.0 (ground arith);
    }

    of : IsWanted filter event → matches_filter event filter ≡ true
    of w = rw (m.1 w.of_module, t.1 w.of_type, s.1 w.severe) refl

-- The handlers of the subscriptions that are open and match, but for the one at `index`.
unfoldable pub dispatch_without : Event → ℕ → List Subscription → List ℕ
dispatch_without event index [] = []
dispatch_without event zero (sub ∷ subs) = dispatch event subs
dispatch_without event (suc index) (sub ∷ subs) =
    let rest = dispatch_without event index subs in
    if sub.closed
    then rest
    else if matches_filter event sub.filter
    then sub.handler ∷ rest
    else rest

dispatch-set :
    (event : Event) (subs : List Subscription) (index : ℕ) (sub : Subscription)
    → sub.closed ≡ true
    → dispatch event (set subs index sub) ≡ dispatch_without event index subs
unfolding dispatch dispatch_without
dispatch-set event [] index sub h = refl
dispatch-set event (x ∷ subs) zero sub h = rw h refl
dispatch-set event (x ∷ subs) (suc index) sub h =
    let rest = dispatch-set event subs index sub h in ground (arith, rest)

dispatch_without-none :
    (event : Event) (subs : List Subscription) (index : ℕ)
    → get_elem? subs index ≡ none
    → dispatch_without event index subs ≡ dispatch event subs
unfolding dispatch dispatch_without
dispatch_without-none event [] index h = refl
dispatch_without-none event (x ∷ subs) zero h = absurd (ground arith)
dispatch_without-none event (x ∷ subs) (suc index) h =
    let rest = dispatch_without-none event subs index h in ground (arith, rest)

dispatch-append :
    (event : Event) (subs more : List Subscription)
    → dispatch event (subs ++ more) ≡ dispatch event subs ++ dispatch event more
unfolding dispatch
dispatch-append event [] more = refl
dispatch-append event (x ∷ subs) more =
    let rest = dispatch-append event subs more in ground (arith, rest)

dispatch-close :
    (event : Event) (k : RuntimeKernel) (index : ℕ)
    → dispatch event (close index k).subs ≡ dispatch_without event index k.subs
unfolding close
dispatch-close event k index = go (get_elem? k.subs index) refl
  where
    P : RuntimeKernel → Type 0
    P k' = dispatch event k'.subs ≡ dispatch_without event index k.subs

    go : (o : Option Subscription) → get_elem? k.subs index ≡ o → P (close index k)
    go none e =
        let same : close index k ≡ k = rw (e, close) refl in
        subst P (sym same) (sym (dispatch_without-none event k.subs index e))
    go (some sub) e =
        let same : close index k
            ≡ record k { subs = set k.subs index (record sub { closed = true }) } =
          rw (e, close) refl in
        subst P (sym same) (dispatch-set event k.subs index (record sub { closed = true }) refl)

has_emitter-close : (k : RuntimeKernel) (index : ℕ) → (close index k).has_emitter ≡ k.has_emitter
unfolding close
has_emitter-close k index = go (get_elem? k.subs index) refl
  where
    go :
        (o : Option Subscription)
        → get_elem? k.subs index ≡ o
        → (close index k).has_emitter ≡ k.has_emitter
    go none e =
        let same : close index k ≡ k = rw (e, close) refl in
        ap (λ (x : RuntimeKernel). x.has_emitter) same
    go (some sub) e =
        let same : close index k
            ≡ record k { subs = set k.subs index (record sub { closed = true }) } =
          rw (e, close) refl in
        ap (λ (x : RuntimeKernel). x.has_emitter) same

without_last :
    (event : Event) (subs : List Subscription) (sub : Subscription)
    → dispatch_without event (length subs) (subs ++ sub ∷ []) ≡ dispatch event subs
unfolding dispatch dispatch_without
without_last event [] sub = refl
without_last event (x ∷ subs) sub = let rest = without_last event subs sub in ground (arith, rest)

-- Closing a subscription takes its handler, and no other, from the handlers that a later event starts,
-- and leaves the answer of the emitter as it was.
pub emit-close :
    (emitted : Option String) (event : Event) (k : RuntimeKernel) (index : ℕ)
    → k.has_emitter ≡ true
    → emit emitted event (close index k) ≡ (dispatch_without event index k.subs, emitted)
unfolding emit
emit-close emitted event k index h =
    rw (has_emitter-close k index ∙ h) (ap (λ l. (l, emitted)) (dispatch-close event k index))

-- In a kernel with an emitter, `Emit` starts a subscribed handler for an event that its filter asks for,
-- behind the handlers that it started for that event before and with no other one more, and for
-- any other event it starts what it did before; once the subscription is closed, it does with every
-- event what it did before. Its error is always the emitter's.
pub subscribe-close :
    (emitted : Option String) (event : Event) (filter : EventFilter) (handler : ℕ)
    (k : RuntimeKernel)
    → k.has_emitter ≡ true
    → let (k', index) = subscribe filter handler k in
      let (started, err) = emit emitted event k in
      ((IsWanted filter event × (emit emitted event k' ≡ (started ++ handler ∷ [], emitted)))
        ⊎ ((¬ IsWanted filter event) × (emit emitted event k' ≡ (started, emitted))))
      × (emit emitted event (close index k') ≡ (started, err))
      × (err ≡ emitted)
unfolding subscribe dispatch emit
subscribe-close emitted event filter handler k h =
    let (k', index) = subscribe filter handler k in
    (
      elim (Bool-cases (matches_filter event filter)) [
        | inl asked ↦ inl (
          (matches_filter_iff event filter).0 asked,
          rw h (ap (λ l. (l, emitted)) (dispatch-append event k.subs _ ∙ rw asked refl)),
        )
        | inr unasked ↦ inr (
          λ w. cc (unasked, (matches_filter_iff event filter).1 w),
          rw h (
              ap (λ l. (l, emitted))
                (dispatch-append event k.subs _ ∙ rw unasked (append-nil (dispatch event k.subs)))),
        )
      ],
      emit-close emitted event k' index h
          ∙ ap (λ l. (l, emitted)) (without_last event k.subs _)
          ∙ rw h refl,
      rw h refl,
    )
