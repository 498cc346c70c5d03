-- ===== src/Correlation/Engine/Filter.antt =====
-- What `GetIncidents` returns.
use titanops.Common.{
  ℕ, ◌≤◌, ◌≡◌, refl, ◌∙◌, ◌↔◌, ◌⊎◌, sym, ap, String, Bool, true, not, ◌||◌, none, List, [], ◌∷◌,
  arith, Bool-cases, inl, inr, str_eq, eq_iff, ltb, ◌==◌, select, length,
}
use mathlib.Core.List.{Memᴰ}
use titanops.Common.Int.{ℤ, pos, ltb_ℤ, ◌≤ℤ◌}
use titanops.Export.Event.{Event}
use titanops.Correlation.Engine.Types.{CorrelatedIncident, IncidentFilter, Engine}
use titanops.Correlation.Engine.Grouping.{contains}
use titanops.Correlation.Engine.Query.{any_of_modules, involves_modules, passes, get_incidents}

contains-Memᴰ : (s : String) (l : List String) → contains s l ≡ true → Memᴰ s l
contains-Memᴰ s [] h = cc
contains-Memᴰ s (t ∷ l) h =
    let rest = contains-Memᴰ s l in
    elim (Bool-cases (str_eq s t)) [
      | inl same ↦ Memᴰ.head ((eq_iff s t).0 same)
      | inr other ↦ Memᴰ.tail (rest (rw other at h))
    ]

Memᴰ-contains : (s : String) (l : List String) → Memᴰ s l → contains s l ≡ true
Memᴰ-contains s [] m = elim m [ ]
Memᴰ-contains s (t ∷ l) (Memᴰ.head e) = ground (arith, (eq_iff s t).1 e)
Memᴰ-contains s (t ∷ l) (Memᴰ.tail m) = ground (arith, Memᴰ-contains s l m)

-- Some event of the list comes from one of the modules.
abbrev pub Involves : List Event → List String → Type 0
Involves evs modules = (ev : Event) × Memᴰ ev evs × Memᴰ ev.module_name modules

any_of_modules-Involves :
    (evs : List Event) (modules : List String)
    → any_of_modules evs modules ≡ true
    → Involves evs modules
unfolding any_of_modules
any_of_modules-Involves [] modules h = cc
any_of_modules-Involves (ev ∷ evs) modules h =
    let rest = any_of_modules-Involves evs modules in
    elim (Bool-cases (contains ev.module_name modules)) [
      | inl here ↦ (ev, Memᴰ.head refl, contains-Memᴰ ev.module_name modules here)
      | inr there ↦ let (x, m, n) = rest (rw (there, any_of_modules) at h) in (x, Memᴰ.tail m, n)
    ]

Involves-any_of_modules :
    (evs : List Event) (modules : List String) (x : Event)
    → Memᴰ x evs
    → Memᴰ x.module_name modules
    → any_of_modules evs modules ≡ true
unfolding any_of_modules
Involves-any_of_modules [] modules x m n = elim m [ ]
Involves-any_of_modules (ev ∷ evs) modules x (Memᴰ.head e) n =
    let here : contains ev.module_name modules ≡ true =
      ap (λ (y : Event). contains y.module_name modules) (sym e)
      ∙ Memᴰ-contains x.module_name modules n in
    rw here refl
Involves-any_of_modules (ev ∷ evs) modules x (Memᴰ.tail m) n =
    ground (arith, Involves-any_of_modules evs modules x m n)

-- What a caller asks for with a filter, its zero values included: they ask for nothing.
pub record IsAsked (filter : IncidentFilter) (inc : CorrelatedIncident) : Type 0 where
  pub late : filter.since ≤ inc.detected_at
  pub sure : filter.min_confidence ≤ℤ pos inc.confidence_score
  pub of_modules : (filter.modules ≡ []) ⊎ Involves inc.contributing_events filter.modules

length-zero : (l : List String) → (length l == 0) ≡ true → l ≡ []
length-zero [] h = refl
length-zero (x ∷ l) h = absurd (ground arith)

late_iff : (since t : ℕ) → ((since == 0 || not (ltb t since)) ≡ true) ↔ (since ≤ t)
late_iff since t = (λ h. ground arith, λ h. ground arith)

sure_iff :
    (m : ℤ) (n : ℕ) → ((not (ltb_ℤ (pos 0) m) || not (ltb_ℤ (pos n) m)) ≡ true) ↔ (m ≤ℤ pos n)
sure_iff m n = (λ h. ground arith, λ h. ground arith)

modules_iff :
    (evs : List Event) (modules : List String)
    → ((length modules == 0 || any_of_modules evs modules) ≡ true)
      ↔ ((modules ≡ []) ⊎ Involves evs modules)
modules_iff evs modules = (to, of)
  where
    to :
        (length modules == 0 || any_of_modules evs modules) ≡ true
        → (modules ≡ []) ⊎ Involves evs modules
    to h = elim (Bool-cases (length modules == 0)) [
      | inl nil ↦ inl (length-zero modules nil)
      | inr more ↦ inr (any_of_modules-Involves evs modules (rw more at h))
    ]

    of :
        (modules ≡ []) ⊎ Involves evs modules
        → (length modules == 0 || any_of_modules evs modules) ≡ true
    of (inl nil) = rw nil refl
    of (inr (x, m, n)) = ground (arith, Involves-any_of_modules evs modules x m n)

passes_iff :
    (filter : IncidentFilter) (inc : CorrelatedIncident)
    → (passes filter inc ≡ true) ↔ IsAsked filter inc
unfolding passes involves_modules
passes_iff filter inc = (to, of)
  where
    l :
        ((filter.since == 0 || not (ltb inc.detected_at filter.since)) ≡ true)
        ↔ (filter.since ≤ inc.detected_at)
    l = late_iff filter.since inc.detected_at

    s :
        ((not (ltb_ℤ (pos 0) filter.min_confidence)
            || not (ltb_ℤ (pos inc.confidence_score) filter.min_confidence))
          ≡ true)
        ↔ (filter.min_confidence ≤ℤ pos inc.confidence_score)
    s = sure_iff filter.min_confidence inc.confidence_score

    m :
        ((length filter.modules == 0 || any_of_modules inc.contributing_events filter.modules)
          ≡ true)
        ↔ ((filter.modules ≡ []) ⊎ Involves inc.contributing_events filter.modules)
    m = modules_iff inc.contributing_events filter.modules

    to : passes filter inc ≡ true → IsAsked filter inc
    to h = record {
      late = l.0 (ground arith);
      sure = s.0 (ground arith);
      of_modules = m.0 (ground arith);
    }

    of : IsAsked filter inc → passes filter inc ≡ true
    of a = rw (l.1 a.late, s.1 a.sure, m.1 a.of_modules) refl

front :
    {A : Type 0} (keep : A → Bool) (y : A) (l sel : List A) (x : A)
    → (Memᴰ x sel → Memᴰ x l × (keep x ≡ true))
    → keep y ≡ true
    → Memᴰ x (y ∷ sel)
    → Memᴰ x (y ∷ l) × (keep x ≡ true)
front keep y l sel x rest kept (Memᴰ.head e) = (Memᴰ.head e, ap keep e ∙ kept)
front keep y l sel x rest kept (Memᴰ.tail n) = let (p, k) = rest n in (Memᴰ.tail p, k)

select-Memᴰ :
    {A : Type 0} (keep : A → Bool) (l : List A) (x : A)
    → Memᴰ x (select keep l)
    → Memᴰ x l × (keep x ≡ true)
select-Memᴰ keep [] x m = elim m [ ]
select-Memᴰ keep (y ∷ l) x m =
    let rest = select-Memᴰ keep l x in
    elim (Bool-cases (keep y)) [
      | inl kept ↦ front keep y l (select keep l) x rest kept (rw kept at m)
      | inr cut ↦ let (n, k) = rest (rw cut at m) in (Memᴰ.tail n, k)
    ]

Memᴰ-select :
    {A : Type 0} (keep : A → Bool) (l : List A) (x : A)
    → Memᴰ x l
    → keep x ≡ true
    → Memᴰ x (select keep l)
Memᴰ-select keep [] x m k = elim m [ ]
Memᴰ-select keep (y ∷ l) x (Memᴰ.head e) k =
    let kept : keep y ≡ true = ap keep (sym e) ∙ k in rw kept (Memᴰ.head e)
Memᴰ-select keep (y ∷ l) x (Memᴰ.tail m) k =
    let rest = Memᴰ-select keep l x m k in
    elim (Bool-cases (keep y)) [ inl kept ↦ rw kept (Memᴰ.tail rest) | inr cut ↦ rw cut rest ]

-- `GetIncidents` returns exactly the incidents of the engine that the filter asks for: detected at
-- `Since` or later, of at least the least score, and with an event of one of the modules, if any are
-- named.
pub get_incidents_iff :
    (e : Engine) (filter : IncidentFilter) (inc : CorrelatedIncident)
    → Memᴰ inc (get_incidents e none filter).0 ↔ (Memᴰ inc e.incidents × IsAsked filter inc)
unfolding get_incidents
get_incidents_iff e filter inc = (to, of)
  where
    p : (passes filter inc ≡ true) ↔ IsAsked filter inc
    p = passes_iff filter inc

    to : Memᴰ inc (select (passes filter) e.incidents) → Memᴰ inc e.incidents × IsAsked filter inc
    to m = let (n, k) = select-Memᴰ (passes filter) e.incidents inc m in (n, p.0 k)

    of : Memᴰ inc e.incidents × IsAsked filter inc → Memᴰ inc (select (passes filter) e.incidents)
    of (m, a) = Memᴰ-select (passes filter) e.incidents inc m (p.1 a)
