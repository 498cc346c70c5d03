-- ===== src/OllinAi/Watcher/Diff.antt =====
-- Which differences of two snapshots are seen.
use titanops.Common.{
  ℕ, ◌≡◌, ◌↔◌, ◌⊎◌, refl, String, true, false, Option, none, some, List, [], ◌∷◌, All, arith,
  eq_iff, append_nil_iff,
}
use titanops.Common.Int.{ℤ, pos, negsuc, eqb_ℤ}
use titanops.Common.Dict.{lookup}
use titanops.OllinAi.Change.{DetectedChange}
use titanops.OllinAi.Watcher.Defs.{
  Values, Nested, WorkloadSnapshot, value_at, is_same_image, diff_images, diff_values, diff_nested,
  env_change, limit_change, request_change, probe_change, diff_replicas, diff_strategy,
  diff_snapshots, Previous, workload_key, change_of, observe,
}

-- The old map has each entry of the new one.
abbrev pub HasImages : Values → Values → Type 0
HasImages old = All (λ (e : String × String). lookup e.0 old ≡ some e.1)

-- Each value of the new map is what the old one answers, an empty text for a missing one.
abbrev pub HasValues : Nested → String → Values → Type 0
HasValues old container = All (λ (e : String × String). value_at old container e.0 ≡ e.1)

abbrev pub HasNested : Nested → Nested → Type 0
HasNested old = All (λ (e : String × Values). HasValues old e.0 e.1)

pub record IsUnchanged (prev curr : WorkloadSnapshot) : Type 0 where
  pub images : HasImages prev.image_tags curr.image_tags
  pub env : HasNested prev.env_vars curr.env_vars
  pub replicas : prev.replicas ≡ curr.replicas
  pub limits : HasNested prev.resource_limits curr.resource_limits
  pub requests : HasNested prev.resource_requests curr.resource_requests
  pub probes : HasNested prev.probe_fingerprints curr.probe_fingerprints
  pub strategy : (prev.strategy_type ≡ curr.strategy_type) ⊎ (curr.strategy_type ≡ "")

is_same_image_iff :
    (o : Option String) (image : String) → (is_same_image o image ≡ true) ↔ (o ≡ some image)
unfolding is_same_image
is_same_image_iff none image = ground arith
is_same_image_iff (some old) image = ground (arith, eq_iff old image)

diff_images_iff : (old new : Values) → (diff_images old new ≡ []) ↔ HasImages old new
unfolding diff_images
diff_images_iff old [] = (λ h. tt, λ h. refl)
diff_images_iff old ((container, image) ∷ images) =
    let rest = diff_images_iff old images in
    ground (arith, is_same_image_iff (lookup container old) image)

module _ (make : String → String → String → String → DetectedChange) where
  diff_values_iff :
      (old : Nested) (container : String) (new : Values)
      → (diff_values make old container new ≡ []) ↔ HasValues old container new
  unfolding diff_values
  diff_values_iff old container [] = (λ h. tt, λ h. refl)
  diff_values_iff old container ((name, value) ∷ values) =
      let rest = diff_values_iff old container values in
      ground (arith, eq_iff (value_at old container name) value)

  diff_nested_iff : (old new : Nested) → (diff_nested make old new ≡ []) ↔ HasNested old new
  unfolding diff_nested
  diff_nested_iff old [] = (λ h. tt, λ h. refl)
  diff_nested_iff old ((container, values) ∷ containers) =
      let rest = diff_nested_iff old containers in
      let here = diff_values_iff old container values in
      let both =
        append_nil_iff (diff_values make old container values) (diff_nested make old containers) in
      (λ h. (here.0 (both.0 h).0, rest.0 (both.0 h).1), λ h. both.1 (here.1 h.0, rest.1 h.1))

diff_replicas_iff : (a b : ℤ) → (diff_replicas a b ≡ []) ↔ (a ≡ b)
unfolding diff_replicas
diff_replicas_iff (pos a) (pos b) = ground arith
diff_replicas_iff (pos a) (negsuc b) = ground arith
diff_replicas_iff (negsuc a) (pos b) = ground arith
diff_replicas_iff (negsuc a) (negsuc b) = ground arith

diff_strategy_iff : (a b : String) → (diff_strategy a b ≡ []) ↔ ((a ≡ b) ⊎ (b ≡ ""))
unfolding diff_strategy
diff_strategy_iff a b = ground (arith, eq_iff a b, eq_iff b "")

diff_snapshots_iff :
    (prev curr : WorkloadSnapshot) → (diff_snapshots prev curr ≡ []) ↔ IsUnchanged prev curr
unfolding diff_snapshots
diff_snapshots_iff prev curr =
    let a = diff_images_iff prev.image_tags curr.image_tags in
    let b = diff_nested_iff env_change prev.env_vars curr.env_vars in
    let c = diff_replicas_iff prev.replicas curr.replicas in
    let d = diff_nested_iff limit_change prev.resource_limits curr.resource_limits in
    let e = diff_nested_iff request_change prev.resource_requests curr.resource_requests in
    let f = diff_nested_iff probe_change prev.probe_fingerprints curr.probe_fingerprints in
    let g = diff_strategy_iff prev.strategy_type curr.strategy_type in
    (
      λ h.
          let (h1, t1) = (append_nil_iff _ _).0 h in
          let (h2, t2) = (append_nil_iff _ _).0 t1 in
          let (h3, t3) = (append_nil_iff _ _).0 t2 in
          let (h4, t4) = (append_nil_iff _ _).0 t3 in
          let (h5, t5) = (append_nil_iff _ _).0 t4 in
          let (h6, t6) = (append_nil_iff _ _).0 t5 in
          record {
            images = a.0 h1;
            env = b.0 h2;
            replicas = c.0 h3;
            limits = d.0 h4;
            requests = e.0 h5;
            probes = f.0 h6;
            strategy = g.0 t6;
          },
      λ u. (append_nil_iff _ _).1 (
        a.1 u.images,
        (append_nil_iff _ _).1 (
          b.1 u.env,
          (append_nil_iff _ _).1 (
            c.1 u.replicas,
            (append_nil_iff _ _).1 (
              d.1 u.limits,
              (append_nil_iff _ _).1
                  (e.1 u.requests, (append_nil_iff _ _).1 (f.1 u.probes, g.1 u.strategy)),
            ),
          ),
        ),
      ),
    )

change_of_iff :
    (now : ℕ) (curr : WorkloadSnapshot) (changes : List DetectedChange)
    → (change_of now curr changes ≡ []) ↔ (changes ≡ [])
unfolding change_of
change_of_iff now curr [] = (λ h. refl, λ h. refl)
change_of_iff now curr (c ∷ changes) = (λ h. cc, λ h. cc)

-- For a workload that was seen before, with another generation than then, a poll reports nothing exactly if
-- the replicas are the same, the strategy is the same or empty, every image is that of its container
-- before, and every other value is what the old snapshot answers for it, an empty text for none. An
-- entry that only the old snapshot has is not looked for.
pub observe_iff :
    (now : ℕ) (curr prev : WorkloadSnapshot) (previous : Previous)
    → lookup (workload_key curr) previous ≡ some prev
    → eqb_ℤ curr.generation prev.generation ≡ false
    → ((observe now curr previous).0 ≡ []) ↔ IsUnchanged prev curr
unfolding observe
observe_iff now curr prev previous found other =
    let diff = diff_snapshots_iff prev curr in
    let reports = change_of_iff now curr (diff_snapshots prev curr) in
    rw (found, other, observe) (λ h. diff.0 (reports.0 h), λ u. reports.1 (diff.1 u))
