-- ===== src/OllinAi/Watcher/Defs.antt =====
-- Two snapshots of a workload compared, and one poll. The maps of a snapshot stand in the order in which Go
-- walks them.
use titanops.Common.{
  ℕ, String, Bool, false, not, Option, none, some, List, [], ◌∷◌, ◌++◌, if◌then◌else◌, str_eq, ◌&&◌,
}
use titanops.Common.Int.{ℤ, eqb_ℤ}
use titanops.Common.Dict.{lookup, insert}
use titanops.Common.Text.{◌+◌ as ◌&◌}
use titanops.OllinAi.Change.{
  DetectedChange, DeploymentChange, classify_image_change, classify_env_change,
  classify_resource_change, classify_replica_change, classify_probe_change,
  classify_rollout_strategy_change,
}

abbrev pub Values : Type 0
Values = List (String × String)

-- By the container first.
abbrev pub Nested : Type 0
Nested = List (String × Values)

pub record WorkloadSnapshot : Type 0 where
  pub name : String
  pub kind : String
  pub namespace : String
  pub generation : ℤ
  pub image_tags : Values
  pub env_vars : Nested
  pub replicas : ℤ
  pub resource_limits : Nested
  pub resource_requests : Nested
  pub probe_fingerprints : Nested
  pub strategy_type : String
  pub annotations : Values

-- `m[key]` of a map of texts, nil or not.
abbrev pub value_or_empty : Option String → String
value_or_empty none = ""
value_or_empty (some v) = v

abbrev pub values_or_empty : Option Values → Values
values_or_empty none = []
values_or_empty (some m) = m

unfoldable pub value_at : Nested → String → String → String
value_at m container name = value_or_empty (lookup name (values_or_empty (lookup container m)))

unfoldable pub is_same_image : Option String → String → Bool
is_same_image none image = false
is_same_image (some old) image = str_eq old image

unfoldable pub diff_images : Values → Values → List DetectedChange
diff_images old [] = []
diff_images old ((container, image) ∷ images) =
    let rest = diff_images old images in
    let before = lookup container old in
    if is_same_image before image
    then rest
    else classify_image_change ("containers[" & container & "].image") (value_or_empty before) image
      ∷ rest

-- `make` classifies the change of a value of a container, by its name and the old and the new value.
module _ (make : String → String → String → String → DetectedChange) where
  unfoldable pub diff_values : Nested → String → Values → List DetectedChange
  diff_values old container [] = []
  diff_values old container ((name, value) ∷ values) =
      let rest = diff_values old container values in
      let before = value_at old container name in
      if str_eq before value then rest else make container name before value ∷ rest

  unfoldable pub diff_nested : Nested → Nested → List DetectedChange
  diff_nested old [] = []
  diff_nested old ((container, values) ∷ containers) =
      diff_values old container values ++ diff_nested old containers

abbrev pub env_change : String → String → String → String → DetectedChange
env_change container name = classify_env_change ("containers[" & container & "].env[" & name & "]")

abbrev pub limit_change : String → String → String → String → DetectedChange
limit_change container name =
    classify_resource_change ("containers[" & container & "].resources.limits[" & name & "]")

abbrev pub request_change : String → String → String → String → DetectedChange
request_change container name =
    classify_resource_change ("containers[" & container & "].resources.requests[" & name & "]")

abbrev pub probe_change : String → String → String → String → DetectedChange
probe_change container name before value =
    classify_probe_change ("containers[" & container & "]." & name & "Probe")
      "probe configuration changed"

unfoldable pub diff_replicas : ℤ → ℤ → List DetectedChange
diff_replicas before now = if eqb_ℤ before now then [] else classify_replica_change before now ∷ []

unfoldable pub diff_strategy : String → String → List DetectedChange
diff_strategy before now =
    if not (str_eq before now) && not (str_eq now "")
    then classify_rollout_strategy_change before now ∷ []
    else []

unfoldable pub diff_snapshots : WorkloadSnapshot → WorkloadSnapshot → List DetectedChange
diff_snapshots prev curr =
    diff_images prev.image_tags curr.image_tags
    ++ (diff_nested env_change prev.env_vars curr.env_vars
        ++ (diff_replicas prev.replicas curr.replicas
            ++ (diff_nested limit_change prev.resource_limits curr.resource_limits
                ++ (diff_nested request_change prev.resource_requests curr.resource_requests
                    ++ (diff_nested probe_change prev.probe_fingerprints curr.probe_fingerprints
                        ++ diff_strategy prev.strategy_type curr.strategy_type)))))

abbrev pub Previous : Type 0
Previous = List (String × WorkloadSnapshot)

unfoldable pub workload_key : WorkloadSnapshot → String
workload_key s = s.kind & "/" & s.namespace & "/" & s.name

unfoldable pub capture_baseline : List WorkloadSnapshot → Previous → Previous
capture_baseline [] previous = previous
capture_baseline (snap ∷ snapshots) previous =
    capture_baseline snapshots (insert (workload_key snap) snap previous)

unfoldable pub change_of : ℕ → WorkloadSnapshot → List DetectedChange → List DeploymentChange
change_of now current [] = []
change_of now current (c ∷ changes) =
    record {
      workload_name = current.name;
      workload_kind = current.kind;
      namespace = current.namespace;
      changes = c ∷ changes;
      detected_at = now;
      commit_sha = value_or_empty (lookup "app.kubernetes.io/commit" current.annotations);
      deployer = value_or_empty (lookup "app.kubernetes.io/deployed-by" current.annotations);
    }
    ∷ []

-- A snapshot against the one before it: what it reports, and what is kept.
unfoldable pub observe : ℕ → WorkloadSnapshot → Previous → List DeploymentChange × Previous
observe now current previous = elim (lookup (workload_key current) previous) [
  | none ↦ ([], insert (workload_key current) current previous)
  | some prev ↦ if eqb_ℤ current.generation prev.generation then ([], previous) else (
    change_of now current (diff_snapshots prev current),
    insert (workload_key current) current previous,
  )
]

-- The callback's calls, in their order.
unfoldable pub poll : ℕ → List WorkloadSnapshot → Previous → List DeploymentChange × Previous
poll now [] previous = ([], previous)
poll now (current ∷ snapshots) previous =
    let (reported, kept) = observe now current previous in
    let (rest, previous') = poll now snapshots kept in (reported ++ rest, previous')
