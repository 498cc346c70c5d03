-- ===== src/OllinAi/Change/Window.antt =====
-- The waiting time and the severity of a change as the maximum over its parts.
use titanops.Common.{ℕ, ◌≡◌, refl, ◌||◌, List, [], ◌∷◌, ltb, ◌==◌, arith, if◌then◌else◌}
use titanops.OllinAi.Change.Defs.{
  ChangeType, image, env_var, resource_limits, replica_scale, probe, rollout_strategy, other,
  another, DetectedChange, DeploymentChange, is_type, has_type, has_change_type, check_window,
}

-- The waiting time of one change of a type that has its own.
unfoldable own_window : ChangeType → ℕ
own_window image = 90
own_window env_var = 60
own_window resource_limits = 120
own_window replica_scale = 20
own_window probe = 90
own_window rollout_strategy = 0
own_window other = 0
own_window (another s) = 0

unfoldable longest_window : List DetectedChange → ℕ
longest_window [] = 0
longest_window (c ∷ changes) =
    let rest = longest_window changes in
    if ltb rest (own_window c.change_type) then own_window c.change_type else rest

-- What `CheckWindow` computes, with 0 for the changes that it does not know.
unfoldable first_window : List DetectedChange → ℕ
first_window changes =
    if has_type changes resource_limits
    then 120
    else if has_type changes image || has_type changes probe
    then 90
    else if has_type changes env_var
    then 60
    else if has_type changes replica_scale
    then 20
    else 0

longest-first_window :
    (changes : List DetectedChange) → longest_window changes ≡ first_window changes
unfolding longest_window first_window has_type is_type own_window
longest-first_window [] = refl
longest-first_window (c ∷ changes) = let rest = longest-first_window changes in ground arith

-- The waiting time of a change is the longest of the times of its parts, and a minute when none of its
-- parts is of a type with a time of its own.
check_window_lem :
    (dc : DeploymentChange)
    → check_window dc ≡ (if longest_window dc.changes == 0 then 60 else longest_window dc.changes)
unfolding check_window has_change_type first_window
check_window_lem dc = let long = longest-first_window dc.changes in ground arith
