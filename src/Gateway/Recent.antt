-- ===== src/Gateway/Recent.antt =====
-- What `Recent` and `RecentDeployments` return.
use titanops.Common.{
  append_nil, ℕ, zero, suc, ◌-◌, ◌≤◌, ◌<◌, ◌≡◌, refl, Bool, true, not, ◌&&◌, ◌||◌, List, [], ◌∷◌,
  ◌++◌, arith, length, drop, select, ltb, ◌==◌, length-drop, if◌then◌else◌, Bool-cases, inl, inr,
}
use mathlib.Core.Path.{subst}
use Prim.Native.Nat.{min}
use titanops.Common.Int.{ℤ, pos, negsuc, pos_part, ltb_ℤ}
use titanops.Gateway.Types.{AutonomousAction, DeploymentRiskEntry}
use titanops.Gateway.Stores.{last_of, recent, recent_deployments}

abbrev take_front {ℓ} : {A : Type ℓ} → ℕ → List A → List A
take_front zero l = []
take_front (suc n) [] = []
take_front (suc n) (x ∷ l) = x ∷ take_front n l

front-drop {ℓ} : {A : Type ℓ} (n : ℕ) (l : List A) → take_front n l ++ drop n l ≡ l
front-drop zero l = refl
front-drop (suc n) [] = refl
front-drop (suc n) (x ∷ l) = let rest = front-drop n l in cc

-- The last `n` entries of a list, or all of it when it has fewer.
pub record IsLast {ℓ} {A : Type ℓ} (n : ℕ) (l out : List A) : Type ℓ where
  pub front : List A
  pub suffix : front ++ out ≡ l
  pub sized : length out ≡ min n (length l)

drop-IsLast {ℓ} : {A : Type ℓ} (n : ℕ) (l : List A) → IsLast n l (drop (length l - n) l)
drop-IsLast n l = record {
  front = take_front (length l - n) l;
  suffix = front-drop (length l - n) l;
  sized = omega (arith, length-drop (length l - n) l);
}

whole-IsLast {ℓ} : {A : Type ℓ} (n : ℕ) (l : List A) → length l ≤ n → IsLast n l l
whole-IsLast n l h = record { front = []; suffix = refl; sized = omega arith }

select-ext {ℓ} :
    {A : Type ℓ} (p q : A → Bool) → ((x : A) → p x ≡ q x) → (l : List A) → select p l ≡ select q l
select-ext p q e [] = refl
select-ext p q e (x ∷ l) = let rest = select-ext p q e l in ground (arith, e x, rest)

last_of-IsLast {ℓ} : {A : Type ℓ} (n : ℕ) (l : List A) → 0 < n → IsLast n l (last_of (pos n) l)
unfolding last_of
last_of-IsLast n l h = elim (Bool-cases (ltb_ℤ (pos 0) (pos n) && ltb n (length l))) [
  | inl cut ↦ rw (cut, last_of) (drop-IsLast n l)
  | inr whole ↦ rw (whole, last_of) (whole-IsLast n l (ground arith))
]

-- `Recent` with a positive limit returns the last `limit` of the actions at `since` or later, in the order
-- in which they were added, or all of them when they are fewer.
pub recent-IsLast :
    {F : Type 0} (limit since : ℕ) (actions : List (AutonomousAction F))
    → 0 < limit
    → IsLast limit
        (select (λ a. not (ltb a.timestamp since)) actions)
        (recent (pos limit) since actions)
unfolding recent
recent-IsLast limit since actions h =
    subst (λ l. IsLast limit l (recent (pos limit) since actions))
      (select-ext _ (λ a. not (ltb a.timestamp since)) (λ a. ground arith) actions)
      (last_of-IsLast limit (select (λ a. not (not (since == 0) && ltb a.timestamp since)) actions)
        h)

nothing_asked :
    (limit : ℤ) (n : ℕ) → (not (ltb_ℤ (pos 0) limit) || n == 0) ≡ true → 0 ≡ min (pos_part limit) n
nothing_asked (pos m) n h = ground arith
nothing_asked (negsuc m) n h = omega arith

start_lem : (m n : ℕ) → n - m ≡ (if ltb m n then n - m else 0)
start_lem m n = ground arith

-- `RecentDeployments` returns the last `limit` entries, none when the limit is not positive.
pub recent_deployments-IsLast :
    (limit : ℤ) (deployments : List DeploymentRiskEntry)
    → IsLast (pos_part limit) deployments (recent_deployments limit deployments)
unfolding recent_deployments
recent_deployments-IsLast limit deployments =
    elim (Bool-cases (not (ltb_ℤ (pos 0) limit) || length deployments == 0)) [
      | inl none_asked ↦
          rw (none_asked, recent_deployments)
            (record {
              front = deployments;
              suffix = append_nil deployments;
              sized = nothing_asked limit (length deployments) none_asked;
            })
      | inr some_asked ↦
          rw (some_asked, recent_deployments)
            (subst (λ n. IsLast (pos_part limit) deployments (drop n deployments))
              (start_lem (pos_part limit) (length deployments))
              (drop-IsLast (pos_part limit) deployments))
    ]
