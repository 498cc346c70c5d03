-- ===== src/Correlation/Scoring/Risk.antt =====
-- The bonus for an OllinAI deployment, and how the risk label is read.
use titanops.Common.{
  ℕ, ◌+◌, ◌-◌, ◌*◌, ◌%◌, ◌^◌, ◌≤◌, ◌<◌, ◌≡◌, refl, ◌∙◌, ap, sym, ◌⊎◌, inl, inr, true, ◌&&◌, List,
  [], ◌∷◌, ltb, if◌then◌else◌, arith, All,
}
use titanops.Common.Int.{ℤ, pos, ◌≤ℤ◌, signed64}
use mathlib.Core.List.{Memᴰ}
use mathlib.Core.Path.{subst}
use titanops.Export.Event.{Event}
use titanops.Correlation.Scoring.Defs.{
  deployment_risk_bonus, parse_score, extract_risk_score, is_deployment_risk, max_bonus_from,
  deployment_risk_bonus_from_events, max_deployment_risk_bonus,
}

-- A higher risk score never gives a smaller bonus, and no bonus is above 20.
pub deployment_risk_bonus_mono :
    (a b : ℤ)
    → a ≤ℤ b
    → (deployment_risk_bonus a ≤ deployment_risk_bonus b)
      × (deployment_risk_bonus b ≤ max_deployment_risk_bonus)
unfolding deployment_risk_bonus
deployment_risk_bonus_mono a b h = ground arith

abbrev pub IsDigit : ℕ → Type 0
IsDigit c = (b'0' ≤ c) × (c ≤ b'9')

-- The number that a text of decimal digits stands for, in unbounded arithmetic.
abbrev pub decimal : ℕ → List ℕ → ℕ
decimal v [] = v
decimal v (c ∷ cs) = decimal (v * 10 + (c - b'0')) cs

parse_score-step :
    (s c : ℕ) (cs : List ℕ)
    → IsDigit c
    → parse_score s (c ∷ cs) ≡ parse_score ((s * 10 + (c - b'0')) % 2 ^ 64) cs
unfolding parse_score
parse_score-step s c cs d = ground arith

parse_score-from :
    (v : ℕ) (cs : List ℕ)
    → All IsDigit cs
    → parse_score (v % 2 ^ 64) cs ≡ signed64 (decimal v cs % 2 ^ 64)
unfolding parse_score
parse_score-from v [] d = refl
parse_score-from v (c ∷ cs) d =
    parse_score-step (v % 2 ^ 64) c cs d.0
    ∙ ap (λ s. parse_score s cs) {y = (v * 10 + (c - b'0')) % 2 ^ 64} (omega arith)
    ∙ parse_score-from (v * 10 + (c - b'0')) cs d.1

-- A text of digits is read as its decimal number, wrapped to a 64-bit `int`.
pub parse_score-decimal :
    (cs : List ℕ) → All IsDigit cs → parse_score 0 cs ≡ signed64 (decimal 0 cs % 2 ^ 64)
parse_score-decimal cs d = parse_score-from 0 cs d

-- A risk label whose number lies from 2 ^ 63 to 2 ^ 64 - 1 gives no bonus, where the clamping of
-- scores above 100 would give the whole of it.
pub parse_score_wraps :
    (cs : List ℕ)
    → All IsDigit cs
    → 2 ^ 63 ≤ decimal 0 cs
    → decimal 0 cs < 2 ^ 64
    → (deployment_risk_bonus (parse_score 0 cs) ≡ 0)
      × (deployment_risk_bonus (pos (decimal 0 cs)) ≡ max_deployment_risk_bonus)
unfolding deployment_risk_bonus
parse_score_wraps cs d lo hi = (rw (parse_score-decimal cs d) (ground arith), ground arith)

abbrev pub bonus_of : Event → ℕ
bonus_of ev = deployment_risk_bonus (extract_risk_score ev)

bonus_of-le : (ev : Event) → bonus_of ev ≤ 20
unfolding deployment_risk_bonus
bonus_of-le ev = ground arith

max_bonus_from-step :
    (best : ℕ) (ev : Event) (evs : List Event)
    → (b : ℕ) × (max_bonus_from best (ev ∷ evs) ≡ max_bonus_from b evs)
      × (best ≤ b)
      × (is_deployment_risk ev ≡ true → bonus_of ev ≤ b)
      × ((b ≡ best) ⊎ ((is_deployment_risk ev ≡ true) × (b ≡ bonus_of ev)))
unfolding max_bonus_from
max_bonus_from-step best ev evs =
    let bonus = deployment_risk_bonus (extract_risk_score ev) in
    (
      if is_deployment_risk ev && ltb best bonus then bonus else best,
      refl,
      ground arith,
      λ h. ground arith,
      ground arith,
    )

-- The result of the loop is the largest of `best` and the bonuses of the deployment events.
pub record IsLargest (best : ℕ) (evs : List Event) (n : ℕ) : Type 0 where
  pub over : best ≤ n
  pub covers : (a : Event) → Memᴰ a evs → is_deployment_risk a ≡ true → bonus_of a ≤ n
  pub attained :
      (n ≡ best) ⊎ ((a : Event) × Memᴰ a evs × (is_deployment_risk a ≡ true) × (n ≡ bonus_of a))

max_bonus_from-IsLargest :
    (best : ℕ) (evs : List Event) → IsLargest best evs (max_bonus_from best evs)
unfolding max_bonus_from
max_bonus_from-IsLargest best [] = record {
  over = omega arith;
  covers = λ a m. elim m [ ];
  attained = inl refl;
}
max_bonus_from-IsLargest best (ev ∷ evs) =
    let (b, e, up, mine, which) = max_bonus_from-step best ev evs in
    let rest = max_bonus_from-IsLargest b evs in
    rw e (record {
      over = omega (arith, rest.over);
      covers = λ a m. covered b mine rest.over rest.covers a m;
      attained = found b which rest.attained;
    })
  where
    n : ℕ
    n = max_bonus_from (max_bonus_from-step best ev evs).0 evs

    covered :
        (b : ℕ)
        → (is_deployment_risk ev ≡ true → bonus_of ev ≤ b)
        → b ≤ n
        → ((a : Event) → Memᴰ a evs → is_deployment_risk a ≡ true → bonus_of a ≤ n)
        → (a : Event) → Memᴰ a (ev ∷ evs)
        → is_deployment_risk a ≡ true
        → bonus_of a ≤ n
    covered b mine up all a (Memᴰ.head e) risk =
        subst (λ x. bonus_of x ≤ n) (sym e) (omega (arith, mine (rw e at risk), up))
    covered b mine up all a (Memᴰ.tail m) risk = all a m risk

    found :
        (b : ℕ)
        → (b ≡ best) ⊎ ((is_deployment_risk ev ≡ true) × (b ≡ bonus_of ev))
        → (n ≡ b) ⊎ ((a : Event) × Memᴰ a evs × (is_deployment_risk a ≡ true) × (n ≡ bonus_of a))
        → (n ≡ best)
          ⊎ ((a : Event) × Memᴰ a (ev ∷ evs) × (is_deployment_risk a ≡ true) × (n ≡ bonus_of a))
    found b which (inr (a, m, risk, e)) = inr (a, Memᴰ.tail m, risk, e)
    found b (inl same) (inl e) = inl (e ∙ same)
    found b (inr (risk, same)) (inl e) = inr (ev, Memᴰ.head refl, risk, e ∙ same)

-- The deployment bonus of a group is 0 if the group holds no deployment event with a bonus, and
-- else the largest bonus of its deployment events; it is never above 20.
pub deployment_risk_bonus_from_events-IsLargest :
    (evs : List Event)
    → IsLargest 0 evs (deployment_risk_bonus_from_events evs)
      × (deployment_risk_bonus_from_events evs ≤ max_deployment_risk_bonus)
unfolding deployment_risk_bonus_from_events
deployment_risk_bonus_from_events-IsLargest evs =
    let largest = max_bonus_from-IsLargest 0 evs in (largest, bounded largest.attained)
  where
    bounded :
        (max_bonus_from 0 evs ≡ 0)
          ⊎ ((a : Event) × Memᴰ a evs
              × (is_deployment_risk a ≡ true)
              × (max_bonus_from 0 evs ≡ bonus_of a))
        → max_bonus_from 0 evs ≤ max_deployment_risk_bonus
    bounded (inl e) = omega arith
    bounded (inr (a, m, risk, e)) = omega (arith, bonus_of-le a)
