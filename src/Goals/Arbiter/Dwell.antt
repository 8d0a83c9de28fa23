-- ===== src/Goals/Arbiter/Dwell.antt =====
-- Hysteresis: when the arbiter moves from one goal to another.
use johnny.Prelude.{
  ℕ, ◌+◌, ◌≤◌, ◌≡◌, ◌≢◌, refl, ◌⊎◌, inl, inr, true, false, Option, none, some, List, [], ◌∷◌, ◌==◌,
  eq_iff, arith, All, select, Bool-cases,
}
use mathlib.Core.List.{Memᴰ}
use johnny.Prelude.Sort.{Before, max_by-Before, max_by-Good}
use johnny.Float.{Float, ◌≼◌, IsOrdered, lt_asym, not_lt_trans}
use johnny.Drives.Engine.{Urge, is_sleep_signal}
use johnny.Goals.Store.{Goal}
use johnny.Goals.Arbiter.{
  Mood, Arbiter, priority, incumbent_priority, is_actionable, in_dwell, best_of, select_among,
  goal_from_urge, challenge, select_goal,
}

module _ {W : Type 0} ⦃f : Float W⦄ (arbiter : Arbiter W) (mood : Option (Mood W)) where
  -- No priority is NaN.
  abbrev pub IsRanked : Urge W → Type 0
  IsRanked u = priority arbiter mood u ≼ priority arbiter mood u

  -- One of the actionable urges that is as strong as any of them.
  abbrev pub IsBest : List (Urge W) → Urge W → Type 0
  IsBest urges best =
      Memᴰ best (select is_actionable urges)
      × (is_sleep_signal best ≡ false)
      × All (Before f.lt (priority arbiter mood) best) (select is_actionable urges)

  abbrev pub DwellOver : Option ℕ → ℕ → Type 0
  DwellOver none reference = Unit
  DwellOver (some created) reference = created + arbiter.min_dwell ≤ reference

  -- Why `best` may take the place of `incumbent`
  abbrev pub Beats : List (Urge W) → ℕ → Goal W → Urge W → Type 0
  Beats urges reference incumbent best =
      DwellOver incumbent.created_at reference
      × (best.drive ≢ incumbent.source)
      × (f.lt (f.add (incumbent_priority arbiter mood incumbent urges) arbiter.margin)
            (priority arbiter mood best)
          ≡ true)

  Mem-more :
      {A : Type 0} (y : A) (xs ys : List A)
      → All (λ x. Memᴰ x ys) xs
      → All (λ x. Memᴰ x (y ∷ ys)) xs
  Mem-more y [] ys h = tt
  Mem-more y (x ∷ xs) ys h = (Memᴰ.tail h.0, Mem-more y xs ys h.1)

  all_Mem : {A : Type 0} (xs : List A) → All (λ x. Memᴰ x xs) xs
  all_Mem [] = tt
  all_Mem (x ∷ xs) = (Memᴰ.head refl, Mem-more x xs xs (all_Mem xs))

  actionable-awake :
      (urges : List (Urge W)) → All (λ u. is_sleep_signal u ≡ false) (select is_actionable urges)
  actionable-awake [] = tt
  actionable-awake (u ∷ us) = elim (Bool-cases (is_sleep_signal u)) [
    | inl e ↦ rw e (actionable-awake us)
    | inr e ↦ rw e (e, actionable-awake us)
  ]

  abbrev pub Takes : List (Urge W) → ℕ → List (Goal W) → Urge W → Type 0
  Takes urges reference [] best = Unit
  Takes urges reference (incumbent ∷ _) best = Beats urges reference incumbent best

  -- The decision on a list of active goals, for the best urge or where there is none to act on.
  abbrev pub Decided : List (Urge W) → ℕ → List (Goal W) → Option (Goal W) → Type 0
  Decided urges reference actives none =
      (select is_actionable urges ≡ [])
      ⊎ ((best : Urge W) × IsBest urges best × ¬ Takes urges reference actives best)
  Decided urges reference actives (some goal) =
      (best : Urge W) × IsBest urges best
      × (goal.source ≡ best.drive)
      × (goal.priority ≡ priority arbiter mood best)
      × Takes urges reference actives best

  in_dwell-DwellOver :
      (created : Option ℕ) (reference : ℕ)
      → in_dwell arbiter created reference ≡ false
      → DwellOver created reference
  in_dwell-DwellOver none reference e = tt
  in_dwell-DwellOver (some t) reference e = ground (arith, e)

  not-DwellOver :
      (created : Option ℕ) (reference : ℕ)
      → in_dwell arbiter created reference ≡ true
      → ¬ DwellOver created reference
  not-DwellOver none reference e = λ d. cc e
  not-DwellOver (some t) reference e = λ d. ground (arith, e, d)

  challenge-Decided :
      (urges : List (Urge W)) (reference now : ℕ) (best : Urge W) (actives : List (Goal W))
      → IsBest urges best
      → Decided urges reference actives (challenge arbiter mood urges reference now best actives)
  unfolding challenge goal_from_urge
  challenge-Decided urges reference now best [] b = (best, b, refl, refl, tt)
  challenge-Decided urges reference now best (incumbent ∷ older) b =
      elim (Bool-cases (in_dwell arbiter incumbent.created_at reference)) [
        | inl held ↦
            rw held (inr (best, b, λ t. not-DwellOver incumbent.created_at reference held t.0))
        | inr over ↦ elim (Bool-cases (best.drive == incumbent.source)) [
          | inl same ↦
              rw over
                (rw same (inr (best, b, λ t. t.1 ((eq_iff best.drive incumbent.source).0 same))))
          | inr differs ↦ elim (Bool-cases (f.lt rival (priority arbiter mood best))) [
            | inl more ↦
                let dwell = in_dwell-DwellOver incumbent.created_at reference over in
                let other : best.drive ≢ incumbent.source =
                  ground (arith, differs, eq_iff best.drive incumbent.source) in
                rw over (rw differs (rw more (best, b, refl, refl, (dwell, other, more))))
            | inr less ↦ rw over (rw differs (rw less (inr (best, b, λ t. cc (less, t.2)))))
          ]
        ]
      ]
    where
      rival : W
      rival = f.add (incumbent_priority arbiter mood incumbent urges) arbiter.margin

  best_of-IsBest :
      IsOrdered W
      → (urges : List (Urge W)) (u : Urge W) (us : List (Urge W))
      → select is_actionable urges ≡ u ∷ us
      → All IsRanked (select is_actionable urges)
      → IsBest urges (best_of arbiter mood u us)
  unfolding best_of
  best_of-IsBest laws urges u us e g =
      let p = priority arbiter mood in
      let awake = rw e at (actionable-awake urges) in
      let ranked = rw e at g in
      let (first, rest) =
        max_by-Before f.lt p IsRanked (λ x y gx gy. lt_asym laws (p x) (p y) gx gy)
          (λ x y z gx gy gz. not_lt_trans laws (p x) (p y) (p z) gx gy gz) u us ranked.0 ranked.1 in
      let inside = all_Mem (u ∷ us) in
      (
        rw e (max_by-Good f.lt p (λ x. Memᴰ x (u ∷ us)) u us inside.0 inside.1),
        max_by-Good f.lt p (λ x. is_sleep_signal x ≡ false) u us awake.0 awake.1,
        rw e (first, rest),
      )

  -- `select` promotes an urge exactly when there is one to act on that may take the place of the
  -- incumbent: then the goal has the drive and the priority of a strongest urge other than the request
  -- to sleep, and an incumbent has been held for the dwell, comes from another drive and falls short of
  -- the urge by more than the margin. No priority is NaN.
  pub select_goal-Decided :
      IsOrdered W
      → (urges : List (Urge W)) (reference now : ℕ) (actives : List (Goal W))
      → All IsRanked (select is_actionable urges)
      → Decided urges reference actives (select_goal arbiter mood urges reference now actives)
  unfolding select_goal
  select_goal-Decided laws urges reference now actives g = go (select is_actionable urges) refl
    where
      go :
          (us : List (Urge W))
          → select is_actionable urges ≡ us
          → Decided urges reference actives
              (select_among arbiter mood urges reference now actives us)
      go [] e = inl e
      go (u ∷ us) e =
          challenge-Decided urges reference now (best_of arbiter mood u us) actives
            (best_of-IsBest laws urges u us e g)
