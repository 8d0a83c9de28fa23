-- ===== src/Affect/Agent/Idle.antt =====
-- brain/affect/agent.py: a tick without a fresh interaction costs no call of a model.
use johnny.Prelude.{
  ◌≡◌, refl, ◌∙◌, ℕ, String, Option, none, some, List, [], ◌∷◌, false, Bool-cases, inl, inr, All,
}
use johnny.Prelude.Exec.{bind_lem, ◌>>=◌, ◌>>◌}
use johnny.Float.{Float}
use johnny.Workspace.{WorkspaceItem}
use johnny.Drives.Engine.{DriveEvent, DriveReading}
use johnny.Affect.Appraisal.{Mood, Appraisal}
use johnny.Affect.Rules.{fresh_input, is_input}
use johnny.Affect.Agent.{
  Affect, Feeling, Appraising, latest, appraise_tick, ensure_loaded, load_from, commit, persisted,
  feel, feel_with, current, read_current, appraise, should_persist, moved_by,
}

module _ {W : Type 0} ⦃f : Float W⦄ (a : Affect W) where
  abbrev IsQuiet : {A : Type 0} → Appraising W A → Type 0
  IsQuiet m = (s : Feeling W) → (m s).1.router ≡ s.router

  then-IsQuiet :
      {A B : Type 0} (m : Appraising W A) (g : A → Appraising W B)
      → IsQuiet m
      → ((x : A) → IsQuiet (g x))
      → IsQuiet (m >>= g)
  then-IsQuiet m g h k s =
      bind_lem (λ z. z.1.router ≡ s.router) m g s (λ x e. h s) (λ x e. k x (m s).1 ∙ h s)

  load_from-IsQuiet : (c : Option (Mood W)) (error : Option String) → IsQuiet (load_from a c error)
  load_from-IsQuiet (some mood) error s = refl
  load_from-IsQuiet none (some e) s = refl
  load_from-IsQuiet none none s = refl

  ensure_loaded-IsQuiet : IsQuiet (ensure_loaded a)
  unfolding ensure_loaded latest
  ensure_loaded-IsQuiet s = load_from-IsQuiet s.current (a.latest_error s.mood) s

  persisted-IsQuiet :
      (error : Option String) (new : Mood W) (now : ℕ) → IsQuiet (persisted a error new now)
  persisted-IsQuiet none new now s = refl
  persisted-IsQuiet (some e) new now s = refl

  commit-IsQuiet : (new : Mood W) (now : ℕ) (old : Mood W) → IsQuiet (commit a new now old)
  unfolding commit
  commit-IsQuiet new now old s = elim (Bool-cases (should_persist a old new)) [
    | inl e ↦ rw e (persisted-IsQuiet (a.add_error s.mood) new now s)
    | inr e ↦ rw e refl
  ]

  feel_with-IsQuiet :
      (drives : List (DriveReading W)) (now : ℕ) (appraisal : Appraisal W)
      → IsQuiet (feel_with a drives now appraisal)
  unfolding current
  feel_with-IsQuiet drives now appraisal =
      then-IsQuiet (ensure_loaded a >> read_current a) (feel a drives now appraisal)
        (then-IsQuiet (ensure_loaded a) (λ _. read_current a) ensure_loaded-IsQuiet (λ _ s. refl))
        (λ old. commit-IsQuiet (moved_by a appraisal drives now old) now old)

  fresh_input-none :
      (contents : List (WorkspaceItem W))
      → All (λ item. is_input item ≡ false) contents
      → fresh_input contents ≡ none
  fresh_input-none [] h = refl
  fresh_input-none (item ∷ items) h = rw h.0 (fresh_input-none items h.1)

  -- A tick whose contents hold no fresh interaction leaves the router as it was: no model is called,
  -- and no breaker or call log changes, whatever the drives, the events and the database do.
  pub appraise_tick-idle :
      (contents : List (WorkspaceItem W)) (drives : List (DriveReading W))
      (events : List (DriveEvent W)) (now : ℕ) (s : Feeling W)
      → All (λ item. is_input item ≡ false) contents
      → (appraise_tick a contents drives events now s).1.router ≡ s.router
  unfolding appraise_tick appraise
  appraise_tick-idle contents drives events now s h =
      then-IsQuiet (ensure_loaded a)
        (λ _. appraise a contents drives events >>= feel_with a drives now) ensure_loaded-IsQuiet
        (λ _.
          then-IsQuiet (appraise a contents drives events) (feel_with a drives now)
            (λ t. rw (fresh_input-none contents h) refl) (feel_with-IsQuiet drives now))
        s
