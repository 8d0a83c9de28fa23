-- ===== src/Cycle/Tick/Agency.antt =====
-- In degraded mode a tick makes no autonomous call, and only a wake check ends that mode.
use mathlib.Core.Path.{subst}
use johnny.Prelude.{
  ℕ, ◌≡◌, refl, sym, ap, ◌∙◌, Bool, true, false, Option, none, some, [], ◌∷◌, Dict, String, select,
}
use johnny.Prelude.Exec.{Outcome, returned, raised, bind_lem, ◌>>=◌, ◌>>◌}
use johnny.Float.{Float}
use johnny.Cycle.Interval.{Tempo}
use johnny.Cycle.Scene.{
  Answer, Collaborators, Scene, DeliberationResult, stage, call, slept, broadcast, caught, failed,
}
use johnny.Effectors.Dispatch.{VettedAction}
use johnny.Cycle.Stages.{deliberate, deliberate_with, check, check_with, act}
use johnny.Cycle.Tick.{
  sense, decide, conclude, count_degraded, tick, Sleep, SleepReport, maybe_sleep, degraded_by,
  sleep_transition, woken, alert_unless, sleep_on,
}
use johnny.Cycle.Tick.Calm.{is_autonomous, Quiet, Quiet-trans, sense-Quiet, conclude-Quiet}

module _ {W : Type 0} ⦃f : Float W⦄ (c : Collaborators W) (tempo : Tempo W) (capacity : ℕ) where
  deliberate-idle :
      (s : Scene W) → s.full_agency ≡ false → stage "deliberate" (deliberate c tempo capacity) s ≡ s
  unfolding deliberate stage
  deliberate-idle s e = at c.deliberate
    where
      at :
          (answer : Option (Answer W (DeliberationResult W)))
          → caught (failed "deliberate") (deliberate_with c tempo capacity answer s) ≡ s
      at none = refl
      at (some answer) = rw e refl

  check-idle : (s : Scene W) → s.full_agency ≡ false → stage "check" (check c tempo capacity) s ≡ s
  unfolding check stage
  check-idle s e = at c.vet
    where
      at :
          (answer : Option (Answer W VettedAction))
          → caught (failed "check") (check_with c tempo capacity answer s) ≡ s
      at none = refl
      at (some answer) = rw e refl

  act-idle : (s : Scene W) → s.full_agency ≡ false → stage "act" (act c tempo capacity) s ≡ s
  unfolding act stage
  act-idle s e = rw e refl

  decide-idle : (s : Scene W) → s.full_agency ≡ false → decide c tempo capacity s ≡ s
  unfolding decide
  decide-idle s e = rw (deliberate-idle s e) (rw (check-idle s e) (act-idle s e))

  count_degraded-Quiet : (s : Scene W) → Quiet capacity s (count_degraded c tempo capacity s)
  count_degraded-Quiet s = by_errors s.ctx.stage_errors
    where
      by_errors : (errors : Dict String) → Quiet capacity s (degraded_by c tempo capacity errors s)
      by_errors [] = (refl, refl, λ h. h)
      by_errors (e ∷ es) = (refl, refl, λ h. h)

  -- A tick that begins without full agency ends without it, and makes no call to deliberate, vet,
  -- commit, act, consolidate or settle, whatever the collaborators answer or raise.
  pub tick-suspended :
      (s : Scene W)
      → s.full_agency ≡ false
      → let t = (tick c tempo capacity s).1 in
        (select is_autonomous t.calls ≡ select is_autonomous s.calls) × (t.full_agency ≡ false)
  unfolding tick
  tick-suspended s e =
      let s1 = sense c tempo capacity s in
      let q1 = sense-Quiet c tempo capacity s in
      let idle = decide-idle s1 (q1.1 ∙ e) in
      let q2 = conclude-Quiet c tempo capacity s1 in
      let s2 = conclude c tempo capacity s1 in
      let q3 = count_degraded-Quiet s2 in
      let q =
        Quiet-trans capacity s s2 (count_degraded c tempo capacity s2)
          (Quiet-trans capacity s s1 s2 q1 q2) q3 in
      subst
        (λ (u : Scene W).
          let t = count_degraded c tempo capacity (conclude c tempo capacity u) in
          (select is_autonomous t.calls ≡ select is_autonomous s.calls) × (t.full_agency ≡ false))
        (sym idle) (q.0, q.1 ∙ e)

  -- What `SleepCycle.sleep` answers in a sleep after `s`
  abbrev pub sleep_answer : Sleep W → Scene W → String → Outcome String (Option SleepReport)
  sleep_answer sleep s trigger =
      sleep.run (slept trigger s.degraded_ticks ∷ broadcast "sleep" "state" ∷ s.calls)

  -- The agency after a sleep that came to this answer: the verdict of the wake self-check, if there is
  -- a report.
  abbrev pub reported : Outcome String (Option SleepReport) → Bool → Bool
  reported (returned (some report)) agency = report.self_check_ok
  reported (returned none) agency = agency
  reported (raised e) agency = agency

  -- The same, by the broadcast that precedes the sleep: one that raises keeps him awake.
  abbrev pub announced :
      Outcome String (Unit {0}) → Outcome String (Option SleepReport) → Bool → Bool
  announced (returned _) answer agency = reported answer agency
  announced (raised e) answer agency = agency

  -- The agency that the phase between ticks has to leave, by the answer of the sleep trigger.
  abbrev pub agency_after : Sleep W → Scene W → Option String → Bool
  agency_after sleep s none = s.full_agency
  agency_after sleep s (some trigger) =
      announced (c.broadcast (broadcast "sleep" "state" ∷ s.calls)) (sleep_answer sleep s trigger)
        s.full_agency

  -- When the sleep has ended, the agency is as before, and what it has to become depends on the answer.
  slept-agency :
      (sleep : Sleep W) (s : Scene W) (trigger : String)
      → let (out, t) =
          (sleep_transition c tempo capacity >> call (slept trigger s.degraded_ticks) sleep.run)
            s in
        (t.full_agency ≡ s.full_agency)
        × (agency_after sleep s (some trigger) ≡ reported out s.full_agency)
  unfolding call
  slept-agency sleep s trigger =
      bind_lem
        (λ (z : Outcome String (Option SleepReport) × Scene W).
          (z.1.full_agency ≡ s.full_agency)
          × (agency_after sleep s (some trigger) ≡ reported z.0 s.full_agency))
        (sleep_transition c tempo capacity) (λ _. call (slept trigger s.degraded_ticks) sleep.run) s
        (λ x e. (refl, rw e refl)) (λ _ e. (refl, rw e refl))

  woken-agency :
      (report : Option SleepReport) (t : Scene W)
      → (woken c tempo capacity report t).1.full_agency ≡ reported (returned report) t.full_agency
  unfolding call
  woken-agency none t = refl
  woken-agency (some report) t = alerted report.self_check_ok
    where
      alerted :
          (ok : Bool)
          → (alert_unless c tempo capacity ok
              (record t { degraded_ticks = 0; full_agency = report.self_check_ok })).1.full_agency
            ≡ report.self_check_ok
      alerted true = refl
      alerted false = refl

  -- When the trigger asks for a sleep, the broadcast before it does not raise and the sleep ends with a
  -- report, the phase between ticks sets the agency to whether the wake self-check passed, also where
  -- a later broadcast raises. In every other case it leaves the agency as it was.
  pub maybe_sleep-Rewoken :
      (sleep : Sleep W) (s : Scene W)
      → (maybe_sleep c tempo capacity (some sleep) s).1.full_agency
        ≡ agency_after sleep s (sleep.trigger s.last_urges s.tick)
  unfolding maybe_sleep call
  maybe_sleep-Rewoken sleep s = at (sleep.trigger s.last_urges s.tick)
    where
      at :
          (trigger : Option String)
          → (sleep_on c tempo capacity sleep trigger s).1.full_agency ≡ agency_after sleep s trigger
      at none = refl
      at (some trigger) =
          let m =
            sleep_transition c tempo capacity >> call (slept trigger s.degraded_ticks) sleep.run in
          let P = λ (out : Outcome String (Unit {0}) × Scene W).
            out.1.full_agency ≡ agency_after sleep s (some trigger) in
          let kept = slept-agency sleep s trigger in
          let awake : P ((m >>= woken c tempo capacity) s) =
            bind_lem P m (woken c tempo capacity) s (λ x h. kept.0 ∙ sym (rw h at kept.1))
              (λ report h.
                woken-agency report (m s).1
                ∙ (ap (reported (returned report)) kept.0 ∙ sym (rw h at kept.1))) in
          bind_lem P (m >>= woken c tempo capacity) (λ _. sleep_transition c tempo capacity) s
            (λ x h. awake) (λ _ h. awake)
