-- ===== src/Cycle/Tick.antt =====
-- `tick` of brain/cycle.py, the sleep between ticks and the wake check.
pub mod Calm
pub mod Agency
pub mod Bounded
use johnny.Prelude.{
  ℕ, suc, String, Bool, true, false, not, Option, none, some, List, [], ◌∷◌, Dict, if◌then◌else◌,
  length,
}
use johnny.Prelude.Exec.{Outcome, returned, raised, Exec, pure, ◌>>=◌, ◌>>◌}
use johnny.Float.{Float}
use johnny.Drives.Engine.{Urge}
use johnny.Cycle.Interval.{Tempo}
use johnny.Cycle.Scene.{
  CycleContext, new_context, TickReport, Call, broadcast, slept, Answer, Collaborators, Scene,
  Stage, call, modify, done, stage, emit,
}
use johnny.Cycle.Stages.{
  perceive, appraise, attend, recall, narrate, deliberate, check, act, learn, broadcast_state,
}

-- The part of `SleepReport` that the cycle reads.
pub record SleepReport : Type 0 where
  pub self_check_ok : Bool

-- `SleepCycle`: whether to sleep after a tick with the given urges, and the offline pipeline.
pub record Sleep (W : Type 0) : Type 0 where
  pub trigger : List (Urge W) → ℕ → Option String
  pub run : Answer W (Option SleepReport)

module _ {W : Type 0} ⦃f : Float W⦄ (c : Collaborators W) (tempo : Tempo W) (capacity : ℕ) where
  abbrev pub begun : Scene W → Scene W
  begun s = record s { tick = suc s.tick; ctx = new_context (suc s.tick) }

  -- The stages up to the narration, which run whatever the agency is.
  unfoldable pub sense : Scene W → Scene W
  unfolding emit stage perceive appraise attend recall narrate
  sense s = stage "narrate" (narrate c tempo capacity) (
      stage "recall" (recall c tempo capacity) (
        stage "attend" (attend c tempo capacity) (
          stage "appraise" (appraise c tempo capacity) (
            stage "perceive" (perceive c tempo capacity)
              (emit c "cycle" "cycle.tick" none (begun s)).1))))

  unfoldable pub decide : Scene W → Scene W
  unfolding stage deliberate check act
  decide s =
      stage "act" (act c tempo capacity) (
        stage "check" (check c tempo capacity) (stage "deliberate" (deliberate c tempo capacity) s))

  unfoldable pub conclude : Scene W → Scene W
  unfolding stage learn broadcast_state
  conclude s =
      stage "state" (broadcast_state c tempo capacity) (stage "learn" (learn c tempo capacity) s)

  abbrev pub degraded_by : Dict String → Scene W → Scene W
  degraded_by [] s = s
  degraded_by (e ∷ es) s = record s { degraded_ticks = suc s.degraded_ticks }

  abbrev pub count_degraded : Scene W → Scene W
  count_degraded s = degraded_by s.ctx.stage_errors s

  unfoldable pub tick : Scene W → TickReport × Scene W
  unfolding sense decide conclude
  tick s =
      let t = count_degraded (conclude (decide (sense s))) in
      (
        record {
          tick = t.ctx.tick;
          percept_count = length t.ctx.percepts;
          content_count = length t.ctx.contents;
          thought = t.ctx.thought;
          stage_errors = t.ctx.stage_errors;
        },
        t,
      )

  -- `_emit_degraded_alert`, and `_emit_sleep_transition`: broadcasts that may raise
  abbrev pub alert : Stage W (Unit {0})
  alert = call (broadcast "sleep" "sleep.degraded") c.broadcast

  abbrev pub sleep_transition : Stage W (Unit {0})
  sleep_transition = call (broadcast "sleep" "state") c.broadcast

  abbrev pub alert_unless : Bool → Stage W (Unit {0})
  alert_unless true = done
  alert_unless false = alert

  abbrev pub woken : Option SleepReport → Stage W (Unit {0})
  woken none = done
  woken (some report) =
      modify (λ s. record s { degraded_ticks = 0; full_agency = report.self_check_ok })
      >> alert_unless report.self_check_ok

  abbrev pub sleep_on : Sleep W → Option String → Stage W (Unit {0})
  sleep_on sleep none = done
  sleep_on sleep (some trigger) = λ s.
      (sleep_transition
          >> call (slept trigger s.degraded_ticks) sleep.run
          >>= woken
          >> sleep_transition)
        s

  -- `_maybe_sleep`
  unfoldable pub maybe_sleep : Option (Sleep W) → Stage W (Unit {0})
  unfolding call
  maybe_sleep none s = (returned tt, s)
  maybe_sleep (some sleep) s = sleep_on sleep (sleep.trigger s.last_urges s.tick) s

  -- `apply_wake_check`, at startup
  unfoldable pub apply_wake_check : Bool → Stage W (Unit {0})
  unfolding call
  apply_wake_check ok = modify (λ s. record s { full_agency = ok }) >> alert_unless ok
