-- ===== src/Sleep/Wake.antt =====
-- How a sleep ends: whether the cycle wakes, and what it reports of the self-check.
use johnny.Prelude.{
  ◌≡◌, refl, ℕ, String, Bool, true, false, Option, none, some, List, ◌∷◌, ◌⊎◌, inl, inr, Bool-cases,
}
use johnny.Prelude.Exec.{Outcome, returned, raised}
use johnny.Drives.Engine.{Urge}
use johnny.Sleep.{
  SleepCycle, SleepReport, SleepCall, SleepCollaborators, CheckResult, Progress, sleep,
  sleep_trigger, after_open, after_close, self_check, rest_stages, finish, completed, begin, stage,
  note_check, after_stage, verified, closed,
}

module _ (c : SleepCollaborators) where
  -- A pass is reported only as the answer of the self-check.
  abbrev pub Checked : Bool → Type 0
  Checked ok =
      (ok ≡ false)
      ⊎ ((calls : List SleepCall) × (check : CheckResult) × (c.verify (verified ∷ calls)
            ≡ returned check)
          × (ok ≡ check.ok))

  -- Awake with a report of what the self-check answered, or left with an exception
  abbrev pub Ended : Outcome String (Option SleepReport) × SleepCycle → Type 0
  Ended (returned none, cycle) = ◌≡◌ {A = Bool} true false
  Ended (returned (some report), cycle) = (cycle.asleep ≡ false) × Checked report.self_check_ok
  Ended (raised error, cycle) = (cycle.asleep ≡ false) ⊎ (c.close_log cycle.calls ≡ raised error)

  noted :
      (check : CheckResult) (p : Progress)
      → (note_check (some check) p).report.self_check_ok ≡ check.ok
  noted check p = elim (Bool-cases check.ok) [ inl e ↦ rw e refl | inr e ↦ rw e refl ]

  checked :
      (p : Progress) (answer : Outcome String CheckResult)
      → c.verify (verified ∷ p.calls) ≡ answer
      → let (check, q) =
          after_stage "self_check" answer (record p { calls = verified ∷ p.calls }) in
        Checked (note_check check q).report.self_check_ok
  checked p (raised error) e = inl refl
  checked p (returned check) e =
      inr (p.calls, check, e, noted check (record p { calls = verified ∷ p.calls }))

  closed-Ended :
      (report : SleepReport) (calls : List SleepCall) (answer : Outcome String (Unit {0}))
      → c.close_log calls ≡ answer
      → Checked report.self_check_ok
      → Ended (after_close c report calls answer)
  closed-Ended report calls (returned _) e k = (refl, k)
  closed-Ended report calls (raised error) e k = inr e

  opened-Ended :
      (started degraded_ticks : ℕ) (p : Progress) (answer : Outcome String ℕ)
      → Ended (after_open c started degraded_ticks p answer)
  unfolding self_check finish completed stage rest_stages
  opened-Ended started degraded_ticks p (raised error) = inl refl
  opened-Ended started degraded_ticks p (returned id) =
      let q = rest_stages c started degraded_ticks p in
      closed-Ended (completed c (self_check c q)) _ _ refl (checked q _ refl)

  -- A sleep that begins awake ends awake with a report, where the self-check counts as passed only if
  -- it answered so, or it raises. It stays asleep only if closing the sleep log raises.
  pub sleep-Ended :
      (trigger : String) (started degraded_ticks : ℕ) (cycle : SleepCycle)
      → cycle.asleep ≡ false
      → Ended (sleep c trigger started degraded_ticks cycle)
  unfolding sleep begin
  sleep-Ended trigger started degraded_ticks cycle awake =
      let p = begin c trigger started cycle.calls in
      rw awake (opened-Ended started degraded_ticks p (c.open_log p.calls))

  -- Where the log of a sleep opens and closing it raises, the cycle stays asleep: no urges and no tick
  -- trigger a sleep again.
  pub sleep-wedged :
      (id : ℕ) (error : String)
      → ((calls : List SleepCall) → c.open_log calls ≡ returned id)
      → ((calls : List SleepCall) → c.close_log calls ≡ raised error)
      → (trigger : String) (started degraded_ticks : ℕ) (cycle : SleepCycle) → cycle.asleep ≡ false
      → {W : Type 0} (every_ticks : ℕ) (urges : List (Urge W)) (tick : ℕ)
      → let after = (sleep c trigger started degraded_ticks cycle).1 in
        (after.asleep ≡ true) × (sleep_trigger every_ticks after urges tick ≡ none)
  unfolding sleep sleep_trigger begin finish
  sleep-wedged id error opens closes trigger started degraded_ticks cycle awake every_ticks urges
        tick =
      let p = begin c trigger started cycle.calls in
      let q = self_check c (rest_stages c started degraded_ticks p) in
      let report = completed c q in
      rw awake
        (rw (opens p.calls) (rw (closes (closed id report.ended_at report ∷ q.calls)) (refl, refl)))
