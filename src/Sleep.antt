-- ===== src/Sleep.antt =====
-- `SleepCycle` of brain/sleep.py: when to sleep, and the offline pipeline of one sleep.
pub mod Wake
mod Tests
use johnny.Prelude.{
  ℕ, String, Bool, true, false, not, Option, none, some, List, [], ◌∷◌, ◌++◌, ◌==◌, ◌&&◌, ◌%◌, Dict,
  insert, map, length, any, leb, ltb, if◌then◌else◌,
}
use Prim.Native.String.{◌++◌ as append_text}
use johnny.Prelude.Exec.{Outcome, returned, raised}
use johnny.Drives.Engine.{Urge, is_sleep_signal}

-- The fields of `SemanticFact` that the sleep reads
pub record SemanticFact : Type 0 where
  pub subject : String
  pub predicate : String
  pub object : String

pub record CheckFinding : Type 0 where
  pub probe : String
  pub ok : Bool
  pub detail : String

pub record CheckResult : Type 0 where
  pub ok : Bool
  pub findings : List CheckFinding

-- A note of a report: a text, or a list of texts
pub data Note : Type 0 where
  text : String → Note
  lines : List String → Note

pub record SleepReport : Type 0 where
  pub trigger : String
  pub started_at : ℕ
  pub ended_at : ℕ
  pub facts_written : ℕ
  pub episodes_decayed : ℕ
  pub facts_merged : ℕ
  pub self_model_version : Option ℕ
  pub snapshot_path : Option String
  pub self_check_ok : Bool
  pub reflection : String
  pub degraded_stages : List String
  pub notes : Dict Note

-- What the pipeline asks of others.
pub data SleepCall : Type 0 where
  opened : String → ℕ → SleepCall
  consolidated : SleepCall
  decayed : ℕ → SleepCall
  refreshed : List SemanticFact → SleepCall
  reviewed : ℕ → SleepCall
  snapped : SleepCall
  rested : Bool → ℕ → SleepCall
  verified : SleepCall
  closed : ℕ → ℕ → SleepReport → SleepCall

-- An answer depends on the calls so far, the last one first.
abbrev pub Answer : Type 0 → Type 0
Answer R = List SleepCall → Outcome String R

-- The collaborators. The decay answers with the numbers of episodes decayed and facts merged, the
-- refreshed self-model with its version, the review with its reflection.
pub record SleepCollaborators : Type 0 where
  pub open_log : Answer ℕ
  pub consolidate : Answer (List SemanticFact)
  pub decay : Answer (ℕ × ℕ)
  pub refresh : Answer ℕ
  pub review : Answer String
  pub snapshot : Answer String
  pub restore_energy : Answer (Unit {0})
  pub verify : Answer CheckResult
  pub close_log : Answer (Unit {0})
  pub now : List SleepCall → ℕ

-- The locals of `sleep`, and the calls made
pub record Progress : Type 0 where
  pub report : SleepReport
  pub degraded : List String
  pub notes : Dict Note
  pub calls : List SleepCall

pub record SleepCycle : Type 0 where
  pub asleep : Bool
  pub calls : List SleepCall

unfoldable pub sleep_trigger : {W : Type 0} → ℕ → SleepCycle → List (Urge W) → ℕ → Option String
unfolding is_sleep_signal
sleep_trigger every_ticks cycle urges tick =
    if cycle.asleep
    then none
    else (if any is_sleep_signal urges
        then some "energy"
        else (if (ltb 0 every_ticks && ltb 0 tick) && leb (tick % every_ticks) 0
            then some "scheduled"
            else none))

-- `_stage`: a failure of a stage degrades only that stage. `call` is what it asks of whom.
abbrev pub after_stage : {R : Type 0} → String → Outcome String R → Progress → Option R × Progress
after_stage name (returned r) p = (some r, p)
after_stage name (raised error) p = (
  none,
  record p {
    degraded = p.degraded ++ name ∷ [];
    notes = insert (append_text name "_error") (text error) p.notes;
  },
)

unfoldable pub stage : {R : Type 0} → String → SleepCall → Answer R → Progress → Option R × Progress
stage name call answer p =
    let calls = call ∷ p.calls in after_stage name (answer calls) (record p { calls = calls })

abbrev pub in_report : (SleepReport → SleepReport) → Progress → Progress
in_report g p = record p { report = g p.report }

abbrev pub facts_or_none : Option (List SemanticFact) → List SemanticFact
facts_or_none none = []
facts_or_none (some facts) = facts

abbrev pub summary : SemanticFact → String
summary fact =
    append_text fact.subject
      (append_text " " (append_text fact.predicate (append_text " " fact.object)))

abbrev pub note_facts : List SemanticFact → Progress → Progress
note_facts [] p = p
note_facts (fact ∷ facts) p = record p {
  notes = insert "consolidation_summary" (lines (map summary (fact ∷ facts))) p.notes;
}

abbrev pub note_decay : Option (ℕ × ℕ) → SleepReport → SleepReport
note_decay none r = r
note_decay (some (episodes, merged)) r = record r {
  episodes_decayed = episodes;
  facts_merged = merged;
}

abbrev pub note_version : Option ℕ → SleepReport → SleepReport
note_version none r = r
note_version (some version) r = record r { self_model_version = some version }

abbrev pub note_review : Option String → SleepReport → SleepReport
note_review none r = r
note_review (some reflection) r = record r { reflection = reflection }

abbrev pub is_some : {A : Type 0} → Option A → Bool
is_some none = false
is_some (some _) = true

abbrev pub failures : List CheckFinding → List String
failures [] = []
failures (finding ∷ findings) =
    let rest = failures findings in if finding.ok then rest else finding.probe ∷ rest

abbrev pub note_check : Option CheckResult → Progress → Progress
note_check none p = in_report (λ r. record r { self_check_ok = false }) p
note_check (some check) p =
    let q = in_report (λ r. record r { self_check_ok = check.ok }) p in
    if check.ok
    then q
    else record q { notes = insert "self_check_failures" (lines (failures check.findings)) q.notes }

module _ (c : SleepCollaborators) where
  -- The stages of `sleep` before the self-check, and the self-check
  unfoldable pub rest_stages : ℕ → ℕ → Progress → Progress
  unfolding stage
  rest_stages started degraded_ticks p0 =
      let (found, p1) = stage "consolidate" consolidated c.consolidate p0 in
      let facts = facts_or_none found in
      let p2 = note_facts facts (in_report (λ r. record r { facts_written = length facts }) p1) in
      let (decay, p3) = stage "decay" (decayed started) c.decay p2 in
      let p4 = in_report (note_decay decay) p3 in
      let (doc, p5) = stage "self_model" (refreshed facts) c.refresh p4 in
      let p6 = in_report (note_version doc) p5 in
      let (review, p7) = stage "metacognition" (reviewed degraded_ticks) c.review p6 in
      let p8 = in_report (note_review review) p7 in
      let (path, p9) = stage "backup" snapped c.snapshot p8 in
      let p10 = in_report (λ r. record r { snapshot_path = path }) p9 in
      (stage "restore_energy" (rested (is_some path) started) c.restore_energy p10).1

  unfoldable pub self_check : Progress → Progress
  unfolding stage
  self_check p = let (check, q) = stage "self_check" verified c.verify p in note_check check q

  -- The report that the `finally` completes
  unfoldable pub completed : Progress → SleepReport
  completed p = record p.report {
    ended_at = c.now p.calls;
    notes = insert "degraded" (lines p.degraded) p.notes;
    degraded_stages = p.degraded;
  }

  unfoldable pub begin : String → ℕ → List SleepCall → Progress
  begin trigger started calls = record {
    report = record {
      trigger = trigger;
      started_at = started;
      ended_at = started;
      facts_written = 0;
      episodes_decayed = 0;
      facts_merged = 0;
      self_model_version = none;
      snapshot_path = none;
      self_check_ok = false;
      reflection = "";
      degraded_stages = [];
      notes = [];
    };
    degraded = [];
    notes = [];
    calls = opened trigger started ∷ calls;
  }

  abbrev pub after_close :
      SleepReport
      → List SleepCall
      → Outcome String (Unit {0})
      → Outcome String (Option SleepReport) × SleepCycle
  after_close report calls (returned _) =
      (returned (some report), record { asleep = false; calls = calls })
  after_close report calls (raised error) = (raised error, record { asleep = true; calls = calls })

  unfoldable pub finish : ℕ → Progress → Outcome String (Option SleepReport) × SleepCycle
  unfolding completed
  finish sleep_id p =
      let report = completed p in
      let calls = closed sleep_id report.ended_at report ∷ p.calls in
      after_close report calls (c.close_log calls)

  abbrev pub after_open :
      ℕ → ℕ → Progress → Outcome String ℕ → Outcome String (Option SleepReport) × SleepCycle
  after_open started degraded_ticks p (raised error) =
      (raised error, record { asleep = false; calls = p.calls })
  after_open started degraded_ticks p (returned sleep_id) =
      finish sleep_id (self_check (rest_stages started degraded_ticks p))

  -- `sleep`, with `started` the time given or read
  unfoldable pub sleep :
      String → ℕ → ℕ → SleepCycle → Outcome String (Option SleepReport) × SleepCycle
  unfolding rest_stages self_check finish begin stage
  sleep trigger started degraded_ticks cycle =
      if cycle.asleep
      then (returned none, cycle)
      else (let p = begin trigger started cycle.calls in
          after_open started degraded_ticks p (c.open_log p.calls))
