-- ===== src/Drives/Engine.antt =====
-- brain/drives/engine.py: readings, urges, the aggregation of events and the step of the engine.
pub mod Bounds
pub mod Urges
use johnny.Prelude.{
  ℕ, String, ◌≡◌, Bool, true, false, Option, none, some, List, [], ◌∷◌, Dict, lookup, insert, ltb,
  if◌then◌else◌, ◌==◌, ◌||◌, ◌-◌,
}
use johnny.Prelude.Exec.{Outcome, returned, raised}
use johnny.Prelude.Sort.{sort_desc}
use johnny.Float.{Float, clamp01}
use johnny.Drives.Parameters.{DriveParams, DriveConfig, advance, deltas_for, drive_names}

pub record DriveEvent (W : Type 0) : Type 0 where
  pub kind : String
  pub intensity : W

-- `DriveReading`, and the columns of `DriveStateRow`, which are the same. Times are in microseconds.
pub record DriveReading (W : Type 0) : Type 0 where
  pub drive : String
  pub value : W
  pub setpoint : W
  pub accrual_rate : W
  pub decay_rate : W
  pub threshold : W
  pub updated_at : ℕ

pub record Urge (W : Type 0) : Type 0 where
  pub drive : String
  pub value : W
  pub threshold : W
  pub urgency : W

unfoldable pub is_sleep_signal : {W : Type 0} → Urge W → Bool
is_sleep_signal u = u.drive == "energy"

module _ {W : Type 0} ⦃f : Float W⦄ where
  unfoldable pub over_threshold : DriveReading W → Bool
  over_threshold r = f.le r.threshold r.value

  unfoldable pub urgency : DriveReading W → W
  urgency r =
      if f.lt r.value r.threshold || f.le f.one r.threshold
      then f.zero
      else clamp01 (f.div (f.sub r.value r.threshold) (f.sub f.one r.threshold))

  abbrev urge_of : DriveReading W → Urge W
  urge_of r = record {
    drive = r.drive;
    value = r.value;
    threshold = r.threshold;
    urgency = urgency r;
  }

  unfoldable pub over_threshold_urges : List (DriveReading W) → List (Urge W)
  unfolding over_threshold urgency
  over_threshold_urges [] = []
  over_threshold_urges (r ∷ rs) =
      let rest = over_threshold_urges rs in if over_threshold r then urge_of r ∷ rest else rest

  -- `DriveEngine.urges`
  unfoldable pub urges : List (DriveReading W) → List (Urge W)
  unfolding over_threshold_urges
  urges readings = sort_desc f.lt (λ u. u.urgency) (over_threshold_urges readings)

  abbrev or_zero : Option W → W
  or_zero none = f.zero
  or_zero (some x) = x

  -- The inner and the outer loop of `_aggregate_deltas`
  unfoldable pub add_weights : W → Dict W → Dict W → Dict W
  add_weights intensity [] totals = totals
  add_weights intensity ((drive, weight) ∷ rest) totals =
      add_weights intensity rest
        (insert drive (f.add (or_zero (lookup drive totals)) (f.mul weight intensity)) totals)

  unfoldable pub aggregate_from : DriveConfig W → Dict W → List (DriveEvent W) → Dict W
  unfolding add_weights
  aggregate_from config totals [] = totals
  aggregate_from config totals (e ∷ es) =
      aggregate_from config (add_weights e.intensity (deltas_for config e.kind) totals) es

  unfoldable pub aggregate_deltas : DriveConfig W → List (DriveEvent W) → Dict W
  unfolding aggregate_from
  aggregate_deltas config events = aggregate_from config [] events

  -- `seconds` is the float number of seconds in a number of microseconds.
  module _ (decay : W → W → W) (seconds : ℕ → W) where
    -- The new row of one drive; `-` stops at 0 like the `max(0.0, …)` of the source.
    unfoldable pub stepped :
        DriveParams W → Dict W → ℕ → String → Option (DriveReading W) → DriveReading W
    stepped p deltas reference drive row =
        let (value, updated_at) = live row in
        let dt = seconds (reference - updated_at) in
        record {
          drive = drive;
          value = clamp01 (f.add (advance decay p value dt) (or_zero (lookup drive deltas)));
          setpoint = p.setpoint;
          accrual_rate = p.accrual_rate;
          decay_rate = p.decay_rate;
          threshold = p.threshold;
          updated_at = reference;
        }
      where
        live : Option (DriveReading W) → W × ℕ
        live none = (p.setpoint, reference)
        live (some r) = (r.value, r.updated_at)

    -- The loop of `step` over the drive names: the rows by drive, and the readings. `none` is the
    -- `KeyError` of a configuration that omits a drive.
    unfoldable pub step_drives :
        DriveConfig W
        → Dict W
        → ℕ
        → List String
        → Dict (DriveReading W)
        → Option (List (DriveReading W) × Dict (DriveReading W))
    unfolding stepped
    step_drives config deltas reference [] rows = some ([], rows)
    step_drives config deltas reference (drive ∷ drives) rows = elim (lookup drive config.drives) [
      | none ↦ none
      | some p ↦
          let row = stepped p deltas reference drive (lookup drive rows) in
          elim (step_drives config deltas reference drives (insert drive row rows)) [
            | none ↦ none
            | some (readings, rows') ↦ some (row ∷ readings, rows')
          ]
    ]

    unfoldable pub step :
        DriveConfig W
        → List (DriveEvent W)
        → ℕ
        → Dict (DriveReading W)
        → Option (List (DriveReading W) × Dict (DriveReading W))
    unfolding step_drives aggregate_deltas
    step config events reference rows =
        step_drives config (aggregate_deltas config events) reference drive_names rows

  unfoldable pub current_of : List String → Dict (DriveReading W) → List (DriveReading W)
  current_of [] rows = []
  current_of (drive ∷ drives) rows = elim (lookup drive rows) [
    | none ↦ current_of drives rows
    | some row ↦ row ∷ current_of drives rows
  ]

  -- `DriveEngine.current`
  unfoldable pub current : Dict (DriveReading W) → List (DriveReading W)
  unfolding current_of
  current rows = current_of drive_names rows
