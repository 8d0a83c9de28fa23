-- ===== src/Drives/Engine/Bounds.antt =====
-- The pressures stay in [0, 1], and a step needs no more than a complete configuration.
use johnny.Prelude.{
  ℕ, String, ◌≡◌, ◌≢◌, refl, ap, Option, none, some, List, [], ◌∷◌, Dict, lookup, insert, All, map,
}
use johnny.Float.{Float, ◌≼◌, IsOrdered, clamp01_bounds}
use johnny.Drives.Parameters.{DriveParams, DriveConfig, drive_names}
use johnny.Drives.Engine.{DriveEvent, DriveReading, stepped, step_drives, step, aggregate_deltas}

module _ {W : Type 0} ⦃f : Float W⦄ where
  abbrev pub InUnit : DriveReading W → Type 0
  InUnit r = (f.zero ≼ r.value) × (r.value ≼ f.one)

  abbrev pub StampedAt : ℕ → DriveReading W → Type 0
  StampedAt reference r = r.updated_at ≡ reference

  -- The configuration has parameters for each of the drives.
  abbrev pub Configured : List String → DriveConfig W → Type 0
  Configured drives config = All (λ drive. lookup drive config.drives ≢ none) drives

  abbrev pub Stepped :
      ℕ → List String → Option (List (DriveReading W) × Dict (DriveReading W)) → Type 0
  Stepped reference drives none = ⊥
  Stepped reference drives (some (readings, rows)) =
      (map (λ r. r.drive) readings ≡ drives)
      × All InUnit readings
      × All (StampedAt reference) readings

  module _ (laws : IsOrdered W) (decay : W → W → W) (seconds : ℕ → W) where
    stepped-InUnit :
        (p : DriveParams W) (deltas : Dict W) (reference : ℕ) (drive : String)
        (row : Option (DriveReading W))
        → InUnit (stepped decay seconds p deltas reference drive row)
    unfolding stepped
    stepped-InUnit p deltas reference drive none = clamp01_bounds laws _
    stepped-InUnit p deltas reference drive (some r) = clamp01_bounds laws _

    step_drives-Stepped :
        (config : DriveConfig W) (deltas : Dict W) (reference : ℕ) (drives : List String)
        (rows : Dict (DriveReading W))
        → Configured drives config
        → Stepped reference drives (step_drives decay seconds config deltas reference drives rows)
    unfolding step_drives
    step_drives-Stepped config deltas reference [] rows c = (refl, tt, tt)
    step_drives-Stepped config deltas reference (drive ∷ drives) rows c =
        at (lookup drive config.drives) c.0
          (λ row. step_drives-Stepped config deltas reference drives (insert drive row rows) c.1)
      where
        after :
            (p : DriveParams W) (out : Option (List (DriveReading W) × Dict (DriveReading W)))
            → Stepped reference drives out
            → Stepped reference (drive ∷ drives) (elim out [
              | none ↦ none
              | some (readings, rows') ↦ some (
                stepped decay seconds p deltas reference drive (lookup drive rows) ∷ readings,
                rows',
              )
            ])
        after p none h = h
        after p (some (readings, rows')) h = (
          ap (λ ds. drive ∷ ds) h.0,
          (stepped-InUnit p deltas reference drive (lookup drive rows), h.1),
          (refl, h.2),
        )

        at :
            (found : Option (DriveParams W))
            → found ≢ none
            → ((row : DriveReading W)
                → Stepped reference drives (
                    step_drives decay seconds config deltas reference drives
                      (insert drive row rows)))
            → Stepped reference (drive ∷ drives) (elim found [
              | none ↦ none
              | some p ↦
                  let row = stepped decay seconds p deltas reference drive (lookup drive rows) in
                  elim (step_drives decay seconds config deltas reference drives
                    (insert drive row rows)) [
                      | none ↦ none
                      | some (readings, rows') ↦ some (row ∷ readings, rows')
                    ]
            ])
        at none c _ = absurd (c refl)
        at (some p) _ ih =
            let row = stepped decay seconds p deltas reference drive (lookup drive rows) in
            after p
              (step_drives decay seconds config deltas reference drives (insert drive row rows))
              (ih row)

    -- A step with a complete configuration succeeds and reports the seven drives in their order, each
    -- value within [0, 1] and each stamped with the reference time, whatever the events, the stored
    -- rows and the elapsed time are.
    pub step-Stepped :
        (config : DriveConfig W) (events : List (DriveEvent W)) (reference : ℕ)
        (rows : Dict (DriveReading W))
        → Configured drive_names config
        → Stepped reference drive_names (step decay seconds config events reference rows)
    unfolding step
    step-Stepped config events reference rows c =
        step_drives-Stepped config (aggregate_deltas config events) reference drive_names rows c
