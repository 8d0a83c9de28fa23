-- ===== src/Drives/Parameters.antt =====
-- brain/drives/parameters.py: the parameters of a drive, its idle equilibrium and its relaxation.
use johnny.Prelude.{String, Option, none, some, List, [], ◌∷◌, Dict, lookup, if◌then◌else◌}
use johnny.Float.{Float, clamp01}

abbrev pub drive_names : List String
drive_names =
    "curiosity" ∷ "boredom" ∷ "connection" ∷ "mastery" ∷ "coherence" ∷ "energy" ∷ "continuity" ∷ []

pub record DriveParams (W : Type 0) : Type 0 where
  pub setpoint : W
  pub accrual_rate : W
  pub decay_rate : W
  pub threshold : W

-- `decay` is `exp(-kappa * dt)` for a rate and a number of seconds, from the `math` module.
module _ {W : Type 0} ⦃f : Float W⦄ (decay : W → W → W) where
  unfoldable pub kappa : DriveParams W → W
  kappa p = f.add p.accrual_rate p.decay_rate

  unfoldable pub equilibrium : DriveParams W → W
  unfolding kappa
  equilibrium p =
      if f.le (kappa p) f.zero
      then clamp01 p.setpoint
      else clamp01 (f.div (f.add p.accrual_rate (f.mul p.decay_rate p.setpoint)) (kappa p))

  unfoldable pub advance : DriveParams W → W → W → W
  unfolding equilibrium
  advance p value dt =
      if f.le dt f.zero
      then clamp01 value
      else if f.le (kappa p) f.zero
      then clamp01 value
      else clamp01
          (f.add (equilibrium p) (f.mul (f.sub value (equilibrium p)) (decay (kappa p) dt)))

-- The resolved configuration: the parameters of each drive, and for each kind of event the signed
-- weight that it has on each drive.
pub record DriveConfig (W : Type 0) : Type 0 where
  pub drives : Dict (DriveParams W)
  pub satisfaction : Dict (Dict W)

abbrev or_empty {ℓ} : {A : Type ℓ} → Option (List A) → List A
or_empty none = []
or_empty (some xs) = xs

unfoldable pub deltas_for : {W : Type 0} → DriveConfig W → String → Dict W
deltas_for config kind = or_empty (lookup kind config.satisfaction)
