-- ===== src/Cycle/Interval.antt =====
-- The interval of the heartbeat and the bias of the attention, from mood and drives.
use johnny.Prelude.{
  String, Option, none, some, List, [], ◌∷◌, if◌then◌else◌, ◌==◌, ◌&&◌, ◌||◌, not, arith, Dict,
  lookup, insert,
}
use johnny.Float.{Float, ◌≼◌, IsOrdered}
use johnny.Drives.Engine.{DriveReading, over_threshold, urgency}
use johnny.Goals.Arbiter.{Mood}

-- The settings that the two use, of `CognitiveCycle`.
pub record Tempo (W : Type 0) : Type 0 where
  pub interval : W
  pub min_interval : W
  pub max_interval : W
  pub arousal_speedup : W
  pub tired_slowdown : W
  pub attention_drive_weight : W
  pub default_arousal : W
  pub drive_kind_relevance : Dict (List String)

pub record AttentionBias (W : Type 0) : Type 0 where
  pub arousal : W
  pub kind_boosts : Dict W

module _ {W : Type 0} ⦃f : Float W⦄ (t : Tempo W) where
  abbrev arousal_of : Option (Mood W) → W
  arousal_of none = t.default_arousal
  arousal_of (some mood) = mood.arousal

  -- The loop over the readings: the last one of the energy drive that is over its threshold counts.
  unfoldable pub energy_excess : W → List (DriveReading W) → W
  unfolding over_threshold urgency
  energy_excess excess [] = excess
  energy_excess excess (r ∷ rs) =
      energy_excess (if r.drive == "energy" && over_threshold r then urgency r else excess) rs

  abbrev pub clamp_to : W → W → W → W
  clamp_to low high x =
      let above = if f.lt low x then x else low in if f.lt above high then above else high

  -- `min(max_interval, max(min_interval, interval))`: each keeps its first argument unless the second
  -- beats it
  unfoldable pub modulate_interval : Option (Mood W) → List (DriveReading W) → W
  unfolding energy_excess
  modulate_interval mood drives = clamp_to t.min_interval t.max_interval (
      f.div (f.mul t.interval (f.add f.one (f.mul t.tired_slowdown (energy_excess f.zero drives))))
        (f.add f.one (f.mul t.arousal_speedup (arousal_of mood))))

  abbrev or_zero : Option W → W
  or_zero none = f.zero
  or_zero (some x) = x

  abbrev or_none : Option (List String) → List String
  or_none none = []
  or_none (some kinds) = kinds

  unfoldable pub pull_kinds : W → List String → Dict W → Dict W
  pull_kinds pull [] boosts = boosts
  pull_kinds pull (kind ∷ kinds) boosts =
      pull_kinds pull kinds (insert kind (f.add (or_zero (lookup kind boosts)) pull) boosts)

  unfoldable pub kind_boosts_of : List (DriveReading W) → Dict W → Dict W
  unfolding pull_kinds over_threshold urgency
  kind_boosts_of [] boosts = boosts
  kind_boosts_of (r ∷ rs) boosts = kind_boosts_of rs (
      if not (over_threshold r) || r.drive == "energy"
      then boosts
      else pull_kinds (f.mul t.attention_drive_weight (urgency r))
          (or_none (lookup r.drive t.drive_kind_relevance)) boosts)

  unfoldable pub build_attention_bias : Option (Mood W) → List (DriveReading W) → AttentionBias W
  unfolding kind_boosts_of
  build_attention_bias mood drives = record {
    arousal = arousal_of mood;
    kind_boosts = kind_boosts_of drives [];
  }

  clamp_to_bounds :
      IsOrdered W
      → (low high x : W) → low ≼ high
      → (low ≼ clamp_to low high x) × (clamp_to low high x ≼ high)
  clamp_to_bounds laws low high x h = ground (
    arith,
    h,
    laws.le_of_lt low x,
    laws.le_of_lt x high,
    laws.le_of_lt low high,
    laws.numbers_of_le low high,
  )

  -- Whatever the mood and the drives are, NaN results included, the next interval lies within its
  -- bounds, if these are ordered.
  pub modulate_interval_bounds :
      IsOrdered W
      → (mood : Option (Mood W)) (drives : List (DriveReading W)) → t.min_interval ≼ t.max_interval
      → (t.min_interval ≼ modulate_interval mood drives)
        × (modulate_interval mood drives ≼ t.max_interval)
  unfolding modulate_interval
  modulate_interval_bounds laws mood drives h =
      clamp_to_bounds laws t.min_interval t.max_interval _ h
