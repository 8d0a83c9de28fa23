-- ===== src/Drives/Engine/Urges.antt =====
-- The order in which urges are offered to deliberation.
use johnny.Prelude.{List, [], ◌∷◌, All, Bool-cases, arith, inl, inr}
use johnny.Prelude.Sort.{IsDesc, sort_desc-perm, sort_desc-IsDesc}
use johnny.Float.{Float, ◌≼◌, IsOrdered, clamp01_bounds, lt_asym, not_lt_trans}
use johnny.Drives.Engine.{DriveReading, Urge, over_threshold, urgency, over_threshold_urges, urges}
use mathlib.Core.List.{Perm}

module _ {W : Type 0} ⦃f : Float W⦄ where
  abbrev pub Within : W → Type 0
  Within x = (f.zero ≼ x) × (x ≼ f.one)

  abbrev pub UrgencyWithin : Urge W → Type 0
  UrgencyWithin u = Within u.urgency

  module _ (laws : IsOrdered W) where
    urgency-Within : (r : DriveReading W) → Within (urgency r)
    unfolding urgency
    urgency-Within r = ground (
      arith,
      clamp01_bounds laws (f.div (f.sub r.value r.threshold) (f.sub f.one r.threshold)),
      laws.zero_le_one,
      laws.numbers_of_le f.zero f.one,
    )

    over_threshold_urges-Within :
        (readings : List (DriveReading W)) → All UrgencyWithin (over_threshold_urges readings)
    unfolding over_threshold_urges
    over_threshold_urges-Within [] = tt
    over_threshold_urges-Within (r ∷ rs) = elim (Bool-cases (over_threshold r)) [
      | inl e ↦ rw e (urgency-Within r, over_threshold_urges-Within rs)
      | inr e ↦ rw e (over_threshold_urges-Within rs)
    ]

    -- `urges` offers each reading at or over its threshold once and no other, the most urgent first:
    -- no urge stands before one of greater urgency, also where sums and quotients round.
    pub urges-IsDesc :
        (readings : List (DriveReading W))
        → Perm (urges readings) (over_threshold_urges readings)
          × IsDesc f.lt (λ u. u.urgency) (urges readings)
    unfolding urges
    urges-IsDesc readings = (
      sort_desc-perm f.lt (λ u. u.urgency) (over_threshold_urges readings),
      sort_desc-IsDesc f.lt (λ u. u.urgency) UrgencyWithin
          (λ x y gx gy. lt_asym laws x.urgency y.urgency (self x gx) (self y gy))
          (λ x y z gx gy gz.
            not_lt_trans laws x.urgency y.urgency z.urgency (self x gx) (self y gy) (self z gz))
          (over_threshold_urges readings) (over_threshold_urges-Within readings),
    )
      where
        self : (u : Urge W) → UrgencyWithin u → u.urgency ≼ u.urgency
        self u g = (laws.numbers_of_le f.zero u.urgency g.0).1
