-- ===== src/Affect/Appraisal.antt =====
-- brain/affect/appraisal.py: the projection of an appraisal to a push on the mood, and the blend of the
-- push into the mood that decays. `lit n` is the literal of `n` hundredths, and `half_to` is `0.5 ** x`.
use Prim.Native.String.{◌++◌ as append_text}
use johnny.Prelude.{
  ℕ, String, Bool, Option, none, some, [], ◌∷◌, Dict, lookup, insert, map, select, if◌then◌else◌,
  ◌==◌,
}
use johnny.Prelude.Sort.{max_by}
use johnny.Float.{Float, clamp, clamp01}

pub record Numbers (W : Type 0) : Type 0 where
  pub lit : ℕ → W
  pub half_to : W → W

pub record Appraisal (W : Type 0) : Type 0 where
  pub goal_congruence : W
  pub novelty : W
  pub agency : W
  pub certainty : W
  pub emotions : Dict W

pub record MoodDelta (W : Type 0) : Type 0 where
  pub valence : W
  pub arousal : W
  pub emotions : Dict W

-- Times are in microseconds.
pub record Mood (W : Type 0) : Type 0 where
  pub id : Option ℕ
  pub ts : Option ℕ
  pub valence : W
  pub arousal : W
  pub emotions : Dict W

abbrev pub weight : {W : Type 0} → String × W → W
weight (e, v) = v

module _ {W : Type 0} ⦃f : Float W⦄ (n : Numbers W) where
  abbrev pub emotion_floor : W
  emotion_floor = n.lit 12

  abbrev pub minus : W → W
  minus x = f.sub f.zero x

  abbrev pub absolute : W → W
  absolute x = if f.lt x f.zero then minus x else x

  abbrev pub baseline : Mood W
  baseline = record { id = none; ts = none; valence = f.zero; arousal = n.lit 30; emotions = [] }

  -- `max` over the keys of the tags, by their weights
  abbrev strongest : Dict W → Option String
  strongest [] = none
  strongest (e ∷ es) = some (max_by f.lt weight e es).0

  unfoldable pub dominant_emotion : Mood W → Option String
  unfolding max_by
  dominant_emotion mood = strongest mood.emotions

  abbrev quadrant : Mood W → String
  quadrant mood =
      let aroused = f.le (n.lit 50) mood.arousal in
      if f.le (n.lit 15) mood.valence
      then (if aroused then "bright and energised" else "calm and content")
      else if f.le mood.valence (minus (n.lit 15))
      then (if aroused then "tense and on edge" else "low and flat")
      else (if aroused then "alert and neutral" else "quiet and even")

  abbrev threaded : String → Option String → String
  threaded tone none = tone
  threaded tone (some emotion) =
      if emotion == "" then tone else append_text tone (append_text ", with a thread of " emotion)

  unfoldable pub descriptor : Mood W → String
  unfolding dominant_emotion
  descriptor mood = threaded (quadrant mood) (dominant_emotion mood)

  -- `_derive_emotions`
  unfoldable pub derive_emotions : W → W → W → W → Dict W
  derive_emotions congruence novelty agency certainty =
      if f.lt f.zero congruence
      then (("excitement", f.mul congruence novelty)
          ∷ ("joy", f.mul congruence agency)
          ∷ ("contentment", f.mul (f.mul congruence (f.sub f.one novelty)) certainty)
          ∷ [])
      else if f.lt congruence f.zero
      then (("frustration", f.mul (minus congruence) agency)
          ∷ ("anxiety", f.mul (minus congruence) (f.sub f.one certainty))
          ∷ [])
      else []

  abbrev named_or : Dict W → Dict W → Dict W
  named_or [] derived = derived
  named_or (e ∷ es) derived = e ∷ es

  abbrev clamped : String × W → String × W
  clamped (e, v) = (e, clamp01 v)

  abbrev pub is_felt : String × W → Bool
  is_felt e = f.le emotion_floor (weight e)

  unfoldable pub appraise_dimensions : Appraisal W → MoodDelta W
  unfolding derive_emotions clamp clamp01
  appraise_dimensions appraisal =
      let congruence = clamp appraisal.goal_congruence (minus f.one) f.one in
      let novelty = clamp01 appraisal.novelty in
      let agency = clamp01 appraisal.agency in
      let certainty = clamp01 appraisal.certainty in
      let stirred =
        f.add (f.add (f.mul (n.lit 55) novelty) (f.mul (n.lit 35) (f.sub f.one certainty)))
          (f.mul (n.lit 30) (absolute congruence)) in
      let emotions =
        named_or appraisal.emotions (derive_emotions congruence novelty agency certainty) in
      record {
        valence = congruence;
        arousal = clamp (f.sub stirred (n.lit 45)) (minus f.one) f.one;
        emotions = select is_felt (map clamped emotions);
      }

  abbrev or_zero : Option W → W
  or_zero none = f.zero
  or_zero (some v) = v

  abbrev faded : W → W → Dict W → Dict W
  faded retained emotion_decay [] = []
  faded retained emotion_decay ((e, v) ∷ es) =
      (e, f.mul (f.mul v retained) emotion_decay) ∷ faded retained emotion_decay es

  -- The loop over the tags of the delta
  unfoldable pub fold_tags : W → Dict W → Dict W → Dict W
  unfolding clamp01
  fold_tags responsiveness emotions [] = emotions
  fold_tags responsiveness emotions ((e, intensity) ∷ es) =
      fold_tags responsiveness
        (insert e (clamp01 (f.add (or_zero (lookup e emotions)) (f.mul intensity responsiveness)))
          emotions)
        es

  unfoldable pub blend_mood : Mood W → MoodDelta W → W → Mood W → W → W → W → Mood W
  unfolding fold_tags clamp clamp01
  blend_mood current delta dt base halflife responsiveness emotion_decay =
      let elapsed = if f.lt f.zero dt then dt else f.zero in
      let retained = if f.lt f.zero halflife then n.half_to (f.div elapsed halflife) else f.zero in
      let valence = f.add base.valence (f.mul (f.sub current.valence base.valence) retained) in
      let arousal = f.add base.arousal (f.mul (f.sub current.arousal base.arousal) retained) in
      let emotions =
        fold_tags responsiveness (faded retained emotion_decay current.emotions) delta.emotions in
      record {
        id = none;
        ts = none;
        valence = clamp (f.add valence (f.mul delta.valence responsiveness)) (minus f.one) f.one;
        arousal = clamp01 (f.add arousal (f.mul delta.arousal responsiveness));
        emotions = select is_felt emotions;
      }
