-- ===== src/Memory/Decay/Kept.antt =====
-- brain/memory/decay.py: what the decay of the episodes keeps.
use johnny.Prelude.{ℕ, ◌≡◌, refl, List, [], ◌∷◌, map, Bool-cases, inl, inr, ◌⊎◌, ◌||◌}
use johnny.Float.{Float, IsOrdered, ◌≼◌, clamp01_bounds}
use johnny.Memory.Rows.{EpisodeRow, SemanticFactRow}
use johnny.Memory.Decay.{
  MemoryDecay, among, rescored, rescore_chosen, has_decayed, has_grown, adjusted_salience,
  decay_episodes, source_ids, oldest,
}

module _ {W : Type 0} ⦃f : Float W⦄ (d : MemoryDecay W) where
  -- An episode after the decay: the same but for its salience, which is as it was or in [0, 1].
  abbrev pub IsSame : EpisodeRow W → EpisodeRow W → Type 0
  IsSame old new =
      (record old { salience = new.salience } ≡ new)
      × ((new.salience ≡ old.salience) ⊎ ((f.zero ≼ new.salience) × (new.salience ≼ f.one)))

  abbrev pub AreSame : List (EpisodeRow W) → List (EpisodeRow W) → Type 0
  AreSame [] [] = Unit
  AreSame (old ∷ olds) (new ∷ news) = IsSame old new × AreSame olds news
  AreSame [] (new ∷ news) = ⊥
  AreSame (old ∷ olds) [] = ⊥

  rescored-IsSame :
      IsOrdered W
      → (ids : List ℕ) (now : ℕ) (row : EpisodeRow W) → IsSame row (rescored d ids now row)
  unfolding adjusted_salience
  rescored-IsSame laws ids now row =
      elim (Bool-cases (has_decayed d ids now row || has_grown d ids now row)) [
        | inl e ↦ rw e (refl, inr (clamp01_bounds laws _))
        | inr e ↦ rw e (refl, inl refl)
      ]

  rescore_chosen-IsSame :
      IsOrdered W
      → (chosen ids : List ℕ) (now : ℕ) (row : EpisodeRow W)
      → IsSame row (rescore_chosen d chosen ids now row)
  rescore_chosen-IsSame laws chosen ids now row = elim (Bool-cases (among chosen row.id)) [
    | inl e ↦ rw e (rescored-IsSame laws ids now row)
    | inr e ↦ rw e (refl, inl refl)
  ]

  map-AreSame :
      IsOrdered W
      → (chosen ids : List ℕ) (now : ℕ) (rows : List (EpisodeRow W))
      → AreSame rows (map (rescore_chosen d chosen ids now) rows)
  map-AreSame laws chosen ids now [] = tt
  map-AreSame laws chosen ids now (row ∷ rows) =
      (rescore_chosen-IsSame laws chosen ids now row, map-AreSame laws chosen ids now rows)

  -- With the laws of IEEE comparisons, the decay deletes no episode and changes nothing of one but its
  -- salience, and a salience that it changes lies in [0, 1], whatever the settings, the ages and the
  -- powers are.
  pub decay_episodes-AreSame :
      IsOrdered W
      → (now : ℕ) (facts : List (SemanticFactRow W)) (rows : List (EpisodeRow W))
      → AreSame rows (decay_episodes d now facts rows).0
  unfolding decay_episodes
  decay_episodes-AreSame laws now facts rows =
      map-AreSame laws (map (λ r. r.id) (oldest d rows)) (source_ids d facts) now rows
