-- ===== src/Memory/Snapshot/Fresh.antt =====
-- brain/memory/snapshot.py: the sequences that `_resync_sequences` leaves.
use johnny.Prelude.{ℕ, ◌≤◌, ◌<◌, List, [], ◌∷◌, All, Bool, true, false, ◌≡◌, refl, arith}
use johnny.Float.{Float}
use johnny.Memory.Format.{Codec}
use johnny.Memory.Working.{WorkingMemory}
use johnny.Memory.Tables.{Stores, Serial, largest, next_after}
use johnny.Memory.Snapshot.Restore.{resync_sequences}

module _ {R : Type 0} (id : R → ℕ) where
  largest-bound : (n : ℕ) (rows : List R) → largest id rows ≤ n → All (λ r. id r ≤ n) rows
  largest-bound n [] h = tt
  largest-bound n (r ∷ rows) h = (ground (arith, h), largest-bound n rows (ground (arith, h)))

  abbrev pub IsFresh : Serial R → Type 0
  IsFresh table = All (λ r. id r < table.next_id) table.rows

  largest-next_after : (rows : List R) → largest id rows < next_after id rows
  unfolding next_after
  largest-next_after [] = omega arith
  largest-next_after (r ∷ rows) = ground arith

  lower : (n k : ℕ) (rows : List R) → n < k → All (λ r. id r ≤ n) rows → All (λ r. id r < k) rows
  lower n k [] h a = tt
  lower n k (r ∷ rows) h a = (omega (arith, h, a.0), lower n k rows h a.1)

  next_after-IsFresh : (rows : List R) → All (λ r. id r < next_after id rows) rows
  next_after-IsFresh rows =
      let top = largest id rows in
      lower top (next_after id rows) rows (largest-next_after rows)
        (largest-bound top rows (omega arith))

module _ {T W : Type 0} ⦃f : Float W⦄ (c : Codec T W) (m : WorkingMemory W) where
  -- The three tables that only a restore of version 2 fills: fresh after one, else as they were.
  abbrev pub FreshOrKept : Bool → Stores W → Stores W → Type 0
  FreshOrKept true s t =
      IsFresh (λ r. r.id) t.identity × IsFresh (λ r. r.id) t.mood × IsFresh (λ r. r.id) t.goal
  FreshOrKept false s t = (t.identity ≡ s.identity) × (t.mood ≡ s.mood) × (t.goal ≡ s.goal)

  -- After `_resync_sequences` the sequences of episodes, facts, edges and skills are behind every key
  -- in their tables, whatever rows and sequences there were before. So are those of identity, mood and
  -- goal for `restore_v2`; otherwise these three tables are as they were, sequences included.
  pub resync_sequences-IsFresh :
      (restore_v2 : Bool) (s : Stores W)
      → let t = resync_sequences c m restore_v2 s in
        IsFresh (λ r. r.id) t.episode
        × IsFresh (λ r. r.id) t.semantic_fact
        × IsFresh (λ r. r.id) t.semantic_edge
        × IsFresh (λ r. r.id) t.skill
        × FreshOrKept restore_v2 s t
  unfolding resync_sequences
  resync_sequences-IsFresh true s = (
    next_after-IsFresh (λ r. r.id) s.episode.rows,
    next_after-IsFresh (λ r. r.id) s.semantic_fact.rows,
    next_after-IsFresh (λ r. r.id) s.semantic_edge.rows,
    next_after-IsFresh (λ r. r.id) s.skill.rows,
    (
      next_after-IsFresh (λ r. r.id) s.identity.rows,
      next_after-IsFresh (λ r. r.id) s.mood.rows,
      next_after-IsFresh (λ r. r.id) s.goal.rows,
    ),
  )
  resync_sequences-IsFresh false s = (
    next_after-IsFresh (λ r. r.id) s.episode.rows,
    next_after-IsFresh (λ r. r.id) s.semantic_fact.rows,
    next_after-IsFresh (λ r. r.id) s.semantic_edge.rows,
    next_after-IsFresh (λ r. r.id) s.skill.rows,
    (refl, refl, refl),
  )
