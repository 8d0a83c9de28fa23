-- ===== src/Affect/Agent/Felt.antt =====
-- brain/affect/agent.py: the bounds of the mood, and the rows that its table takes.
use johnny.Prelude.{
  arith, ℕ, ◌≡◌, refl, String, Bool, true, false, Option, none, some, List, [], ◌∷◌, ◌++◌, All,
  All-append, Dict, any, select, eqb, Bool-cases, inl, inr, if◌then◌else◌, ltb,
}
use johnny.Prelude.Exec.{Outcome, returned, raised, bind_lem, ◌>>=◌}
use johnny.Prelude.Sort.{max_by-Good, max_by}
use johnny.Float.{Float, IsOrdered, ◌≼◌, clamp, clamp01, clamp_bounds, clamp01_bounds}
use johnny.Workspace.{WorkspaceItem}
use johnny.Drives.Engine.{DriveEvent, DriveReading}
use johnny.Llm.{LlmError}
use johnny.Memory.Rows.{MoodRow}
use johnny.Memory.Tables.{mood_constraint}
use johnny.Affect.Appraisal.{Mood, is_felt, blend_mood, Appraisal}
use johnny.Affect.Agent.{
  Affect, Feeling, should_persist, moved_by, appraise_tick, ensure_loaded, load_from, commit,
  persisted, mood_row, feel, feel_with, current, read_current, appraise, appraise_by,
  appraise_with_llm, or_derived, loaded, row_or_baseline, Routed, latest,
}
use johnny.Affect.Rules.{derive_appraisal, fresh_input}

module _ {A : Type 0} (p : A → Bool) where
  push-passed :
      (b : Bool) (x : A) (xs : List A)
      → (b ≡ true → p x ≡ true)
      → All (λ y. p y ≡ true) xs
      → All (λ y. p y ≡ true) (if b then x ∷ xs else xs)
  push-passed true x xs h a = (h refl, a)
  push-passed false x xs h a = a

  select-passed : (xs : List A) → All (λ y. p y ≡ true) (select p xs)
  select-passed [] = tt
  select-passed (x ∷ xs) = push-passed (p x) x (select p xs) (λ h. h) (select-passed xs)

module _ {W : Type 0} ⦃f : Float W⦄ (a : Affect W) where
  -- In the ranges that the table checks, with no tag under the floor
  abbrev pub IsMood : Mood W → Type 0
  IsMood mood =
      (f.sub f.zero f.one ≼ mood.valence)
      × (mood.valence ≼ f.one)
      × (f.zero ≼ mood.arousal)
      × (mood.arousal ≼ f.one)
      × All (λ e. is_felt a.numbers e ≡ true) mood.emotions

  clamped-IsMood :
      IsOrdered W
      → (id ts : Option ℕ) (v b : W) (es : Dict W)
      → IsMood (record {
        id = id;
        ts = ts;
        valence = clamp v (f.sub f.zero f.one) f.one;
        arousal = clamp01 b;
        emotions = select (is_felt a.numbers) es;
      })
  clamped-IsMood laws id ts v b es =
      let wide =
        laws.le_trans (f.sub f.zero f.one) f.zero f.one laws.zero_le_one laws.minus_one_le_zero in
      let (v0, v1) = clamp_bounds laws v (f.sub f.zero f.one) f.one wide in
      let (a0, a1) = clamp01_bounds laws b in (v0, v1, a0, a1, select-passed (is_felt a.numbers) es)

  moved_by-IsMood :
      IsOrdered W
      → (appraisal : Appraisal W) (drives : List (DriveReading W)) (now : ℕ) (old : Mood W)
      → IsMood (moved_by a appraisal drives now old)
  unfolding moved_by blend_mood
  moved_by-IsMood laws appraisal drives now old = clamped-IsMood laws none none _ _ _

  mood_row-accepted :
      (id now : ℕ) (mood : Mood W)
      → IsMood mood
      → mood_constraint.accepts (mood_row a id mood now) ≡ true
  mood_row-accepted id now mood (v0, v1, a0, a1, e) = ground (arith, v0, v1, a0, a1)

  -- The key that the current mood has is that of a row.
  abbrev pub IsRowOf : List (MoodRow W) → Option ℕ → Type 0
  IsRowOf rows none = Unit
  IsRowOf rows (some id) = any (λ r. eqb r.id id) rows ≡ true

  abbrev pub IsKnown : List (MoodRow W) → Option (Mood W) → Type 0
  IsKnown rows none = Unit
  IsKnown rows (some mood) = IsRowOf rows mood.id

  -- The table holds only rows that its checks accept, and the current mood's key is one of theirs.
  abbrev pub IsSound : Feeling W → Type 0
  IsSound s =
      All (λ r. mood_constraint.accepts r ≡ true) s.mood.rows × IsKnown s.mood.rows s.current

  any-own :
      (r : MoodRow W) (rows : List (MoodRow W)) → any (λ q. eqb q.id r.id) (rows ++ r ∷ []) ≡ true
  any-own r [] = ground arith
  any-own r (q ∷ rows) = ground (arith, any-own r rows)

  -- A mood that a tick returns
  abbrev pub IsFelt : Outcome LlmError (Mood W) × Feeling W → Type 0
  IsFelt (returned mood, s) = IsSound s × (s.current ≡ some mood) × IsMood mood
  IsFelt (raised e, s) = IsSound s

  persisted-IsFelt :
      (error : Option String) (new : Mood W) (now : ℕ) (s : Feeling W)
      → IsMood new
      → IsSound s
      → IsFelt (persisted a error new now s)
  persisted-IsFelt (some e) new now s h k = k
  persisted-IsFelt none new now s h k =
      let row = mood_row a s.mood.next_id new now in
      (
        (
          All-append (λ r. mood_constraint.accepts r ≡ true) s.mood.rows (row ∷ []) k.0
              (mood_row-accepted s.mood.next_id now new h, tt),
          any-own row s.mood.rows,
        ),
        refl,
        h,
      )

  commit-IsFelt :
      (new : Mood W) (now : ℕ) (old : Mood W) (s : Feeling W)
      → IsMood new
      → IsSound s
      → IsRowOf s.mood.rows old.id
      → IsFelt (commit a new now old s)
  unfolding commit
  commit-IsFelt new now old s h k o = elim (Bool-cases (should_persist a old new)) [
    | inl e ↦ rw e (persisted-IsFelt (a.add_error s.mood) new now s h k)
    | inr e ↦ rw e ((k.0, o), refl, h)
  ]

  any-some : (r : MoodRow W) (rows : List (MoodRow W)) → any (λ q. eqb q.id r.id) (r ∷ rows) ≡ true
  any-some r rows = ground arith

  any-tail :
      (r : MoodRow W) (rows qs : List (MoodRow W))
      → All (λ q. any (λ p. eqb p.id q.id) rows ≡ true) qs
      → All (λ q. any (λ p. eqb p.id q.id) (r ∷ rows) ≡ true) qs
  any-tail r rows [] h = tt
  any-tail r rows (q ∷ qs) h = (ground (arith, h.0), any-tail r rows qs h.1)

  any-all : (rows : List (MoodRow W)) → All (λ q. any (λ p. eqb p.id q.id) rows ≡ true) rows
  any-all [] = tt
  any-all (r ∷ rows) = (any-some r rows, any-tail r rows rows (any-all rows))

  load_from-IsSound :
      (c : Option (Mood W)) (error : Option String) (s : Feeling W)
      → IsSound s
      → IsSound (load_from a c error s).1
  unfolding latest max_by
  load_from-IsSound (some mood) error s k = k
  load_from-IsSound none (some e) s k = k
  load_from-IsSound none none s k = (k.0, known s.mood.rows)
    where
      known : (rows : List (MoodRow W)) → IsKnown rows (some (row_or_baseline a (latest rows)))
      known [] = tt
      known (r ∷ rows) =
          let own = any-all (r ∷ rows) in
          max_by-Good ltb (λ row. row.ts) (λ q. any (λ p. eqb p.id q.id) (r ∷ rows) ≡ true) r rows
            own.0 own.1

  ensure_loaded-IsSound : (s : Feeling W) → IsSound s → IsSound (ensure_loaded a s).1
  unfolding ensure_loaded
  ensure_loaded-IsSound s k = load_from-IsSound s.current (a.latest_error s.mood) s k

  appraise_by-IsSound :
      (situation : Option String) (routed : Option Routed) (derived : Appraisal W) (s : Feeling W)
      → IsSound s
      → IsSound (appraise_by a situation routed derived s).1
  unfolding appraise_with_llm
  appraise_by-IsSound none routed derived s k = k
  appraise_by-IsSound (some situation) none derived s k = k
  appraise_by-IsSound (some situation) (some routed) derived s k =
      bind_lem (λ z. IsSound z.1) (appraise_with_llm a routed situation) (or_derived a derived) s
        (λ x e. k) (λ o e. at o)
    where
      at :
          (o : Option (Appraisal W))
          → IsSound (or_derived a derived o (appraise_with_llm a routed situation s).1).1
      at none = k
      at (some appraisal) = k

  -- The current mood as it is read
  abbrev IsReadable : Outcome LlmError (Mood W) × Feeling W → Type 0
  IsReadable (returned old, s) = IsSound s × IsRowOf s.mood.rows old.id
  IsReadable (raised e, s) = IsSound s

  current-IsReadable : (s : Feeling W) → IsSound s → IsReadable (current a s)
  unfolding current
  current-IsReadable s k =
      bind_lem IsReadable (ensure_loaded a) (λ _. read_current a) s
        (λ x e. ensure_loaded-IsSound s k)
        (λ _ e.
          let t = (ensure_loaded a s).1 in
          let h = ensure_loaded-IsSound s k in at t.current t h h.1)
    where
      at :
          (c : Option (Mood W)) (t : Feeling W)
          → IsSound t
          → IsKnown t.mood.rows c
          → IsReadable (loaded a c, t)
      at none t h g = h
      at (some old) t h g = (h, g)

  feel_with-IsFelt :
      IsOrdered W
      → (drives : List (DriveReading W)) (now : ℕ) (appraisal : Appraisal W) (s : Feeling W)
      → IsSound s
      → IsFelt (feel_with a drives now appraisal s)
  feel_with-IsFelt laws drives now appraisal s k = at (current a s) (current-IsReadable s k)
    where
      at :
          (z : Outcome LlmError (Mood W) × Feeling W)
          → IsReadable z
          → IsFelt (((λ (_ : Feeling W). z) >>= feel a drives now appraisal) s)
      at (returned old, t) (h, g) =
          commit-IsFelt (moved_by a appraisal drives now old) now old t
            (moved_by-IsMood laws appraisal drives now old) h g
      at (raised e, t) h = h

  -- With the laws of IEEE comparisons, a tick that begins with a sound table, whatever it appraises and
  -- whether or not a query or the model fails, leaves a sound one: each row passes the checks on valence
  -- and arousal, and the current mood has the key of a row if it has one. The mood that it returns is
  -- the current one, in those ranges, with no tag under the floor.
  pub appraise_tick-IsFelt :
      IsOrdered W
      → (contents : List (WorkspaceItem W)) (drives : List (DriveReading W))
        (events : List (DriveEvent W)) (now : ℕ) (s : Feeling W)
      → IsSound s
      → IsFelt (appraise_tick a contents drives events now s)
  unfolding appraise_tick appraise
  appraise_tick-IsFelt laws contents drives events now s k =
      bind_lem IsFelt (ensure_loaded a)
        (λ _. appraise a contents drives events >>= feel_with a drives now) s
        (λ x e. ensure_loaded-IsSound s k)
        (λ _ e.
          let t = (ensure_loaded a s).1 in
          let h = ensure_loaded-IsSound s k in
          let derived = derive_appraisal a.numbers contents drives events in
          let g = appraise_by-IsSound (fresh_input contents) a.router derived t h in
          bind_lem IsFelt (appraise a contents drives events) (feel_with a drives now) t (λ x r. g)
            (λ appraisal r.
              feel_with-IsFelt laws drives now appraisal (appraise a contents drives events t).1 g))
