-- ===== src/Memory/Working/Floor.antt =====
-- The saliences that a sweep of decay leaves in the working set.
use johnny.Prelude.{
  arith, eq_iff, ◌≡◌, refl, ap, ◌∙◌, ◌⊎◌, inl, inr, true, false, some, String, List, [], ◌∷◌, ◌==◌,
  any, map, All, Dict, lookup, lookup-insert, lookup-remove, Bool-cases,
}
use johnny.Prelude.Keys.{keys}
use johnny.Float.{Float}
use johnny.Memory.Working.{
  WorkingMemoryItem, Stored, WorkingMemory, persist, evict, prune_expired, sweep, decay, read_all,
  value_of,
}
use johnny.Memory.Working.Capacity.{IsSynced, IsNamed, prune-IsSynced}

abbrev ids : {W : Type 0} → List (WorkingMemoryItem W) → List String
ids items = map (λ item. item.id) items

lookup-any :
    {V : Type 0} (j : String) (v : V) (d : Dict V)
    → lookup j d ≡ some v
    → any (λ i. i == j) (keys d) ≡ true
lookup-any j v [] h = cc h
lookup-any j v ((i, w) ∷ d) h = elim (Bool-cases (i == j)) [
  | inl e ↦ rw e refl
  | inr e ↦ rw e (lookup-any j v d (rw e at h))
]

any-named :
    {W : Type 0} (j : String) (d : Dict (WorkingMemoryItem W))
    → All IsNamed d
    → any (λ i. i == j) (ids (map value_of d)) ≡ any (λ i. i == j) (keys d)
any-named j [] h = refl
any-named j ((k, item) ∷ d) h =
    ground (arith, eq_iff k item.id, eq_iff k j, eq_iff item.id j, any-named j d h.1, h.0)

module _ {W : Type 0} ⦃f : Float W⦄ (m : WorkingMemory W) where
  -- The saliences that are not below the floor, but for the items still to be swept.
  abbrev pub Swept : List String → Stored W → Type 0
  Swept pending s =
      (j : String) (v : W)
      → lookup j s.salience ≡ some v
      → (any (λ i. i == j) pending ≡ true) ⊎ (f.lt v m.floor ≡ false)

  evict-Swept :
      (id : String) (pending : List String) (s : Stored W)
      → Swept (id ∷ pending) s
      → Swept pending (evict m id s)
  evict-Swept id pending s h j v e = ground (arith, e, lookup-remove id j s.salience, h j v)

  persist-Swept :
      (item : WorkingMemoryItem W) (pending : List String) (s : Stored W)
      → f.lt item.salience m.floor ≡ false
      → Swept (item.id ∷ pending) s
      → Swept pending (persist m item s)
  persist-Swept item pending s k h j v e =
      ground (arith, e, k, lookup-insert item.id j item.salience s.salience, h j v)

  sweep-Swept :
      (items : List (WorkingMemoryItem W)) (s : Stored W)
      → Swept (ids items) s
      → Swept [] (sweep m items s).1
  unfolding sweep
  sweep-Swept [] s h = h
  sweep-Swept (item ∷ items) s h =
      let aged = record item { salience = f.mul item.salience m.decay_factor } in
      elim (Bool-cases (f.lt (f.mul item.salience m.decay_factor) m.floor)) [
        | inl e ↦ rw e (sweep-Swept items (evict m item.id s) (evict-Swept item.id (ids items) s h))
        | inr e ↦ rw e (sweep-Swept items (persist m aged s) (persist-Swept aged (ids items) s e h))
      ]

  -- Where the hash and the sorted set are in step, a decay leaves no salience below the floor.
  pub decay-floor :
      (now : W) (s : Stored W)
      → IsSynced s
      → (id : String) (v : W) → lookup id (decay m now s).1.salience ≡ some v
      → f.lt v m.floor ≡ false
  unfolding decay
  decay-floor now s h id v e =
      let t = (prune_expired m now s).1 in
      let k = prune-IsSynced m now (read_all m s) s h in
      elim (sweep-Swept (read_all m t) t
        (λ j w found.
          inl (
            any-named j t.items k.2 ∙ ap (any (λ i. i == j)) k.0 ∙ lookup-any j w t.salience found))
        id v e) [ inl wrong ↦ cc wrong | inr high ↦ high ]
