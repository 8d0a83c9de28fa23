-- ===== src/Memory/Working/Capacity.antt =====
-- The hash and the sorted set hold the same items, and a put leaves no more than the capacity.
use johnny.Prelude.{
  arith, eq_iff, ℕ, zero, suc, ◌≡◌, sym, ap, ◌∙◌, ◌-◌, ◌≤◌, String, true, not, Option, List, [],
  ◌∷◌, ◌==◌, ◌&&◌, Dict, insert, remove, leb, length, take, All, Bool-cases, inl, inr,
}
use johnny.Prelude.Keys.{
  keys, IsRearrangement, IsDistinct, length-keys, count-remove, insert-IsDistinct, count-and,
  count-without, put_key, drop_key, keys-insert, keys-remove,
}
use johnny.Float.{Float}
use johnny.Memory.Working.{
  WorkingMemoryItem, Stored, WorkingMemory, persist, evict, expired, prune, prune_expired,
  evict_all, trim_to_capacity, stamped, put, sweep, import_items, read_all, count_items,
}

abbrev pub IsNamed : {W : Type 0} → String × WorkingMemoryItem W → Type 0
IsNamed (k, item) = (k == item.id) ≡ true

-- Both keys of the namespace have the same members, each once, and each item its own id.
abbrev pub IsSynced : {W : Type 0} → Stored W → Type 0
IsSynced s = (keys s.items ≡ keys s.salience) × IsDistinct (keys s.salience) × All IsNamed s.items

module _ {W : Type 0} where
  insert-IsNamed :
      (item : WorkingMemoryItem W) (d : Dict (WorkingMemoryItem W))
      → All IsNamed d
      → All IsNamed (insert item.id item d)
  insert-IsNamed item [] h = (ground (arith, eq_iff item.id item.id), tt)
  insert-IsNamed item ((k, old) ∷ d) h = elim (Bool-cases (k == item.id)) [
    | inl e ↦ rw e (e, h.1)
    | inr e ↦ rw e (h.0, insert-IsNamed item d h.1)
  ]

  remove-IsNamed :
      (id : String) (d : Dict (WorkingMemoryItem W)) → All IsNamed d → All IsNamed (remove id d)
  remove-IsNamed id [] h = tt
  remove-IsNamed id ((k, item) ∷ d) h = elim (Bool-cases (k == id)) [
    | inl e ↦ rw e (remove-IsNamed id d h.1)
    | inr e ↦ rw e (h.0, remove-IsNamed id d h.1)
  ]

module _ {W : Type 0} ⦃f : Float W⦄ (m : WorkingMemory W) where
  pub persist-IsSynced :
      (item : WorkingMemoryItem W) (s : Stored W) → IsSynced s → IsSynced (persist m item s)
  persist-IsSynced item s h = (
    keys-insert item.id item s.items
        ∙ ap (put_key item.id) h.0
        ∙ sym (keys-insert item.id item.salience s.salience),
    λ j. insert-IsDistinct item.id j item.salience s.salience (h.1 j),
    insert-IsNamed item s.items h.2,
  )

  pub evict-IsSynced : (id : String) (s : Stored W) → IsSynced s → IsSynced (evict m id s)
  evict-IsSynced id s h = (
    keys-remove id s.items ∙ ap (drop_key id) h.0 ∙ sym (keys-remove id s.salience),
    λ j. omega (
      arith,
      h.1 j,
      count-remove (λ i. i == j) id s.salience,
      count-and (λ i. i == j) (λ i. not (i == id)) (keys s.salience),
    ),
    remove-IsNamed id s.items h.2,
  )

  pub prune-IsSynced :
      (now : W) (items : List (WorkingMemoryItem W)) (s : Stored W)
      → IsSynced s
      → IsSynced (prune m now items s).1
  unfolding prune
  prune-IsSynced now [] s h = h
  prune-IsSynced now (item ∷ items) s h = elim (Bool-cases (expired m now item.expires_at)) [
    | inl e ↦ rw e (prune-IsSynced now items (evict m item.id s) (evict-IsSynced item.id s h))
    | inr e ↦ rw e (prune-IsSynced now items s h)
  ]

  evict_all-IsSynced :
      (ids : List String) (s : Stored W) → IsSynced s → IsSynced (evict_all m ids s)
  unfolding evict_all
  evict_all-IsSynced [] s h = h
  evict_all-IsSynced (id ∷ ids) s h = evict_all-IsSynced ids (evict m id s) (evict-IsSynced id s h)

  trim-IsSynced : (s : Stored W) → IsSynced s → IsSynced (trim_to_capacity m s)
  unfolding trim_to_capacity
  trim-IsSynced s h = elim (Bool-cases (leb (length s.salience) m.capacity)) [
    | inl e ↦ rw e h
    | inr e ↦
        rw e
          (evict_all-IsSynced (take (length s.salience - m.capacity) (m.ascending s.salience)) s h)
  ]

  pub sweep-IsSynced :
      (items : List (WorkingMemoryItem W)) (s : Stored W)
      → IsSynced s
      → IsSynced (sweep m items s).1
  unfolding sweep
  sweep-IsSynced [] s h = h
  sweep-IsSynced (item ∷ items) s h =
      let aged = record item { salience = f.mul item.salience m.decay_factor } in
      elim (Bool-cases (f.lt (f.mul item.salience m.decay_factor) m.floor)) [
        | inl e ↦ rw e (sweep-IsSynced items (evict m item.id s) (evict-IsSynced item.id s h))
        | inr e ↦ rw e (sweep-IsSynced items (persist m aged s) (persist-IsSynced aged s h))
      ]

  pub import-IsSynced :
      (items : List (WorkingMemoryItem W)) (s : Stored W)
      → IsSynced s
      → IsSynced (import_items m items s)
  unfolding import_items
  import-IsSynced [] s h = h
  import-IsSynced (item ∷ items) s h =
      import-IsSynced items (persist m item s) (persist-IsSynced item s h)

  -- Evicting the first of a rearrangement of the members leaves a rearrangement of the rest.
  evict-rearranged :
      (id : String) (ids : List String) (s : Stored W)
      → IsDistinct (keys s.salience)
      → IsRearrangement (id ∷ ids) (keys s.salience)
      → IsRearrangement ids (keys (evict m id s).salience)
  evict-rearranged id ids s d h p = ground (
    arith,
    eq_iff id id,
    d id,
    h (λ i. i == id),
    h (λ i. p i && not (i == id)),
    count-remove p id s.salience,
    count-without p id ids,
  )

  evict_all-length :
      (n : ℕ) (ids : List String) (s : Stored W)
      → IsSynced s
      → IsRearrangement ids (keys s.salience)
      → length (evict_all m (take n ids) s).salience ≡ length s.salience - n
  unfolding evict_all
  evict_all-length zero ids s d h = omega arith
  evict_all-length (suc n) [] s d h = omega (arith, h (λ _. true), length-keys s.salience)
  evict_all-length (suc n) (id ∷ ids) s d h =
      let rest = evict-rearranged id ids s d.1 h in
      omega (
        arith,
        evict_all-length n ids (evict m id s) (evict-IsSynced id s d) rest,
        h (λ _. true),
        rest (λ _. true),
        length-keys s.salience,
        length-keys (evict m id s).salience,
      )

  trim-bounded :
      (s : Stored W)
      → IsSynced s
      → IsRearrangement (m.ascending s.salience) (keys s.salience)
      → length (trim_to_capacity m s).salience ≤ m.capacity
  unfolding trim_to_capacity
  trim-bounded s d h = elim (Bool-cases (leb (length s.salience) m.capacity)) [
    | inl e ↦ rw e (ground (arith, e))
    | inr e ↦ rw e (
        ground (
          arith,
          e,
          evict_all-length (length s.salience - m.capacity) (m.ascending s.salience) s d h,
        ))
  ]

  pub stored-IsSynced :
      (now : W) (item : WorkingMemoryItem W) (ttl : Option W) (s : Stored W)
      → IsSynced s
      → IsSynced (put m now item ttl s).1
  unfolding put
  stored-IsSynced now item ttl s h =
      trim-IsSynced (persist m (stamped m now ttl item) (prune_expired m now s).1) (
        persist-IsSynced (stamped m now ttl item) (prune_expired m now s).1
          (prune-IsSynced now (read_all m s) s h))

  -- Where `zrange` lists each member of a sorted set once, and the hash and the sorted set are in step,
  -- a put leaves at most `capacity` items.
  pub put-bounded :
      ((scores : Dict W)
        → IsDistinct (keys scores)
        → IsRearrangement (m.ascending scores) (keys scores))
      → (now : W) (item : WorkingMemoryItem W) (ttl : Option W) (s : Stored W) → IsSynced s
      → count_items m (put m now item ttl s).1 ≤ m.capacity
  unfolding put
  put-bounded listed now item ttl s h =
      let stored = stamped m now ttl item in
      let full = persist m stored (prune_expired m now s).1 in
      let kept =
        persist-IsSynced stored (prune_expired m now s).1 (prune-IsSynced now (read_all m s) s h) in
      trim-bounded full kept (listed full.salience kept.1)
