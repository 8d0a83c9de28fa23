-- ===== src/Memory/Working/Imported.antt =====
-- Importing what was exported gives the hash back.
use johnny.Prelude.{
  arith, eq_iff, ℕ, ◌+◌, ◌≡◌, ◌≤◌, refl, ap, ◌∙◌, String, Bool, [], ◌∷◌, ◌++◌, ◌==◌, Dict, insert,
  All, map, count, Bool-cases, inl, inr,
}
use johnny.Prelude.Keys.{keys, IsDistinct}
use johnny.Float.{Float}
use johnny.Memory.Working.{
  WorkingMemoryItem, Stored, WorkingMemory, import_items, value_of, persist, read_all, clear,
}
use johnny.Memory.Working.Capacity.{IsNamed, IsSynced}
use mathlib.Core.List.{append_assoc, append-nil}

module _ {V : Type 0} where
  insert-new :
      (k : String) (v : V) (d : Dict V)
      → count (λ i. i == k) (keys d) ≡ 0
      → insert k v d ≡ d ++ (k, v) ∷ []
  insert-new k v [] h = refl
  insert-new k v ((j, w) ∷ d) h = elim (Bool-cases (j == k)) [
    | inl e ↦ ground (arith, h, e)
    | inr e ↦ rw e (ap (λ x. (j, w) ∷ x) (insert-new k v d (ground (arith, h, e))))
  ]

  abbrev insert_each : Dict V → Dict V → Dict V
  insert_each there [] = there
  insert_each there ((k, v) ∷ d) = insert_each (insert k v there) d

  keys-push :
      (p : String → Bool) (d : Dict V) (k : String) (v : V) (b : ℕ)
      → count p (keys (d ++ (k, v) ∷ [])) + b ≡ count p (keys d) + count p (k ∷ []) + b
  keys-push p [] k v b = omega arith
  keys-push p ((j, w) ∷ d) k v b = omega (arith, keys-push p d k v b)

  abbrev Apart : Dict V → Dict V → Type 0
  Apart c d = (j : String) → count (λ i. i == j) (keys c) + count (λ i. i == j) (keys d) ≤ 1

  insert_each-Apart : (there d : Dict V) → Apart there d → insert_each there d ≡ there ++ d
  insert_each-Apart there [] h = rw append-nil refl
  insert_each-Apart there ((k, v) ∷ d) h =
      rw (insert-new k v there (ground (arith, h k, eq_iff k k))) (
        insert_each-Apart (there ++ (k, v) ∷ []) d
          (λ j. omega (arith, h j, keys-push (λ i. i == j) there k v 0))
        ∙ append_assoc there ((k, v) ∷ []) d)

  pub insert_each-IsDistinct : (d : Dict V) → IsDistinct (keys d) → insert_each [] d ≡ d
  insert_each-IsDistinct d h = insert_each-Apart [] d (λ j. omega (arith, h j))

abbrev pub scores : {W : Type 0} → Dict (WorkingMemoryItem W) → Dict W
scores [] = []
scores ((k, item) ∷ d) = (k, item.salience) ∷ scores d

keys-scores : {W : Type 0} (d : Dict (WorkingMemoryItem W)) → keys (scores d) ≡ keys d
keys-scores [] = refl
keys-scores ((k, item) ∷ d) = ap (λ ks. k ∷ ks) (keys-scores d)

module _ {W : Type 0} where
  scores-IsDistinct :
      (d : Dict (WorkingMemoryItem W)) → IsDistinct (keys d) → IsDistinct (keys (scores d))
  scores-IsDistinct d h = rw (keys-scores d) h

  items-IsDistinct : (s : Stored W) → IsSynced s → IsDistinct (keys s.items)
  items-IsDistinct s h = rw (h.0) (h.1)

module _ {W : Type 0} ⦃f : Float W⦄ (m : WorkingMemory W) where
  import_items-insert_each :
      (d : Dict (WorkingMemoryItem W)) (s : Stored W)
      → All IsNamed d
      → import_items m (map value_of d) s
        ≡ record { items = insert_each s.items d; salience = insert_each s.salience (scores d) }
  unfolding import_items
  import_items-insert_each [] s h = refl
  import_items-insert_each ((k, item) ∷ d) s h =
      let same = (eq_iff k item.id).0 h.0 in
      rw same (import_items-insert_each d (persist m item s) h.1)

  pub import_items-read_all :
      (s t : Stored W)
      → IsSynced s
      → import_items m (read_all m s) (clear m t)
        ≡ record { items = s.items; salience = scores s.items }
  import_items-read_all s t h =
      let once = items-IsDistinct s h in
      rw
        (
          import_items-insert_each s.items (clear m t) h.2,
          insert_each-IsDistinct s.items once,
          insert_each-IsDistinct (scores s.items) (scores-IsDistinct s.items once),
        )
        refl
