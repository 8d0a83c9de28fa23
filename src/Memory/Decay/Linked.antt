-- ===== src/Memory/Decay/Linked.antt =====
-- brain/memory/decay.py: what a merge does to the ends of the edges and to the facts of the groups.
use johnny.Prelude.{
  arith, ℕ, ◌≤◌, ◌≡◌, refl, Bool, true, false, not, List, [], ◌∷◌, ◌++◌, ◌&&◌, ◌||◌, eqb, map,
  count, select, All, Bool-cases, inl, inr,
}
use johnny.Memory.Rows.{SemanticEdgeRow, SemanticFactRow}
use johnny.Memory.Tables.{has_fact}
use johnny.Memory.Decay.{among, EdgeKey, touches, moved, moved_key, is_dropped, repoint}

module _ {W : Type 0} where
  -- Both ends of an edge are facts.
  abbrev pub IsLinked : List (SemanticFactRow W) → SemanticEdgeRow → Type 0
  IsLinked facts e = (has_fact facts e.from_fact && has_fact facts e.to_fact) ≡ true

  module _ (facts : List (SemanticFactRow W)) (dup_ids : List ℕ) (survivor_id : ℕ)
      (there : has_fact facts survivor_id ≡ true) where
    moved-there :
        (id : ℕ) → has_fact facts id ≡ true → has_fact facts (moved dup_ids survivor_id id) ≡ true
    moved-there id h = elim (Bool-cases (among dup_ids id)) [ inl e ↦ rw e there | inr e ↦ rw e h ]

    pub repoint-IsLinked :
        (keys : List EdgeKey) (es : List SemanticEdgeRow)
        → All (IsLinked facts) es
        → All (IsLinked facts) (repoint dup_ids survivor_id keys es)
    unfolding repoint
    repoint-IsLinked keys [] h = tt
    repoint-IsLinked keys (e ∷ es) h = elim (Bool-cases (touches dup_ids survivor_id e)) [
      | inr u ↦ rw u (h.0, repoint-IsLinked keys es h.1)
      | inl t ↦ elim (Bool-cases (is_dropped dup_ids survivor_id keys e)) [
        | inl x ↦ rw (t, x) (repoint-IsLinked keys es h.1)
        | inr x ↦
            rw (t, x)
              (
                ground (arith, h.0, moved-there e.from_fact, moved-there e.to_fact),
                repoint-IsLinked (moved_key dup_ids survivor_id e ∷ keys) es h.1,
              )
      ]
    ]

  pub has_fact-put :
      (put : SemanticFactRow W → SemanticFactRow W)
      → ((r : SemanticFactRow W) → (put r).id ≡ r.id)
      → (facts : List (SemanticFactRow W)) (id : ℕ)
      → has_fact (map put facts) id ≡ has_fact facts id
  has_fact-put put h [] id = refl
  has_fact-put put h (r ∷ facts) id = rw (h r, has_fact-put put h facts id) refl

  pub has_fact-select :
      (ids : List ℕ) (facts : List (SemanticFactRow W)) (id : ℕ)
      → has_fact (select (λ r. not (among ids r.id)) facts) id
        ≡ (has_fact facts id && not (among ids id))
  has_fact-select ids [] id = refl
  has_fact-select ids (r ∷ facts) id = elim (Bool-cases (among ids r.id)) [
    | inl g ↦ rw g (ground (arith, has_fact-select ids facts id, same g))
    | inr g ↦ rw g (ground (arith, has_fact-select ids facts id, same g))
  ]
    where
      same : {b : Bool} → among ids r.id ≡ b → eqb r.id id ≡ true → among ids id ≡ b
      same g e = let equal : r.id ≡ id = ground (arith, e) in rw equal at g

  pub IsLinked-select :
      (ids : List ℕ) (facts : List (SemanticFactRow W)) (es : List SemanticEdgeRow)
      → All (IsLinked facts) es
      → All
          (IsLinked (select (λ r. not (among ids r.id)) facts))
          (select (λ e. not (among ids e.from_fact || among ids e.to_fact)) es)
  IsLinked-select ids facts [] h = tt
  IsLinked-select ids facts (e ∷ es) h =
      elim (Bool-cases (among ids e.from_fact || among ids e.to_fact)) [
        | inl t ↦ rw t (IsLinked-select ids facts es h.1)
        | inr t ↦ rw t (
          ground (
            arith,
            h.0,
            t,
            has_fact-select ids facts e.from_fact,
            has_fact-select ids facts e.to_fact,
          ),
          IsLinked-select ids facts es h.1,
        )
      ]

  -- The facts of the groups, one group after the other
  abbrev pub flat : List (SemanticFactRow W × List (SemanticFactRow W)) → List (SemanticFactRow W)
  flat [] = []
  flat ((first, others) ∷ gs) = first ∷ others ++ flat gs

  -- How many facts have an id
  abbrev pub numbered : ℕ → List (SemanticFactRow W) → ℕ
  numbered id facts = count (λ r. eqb r.id id) facts

  pub among-none :
      (id : ℕ) (facts : List (SemanticFactRow W))
      → numbered id facts ≡ 0
      → among (map (λ r. r.id) facts) id ≡ false
  among-none id [] h = refl
  among-none id (r ∷ facts) h = ground (arith, h, among-none id facts)

  own-tail :
      (r : SemanticFactRow W) (facts qs : List (SemanticFactRow W))
      → All (λ q. 1 ≤ numbered q.id facts) qs
      → All (λ q. 1 ≤ numbered q.id (r ∷ facts)) qs
  own-tail r facts [] h = tt
  own-tail r facts (q ∷ qs) h = (omega (arith, h.0), own-tail r facts qs h.1)

  pub own-numbered : (facts : List (SemanticFactRow W)) → All (λ r. 1 ≤ numbered r.id facts) facts
  own-numbered [] = tt
  own-numbered (r ∷ facts) = (ground arith, own-tail r facts facts (own-numbered facts))

  pub All-end :
      (P : SemanticFactRow W → Type 0) (xs ys : List (SemanticFactRow W))
      → All P (xs ++ ys)
      → All P ys
  All-end P [] ys h = h
  All-end P (x ∷ xs) ys h = All-end P xs ys h.1

  numbered-there :
      (id : ℕ) (facts : List (SemanticFactRow W)) → 1 ≤ numbered id facts → has_fact facts id ≡ true
  numbered-there id [] h = ground (arith, h)
  numbered-there id (r ∷ facts) h = ground (arith, h, numbered-there id facts)

  pub all-there :
      (groups facts xs : List (SemanticFactRow W))
      → ((id : ℕ) → numbered id groups ≡ numbered id facts)
      → All (λ r. 1 ≤ numbered r.id groups) xs
      → All (λ r. has_fact facts r.id ≡ true) xs
  all-there groups facts [] h own = tt
  all-there groups facts (r ∷ xs) h own =
      (numbered-there r.id facts (omega (arith, h r.id, own.0)), all-there groups facts xs h own.1)
