-- ===== src/Memory/Decay/Graph.antt =====
-- brain/memory/decay.py: the graph of facts and edges after a merge.
use johnny.Prelude.{
  arith, ℕ, ◌+◌, ◌≤◌, ◌≡◌, refl, ◌∙◌, Bool, true, not, List, [], ◌∷◌, ◌++◌, ◌&&◌, ◌||◌, eqb, ltb,
  map, count, count-append, select, All, Bool-cases, inl, inr,
}
use johnny.Prelude.Sort.{sort_desc, sort_desc-count}
use johnny.Float.{Float}
use johnny.Memory.Rows.{SemanticEdgeRow, SemanticFactRow}
use johnny.Memory.Tables.{has_fact}
use johnny.Memory.Decay.{
  MemoryDecay, among, EdgeKey, key_of_edge, touches, repoint_edges, Group, is_near, join_group,
  group_from, duplicate_fact_groups, merged, ids_of, put_fact, Knowledge, merge_others,
  merge_groups, merge_facts,
}
use johnny.Memory.Decay.Repointed.{keyed, keyed-select, repoint_edges-keyed}
use johnny.Memory.Decay.Linked.{
  flat, All-end, all-there, own-numbered, numbered, among-none, repoint-IsLinked, has_fact-put,
  has_fact-select, IsLinked-select, IsLinked,
}

module _ {W : Type 0} ⦃f : Float W⦄ (d : MemoryDecay W) where
  join_group-count :
      (p : SemanticFactRow W → Bool) (fact : SemanticFactRow W) (gs : List (Group d))
      → count p (flat (join_group d fact gs)) ≡ count p (fact ∷ []) + count p (flat gs)
  unfolding join_group
  join_group-count p fact [] = omega arith
  join_group-count p fact ((first, others) ∷ gs) =
      elim (Bool-cases (is_near d fact (first, others))) [
        | inl e ↦ rw e (
            omega (
              arith,
              count-append p (others ++ fact ∷ []) (flat gs),
              count-append p others (fact ∷ []),
              count-append p others (flat gs),
            ))
        | inr e ↦ rw e (
            omega (
              arith,
              join_group-count p fact gs,
              count-append p others (flat gs),
              count-append p others (flat (join_group d fact gs)),
            ))
      ]

  group_from-count :
      (p : SemanticFactRow W → Bool) (gs : List (Group d)) (facts : List (SemanticFactRow W))
      → count p (flat (group_from d gs facts)) ≡ count p (flat gs) + count p facts
  unfolding group_from
  group_from-count p gs [] = omega arith
  group_from-count p gs (fact ∷ facts) =
      omega (arith, group_from-count p (join_group d fact gs) facts, join_group-count p fact gs)

  -- The graph as the database keeps it: every edge links two facts, and no two edges are alike.
  abbrev pub IsGraph : Knowledge d → Type 0
  IsGraph k = All (IsLinked k.facts) k.edges × ((e : EdgeKey) → keyed e k.edges ≤ 1)

  put_fact-id : (new r : SemanticFactRow W) → (put_fact d new r).id ≡ r.id
  put_fact-id new r = elim (Bool-cases (eqb r.id new.id)) [
    | inl e ↦ rw e (ground (arith, e))
    | inr e ↦ rw e refl
  ]

  merge_others-facts :
      (g : Group d) (k : Knowledge d) (id : ℕ)
      → has_fact (merge_others d g k).facts id
        ≡ (has_fact k.facts id && not (among (ids_of d g.1) id))
  merge_others-facts (survivor, []) k id = ground arith
  merge_others-facts (survivor, dup ∷ dups) k id =
      let put = put_fact d (merged d (survivor, dup ∷ dups)) in
      rw
        (
          has_fact-select (ids_of d (dup ∷ dups)) (map put k.facts) id,
          has_fact-put put (put_fact-id (merged d (survivor, dup ∷ dups))) k.facts id,
        )
        refl

  IsLinked-put :
      (new : SemanticFactRow W) (facts : List (SemanticFactRow W)) (es : List SemanticEdgeRow)
      → All (IsLinked facts) es
      → All (IsLinked (map (put_fact d new) facts)) es
  IsLinked-put new facts [] h = tt
  IsLinked-put new facts (e ∷ es) h = (
    rw
        (
          has_fact-put (put_fact d new) (put_fact-id new) facts e.from_fact,
          has_fact-put (put_fact d new) (put_fact-id new) facts e.to_fact,
        )
        h.0,
    IsLinked-put new facts es h.1,
  )

  merge_others-IsGraph :
      (g : Group d) (k : Knowledge d)
      → has_fact k.facts g.0.id ≡ true
      → IsGraph k
      → IsGraph (merge_others d g k)
  unfolding repoint_edges
  merge_others-IsGraph (survivor, []) k there h = h
  merge_others-IsGraph (survivor, dup ∷ dups) k there (linked, single) =
      let ids = ids_of d (dup ∷ dups) in
      let new = merged d (survivor, dup ∷ dups) in
      let facts = map (put_fact d new) k.facts in
      let edges = repoint_edges ids survivor.id k.edges in
      let held : has_fact facts survivor.id ≡ true =
        has_fact-put (put_fact d new) (put_fact-id new) k.facts survivor.id ∙ there in
      let aimed =
        repoint-IsLinked facts ids survivor.id held
          (map key_of_edge (select (λ e. not (touches ids survivor.id e)) k.edges)) k.edges
          (IsLinked-put new k.facts k.edges linked) in
      (
        IsLinked-select ids facts edges aimed,
        λ e. omega (
          arith,
          keyed-select ids survivor.id e (λ x. not (among ids x.from_fact || among ids x.to_fact))
              edges,
          repoint_edges-keyed ids survivor.id k.edges single e,
        ),
      )

  -- No fact of a later group is one of those that this group merges away.
  others-present :
      (g : Group d) (k : Knowledge d) (gs : List (Group d)) (xs : List (SemanticFactRow W))
      → ((id : ℕ) → numbered id (flat (g ∷ gs)) ≤ 1)
      → All (λ r. 1 ≤ numbered r.id (flat gs)) xs
      → All (λ r. has_fact k.facts r.id ≡ true) xs
      → All (λ r. has_fact (merge_others d g k).facts r.id ≡ true) xs
  others-present g k gs [] once own there = tt
  others-present (first, others) k gs (r ∷ xs) once own there =
      let apart : numbered r.id others ≡ 0 =
        omega (arith, once r.id, own.0, count-append (λ q. eqb q.id r.id) others (flat gs)) in
      let free = among-none r.id others apart in
      (
        rw (merge_others-facts (first, others) k r.id) (ground (arith, there.0, free)),
        others-present (first, others) k gs xs once own.1 there.1,
      )

  merge_groups-IsGraph :
      (gs : List (Group d)) (k : Knowledge d)
      → ((id : ℕ) → numbered id (flat gs) ≤ 1)
      → All (λ r. has_fact k.facts r.id ≡ true) (flat gs)
      → IsGraph k
      → IsGraph (merge_groups d gs k).0
  unfolding merge_groups
  merge_groups-IsGraph [] k once there h = h
  merge_groups-IsGraph ((first, others) ∷ gs) k once there h =
      merge_groups-IsGraph gs (merge_others d (first, others) k)
        (λ id. omega (arith, once id, count-append (λ q. eqb q.id id) others (flat gs)))
        (others-present (first, others) k gs (flat gs) once (own-numbered (flat gs))
          (All-end (λ r. has_fact k.facts r.id ≡ true) others (flat gs) there.1))
        (merge_others-IsGraph (first, others) k there.0 h)

  -- When the facts have different ids, every edge links two of them and no two edges are alike, the same
  -- holds after a merge, whatever the embeddings and the threshold: no update breaks the unique
  -- constraint, and no edge is left at a fact that was merged away.
  pub merge_facts-IsGraph :
      (k : Knowledge d)
      → ((id : ℕ) → numbered id k.facts ≤ 1)
      → IsGraph k
      → IsGraph (merge_facts d k).0
  unfolding merge_facts duplicate_fact_groups
  merge_facts-IsGraph k once h =
      let sorted = sort_desc (λ a b. ltb b a) (λ r. r.id) k.facts in
      let gs = group_from d [] sorted in
      let same : (id : ℕ) → numbered id (flat gs) ≡ numbered id k.facts = λ id. omega (
        arith,
        group_from-count (λ r. eqb r.id id) [] sorted,
        sort_desc-count (λ a b. ltb b a) (λ r. r.id) (λ r. eqb r.id id) k.facts,
      ) in
      merge_groups-IsGraph gs k (λ id. omega (arith, same id, once id))
        (all-there (flat gs) k.facts (flat gs) same (own-numbered (flat gs))) h
