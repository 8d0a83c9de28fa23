-- ===== src/Memory/Decay/Repointed.antt =====
-- brain/memory/decay.py: the edges after `_repoint_edges`.
use johnny.Prelude.{
  arith, eq_iff, ℕ, ◌+◌, ◌≤◌, ◌≡◌, refl, Bool, true, false, not, List, [], ◌∷◌, ◌||◌, map, count,
  select, All, if◌then◌else◌, Bool-cases, inl, inr,
}
use johnny.Memory.Rows.{SemanticEdgeRow}
use johnny.Memory.Decay.{
  among, EdgeKey, key_of_edge, same_key, has_key, touches, moved, moved_key, is_dropped, repoint,
  repoint_edges,
}

-- The edges with a key
abbrev pub keyed : EdgeKey → List SemanticEdgeRow → ℕ
keyed k edges = count (λ e. same_key (key_of_edge e) k) edges

same_key-eq : (p q : EdgeKey) → same_key p q ≡ true → p ≡ q
same_key-eq (a, b, r) (c, d, s) h =
    let first : a ≡ c = ground (arith, h) in
    let second : b ≡ d = ground (arith, h) in
    let third : r ≡ s = (eq_iff r s).0 (ground (arith, h)) in rw (first, second, third) refl

emitted :
    (q k : EdgeKey) (keys : List EdgeKey) (n m : ℕ)
    → has_key keys q ≡ false
    → n ≤ m + (if same_key q k || has_key keys k then 0 else 1)
    → (if same_key q k then 1 else 0) + n ≤ m + (if has_key keys k then 0 else 1)
emitted q k keys n m fresh h = elim (Bool-cases (same_key q k)) [
  | inl s ↦
      let new : has_key keys k ≡ false = rw (same_key-eq q k s) at fresh in
      ground (arith, h, s, new)
  | inr s ↦ ground (arith, h, s)
]

module _ (dup_ids : List ℕ) (survivor_id : ℕ) where
  abbrev untouched : SemanticEdgeRow → Bool
  untouched e = not (touches dup_ids survivor_id e)

  repoint-keyed :
      (k : EdgeKey) (keys : List EdgeKey) (es : List SemanticEdgeRow)
      → keyed k (repoint dup_ids survivor_id keys es)
        ≤ keyed k (select untouched es) + (if has_key keys k then 0 else 1)
  unfolding repoint
  repoint-keyed k keys [] = omega arith
  repoint-keyed k keys (e ∷ es) = elim (Bool-cases (touches dup_ids survivor_id e)) [
    | inr u ↦ rw u (omega (arith, repoint-keyed k keys es))
    | inl t ↦ elim (Bool-cases (is_dropped dup_ids survivor_id keys e)) [
      | inl x ↦ rw (t, x) (repoint-keyed k keys es)
      | inr x ↦
          rw (t, x)
            (emitted (moved_key dup_ids survivor_id e) k keys
              (keyed k (repoint dup_ids survivor_id (moved_key dup_ids survivor_id e ∷ keys) es))
              (keyed k (select untouched es)) (ground (arith, x))
              (repoint-keyed k (moved_key dup_ids survivor_id e ∷ keys) es))
    ]
  ]

  pub keyed-select :
      (k : EdgeKey) (p : SemanticEdgeRow → Bool) (es : List SemanticEdgeRow)
      → keyed k (select p es) ≤ keyed k es
  keyed-select k p [] = omega arith
  keyed-select k p (e ∷ es) = elim (Bool-cases (p e)) [
    | inl h ↦ rw h (omega (arith, keyed-select k p es))
    | inr h ↦ rw h (omega (arith, keyed-select k p es))
  ]

  keyed-unknown :
      (k : EdgeKey) (es : List SemanticEdgeRow)
      → has_key (map key_of_edge es) k ≡ false
      → keyed k es ≡ 0
  keyed-unknown k [] h = refl
  keyed-unknown k (e ∷ es) h = ground (arith, h, keyed-unknown k es)

  -- When no two edges agree in both ends and relation, no two do after `_repoint_edges`, so that none
  -- of its updates breaks the unique constraint.
  pub repoint_edges-keyed :
      (edges : List SemanticEdgeRow)
      → ((k : EdgeKey) → keyed k edges ≤ 1)
      → (k : EdgeKey) → keyed k (repoint_edges dup_ids survivor_id edges) ≤ 1
  unfolding repoint_edges
  repoint_edges-keyed edges h k =
      let keys = map key_of_edge (select untouched edges) in
      let bound = repoint-keyed k keys edges in
      elim (Bool-cases (has_key keys k)) [
        | inl e ↦ let fewer = keyed-select k untouched edges in ground (arith, bound, e, fewer, h k)
        | inr e ↦
            let gone = keyed-unknown k (select untouched edges) e in ground (arith, bound, e, gone)
      ]

  -- No edge touches a fact that is merged away.
  abbrev IsClear : SemanticEdgeRow → Type 0
  IsClear e = touches dup_ids survivor_id e ≡ false

  moved-clear :
      (id : ℕ)
      → among dup_ids survivor_id ≡ false
      → among dup_ids (moved dup_ids survivor_id id) ≡ false
  moved-clear id h = elim (Bool-cases (among dup_ids id)) [ inl e ↦ rw e h | inr e ↦ rw e e ]

  repoint-IsClear :
      (keys : List EdgeKey) (es : List SemanticEdgeRow)
      → among dup_ids survivor_id ≡ false
      → All IsClear (repoint dup_ids survivor_id keys es)
  unfolding repoint
  repoint-IsClear keys [] h = tt
  repoint-IsClear keys (e ∷ es) h = elim (Bool-cases (touches dup_ids survivor_id e)) [
    | inr u ↦ rw u (u, repoint-IsClear keys es h)
    | inl t ↦ elim (Bool-cases (is_dropped dup_ids survivor_id keys e)) [
      | inl x ↦ rw (t, x) (repoint-IsClear keys es h)
      | inr x ↦
          rw (t, x)
            (
              ground (arith, moved-clear e.from_fact h, moved-clear e.to_fact h),
              repoint-IsClear (moved_key dup_ids survivor_id e ∷ keys) es h,
            )
    ]
  ]
