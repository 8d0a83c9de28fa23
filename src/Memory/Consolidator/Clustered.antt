-- ===== src/Memory/Consolidator/Clustered.antt =====
-- brain/memory/consolidator.py: the clusters hold every episode once, and their number is capped.
use johnny.Prelude.{
  arith, ℕ, zero, suc, ◌+◌, ◌≤◌, ◌<◌, ◌≡◌, refl, Bool, true, false, Option, none, some, List, [],
  ◌∷◌, ◌++◌, map, count, count-append, length, length-append, if◌then◌else◌, Bool-cases, inl, inr,
}
use johnny.Float.{Float}
use johnny.Memory.Rows.{EpisodeRow}
use johnny.Memory.Consolidator.{
  Cluster, at_least_one, nearest_from, nearest_cluster, new_cluster, add_at, joins, placed, place,
  cluster_from, cluster_episodes,
}

module _ {W : Type 0} where
  abbrev pub members : List (List (EpisodeRow W)) → List (EpisodeRow W)
  members [] = []
  members (c ∷ cs) = c ++ members cs

  abbrev lists : List (Cluster W) → List (List (EpisodeRow W))
  lists clusters = map (λ c. c.episodes) clusters

module _ {W : Type 0} ⦃f : Float W⦄ (sqrt : W → W) (of_nat : ℕ → W) where
  add_at-length :
      (idx : ℕ) (e : EpisodeRow W) (cs : List (Cluster W))
      → length (add_at sqrt of_nat idx e cs) ≡ length cs
  add_at-length zero e [] = refl
  add_at-length (suc i) e [] = refl
  add_at-length zero e (c ∷ cs) = refl
  add_at-length (suc i) e (c ∷ cs) = omega (arith, add_at-length i e cs)

  -- The index of the nearest cluster is that of a cluster.
  abbrev IsIndex : ℕ → Option ℕ × W → Type 0
  IsIndex n (none, sim) = Unit
  IsIndex n (some idx, sim) = idx < n

  picked-IsIndex :
      (n : ℕ) (b : Bool) (idx : ℕ) (sim : W) (best : Option ℕ × W)
      → idx < n
      → IsIndex n best
      → IsIndex n (if b then (some idx, sim) else best)
  picked-IsIndex n true idx sim best h k = h
  picked-IsIndex n false idx sim best h k = k

  nearest_from-IsIndex :
      (n : ℕ) (vector : List W) (idx : ℕ) (best : Option ℕ × W) (cs : List (Cluster W))
      → idx + length cs ≤ n
      → IsIndex n best
      → IsIndex n (nearest_from sqrt of_nat vector idx best cs)
  unfolding nearest_from
  nearest_from-IsIndex n vector idx best [] h k = k
  nearest_from-IsIndex n vector idx best (c ∷ cs) h k =
      nearest_from-IsIndex n vector (suc idx) _ cs (omega (arith, h))
        (picked-IsIndex n _ idx _ best (omega (arith, h)) k)

  add_at-count :
      (p : EpisodeRow W → Bool) (idx : ℕ) (e : EpisodeRow W) (cs : List (Cluster W))
      → idx < length cs
      → count p (members (lists (add_at sqrt of_nat idx e cs)))
        ≡ count p (e ∷ []) + count p (members (lists cs))
  add_at-count p zero e [] h = omega (arith, h)
  add_at-count p (suc i) e [] h = omega (arith, h)
  add_at-count p zero e (c ∷ cs) h = omega (
    arith,
    count-append p (c.episodes ++ e ∷ []) (members (lists cs)),
    count-append p c.episodes (e ∷ []),
    count-append p c.episodes (members (lists cs)),
  )
  add_at-count p (suc i) e (c ∷ cs) h = omega (
    arith,
    add_at-count p i e cs (omega (arith, h)),
    count-append p c.episodes (members (lists cs)),
    count-append p c.episodes (members (lists (add_at sqrt of_nat i e cs))),
  )

  push-count :
      (p : EpisodeRow W → Bool) (e : EpisodeRow W) (cs : List (Cluster W))
      → count p (members (lists (cs ++ new_cluster sqrt of_nat e ∷ [])))
        ≡ count p (e ∷ []) + count p (members (lists cs))
  push-count p e [] = omega arith
  push-count p e (c ∷ cs) = omega (
    arith,
    push-count p e cs,
    count-append p c.episodes (members (lists cs)),
    count-append p c.episodes (members (lists (cs ++ new_cluster sqrt of_nat e ∷ []))),
  )

  module _ (threshold : W) (cap : ℕ) where
    placed-count :
        (p : EpisodeRow W → Bool) (e : EpisodeRow W) (cs : List (Cluster W)) (best : Option ℕ × W)
        → IsIndex (length cs) best
        → count p (members (lists (placed sqrt of_nat threshold cap e cs best)))
          ≡ count p (e ∷ []) + count p (members (lists cs))
    placed-count p e cs (none, sim) h = push-count p e cs
    placed-count p e cs (some idx, sim) h =
        elim (Bool-cases (joins sqrt of_nat threshold cap sim cs)) [
          | inl j ↦ rw j (add_at-count p idx e cs h)
          | inr j ↦ rw j (push-count p e cs)
        ]

    place-count :
        (p : EpisodeRow W → Bool) (e : EpisodeRow W) (cs : List (Cluster W))
        → count p (members (lists (place sqrt of_nat threshold cap e cs)))
          ≡ count p (e ∷ []) + count p (members (lists cs))
    unfolding nearest_cluster
    place-count p e cs = placed-count p e cs (nearest_cluster sqrt of_nat cs e.embedding) (
        nearest_from-IsIndex (length cs) e.embedding 0 (none, f.sub f.zero f.one) cs (omega arith)
          tt)

    cluster_from-count :
        (p : EpisodeRow W → Bool) (cs : List (Cluster W)) (es : List (EpisodeRow W))
        → count p (members (lists (cluster_from sqrt of_nat threshold cap cs es)))
          ≡ count p (members (lists cs)) + count p es
    unfolding cluster_from
    cluster_from-count p cs [] = omega arith
    cluster_from-count p cs (e ∷ es) =
        omega (
          arith,
          cluster_from-count p (place sqrt of_nat threshold cap e cs) es,
          place-count p e cs,
        )

    -- Whether an episode starts a cluster although there are some, since none is nearest.
    abbrev stray : Option ℕ × W → List (Cluster W) → ℕ
    stray (some idx, sim) cs = 0
    stray (none, sim) [] = 0
    stray (none, sim) (c ∷ cs) = 1

    -- How many episodes do, in the run of `cluster_from`
    abbrev pub strays : List (Cluster W) → List (EpisodeRow W) → ℕ
    strays cs [] = 0
    strays cs (e ∷ es) =
        stray (nearest_cluster sqrt of_nat cs e.embedding) cs
        + strays (place sqrt of_nat threshold cap e cs) es

    placed-length :
        (e : EpisodeRow W) (cs : List (Cluster W)) (best : Option ℕ × W) (n : ℕ)
        → length cs ≤ at_least_one cap + n
        → length (placed sqrt of_nat threshold cap e cs best)
          ≤ at_least_one cap + (n + stray best cs)
    placed-length e [] (none, sim) n h = ground arith
    placed-length e (c ∷ cs) (none, sim) n h =
        omega (arith, h, length-append cs (new_cluster sqrt of_nat e ∷ []))
    placed-length e cs (some idx, sim) n h =
        elim (Bool-cases (joins sqrt of_nat threshold cap sim cs)) [
          | inl j ↦ rw j (omega (arith, h, add_at-length idx e cs))
          | inr j ↦ rw j (ground (arith, j, h, length-append cs (new_cluster sqrt of_nat e ∷ [])))
        ]

    cluster_from-length :
        (cs : List (Cluster W)) (es : List (EpisodeRow W)) (n : ℕ)
        → length cs ≤ at_least_one cap + n
        → length (cluster_from sqrt of_nat threshold cap cs es)
          ≤ at_least_one cap + (n + strays cs es)
    unfolding cluster_from
    cluster_from-length cs [] n h = omega (arith, h)
    cluster_from-length cs (e ∷ es) n h =
        let best = nearest_cluster sqrt of_nat cs e.embedding in
        omega (
          arith,
          cluster_from-length (place sqrt of_nat threshold cap e cs) es (n + stray best cs)
              (placed-length e cs best n h),
        )

    length-lists : (cs : List (Cluster W)) → length (lists cs) ≡ length cs
    length-lists [] = refl
    length-lists (c ∷ cs) = omega (arith, length-lists cs)

    -- The clusters hold every episode exactly as often as it was given, and there are no more of them
    -- than the cap, or one if the cap is 0, and the episodes that started a cluster because none of the
    -- clusters that were there was nearest to them.
    pub cluster_episodes-bounded :
        (es : List (EpisodeRow W))
        → ((p : EpisodeRow W → Bool)
            → count p (members (cluster_episodes sqrt of_nat threshold cap es)) ≡ count p es)
          × (length (cluster_episodes sqrt of_nat threshold cap es)
              ≤ at_least_one cap + strays [] es)
    unfolding cluster_episodes
    cluster_episodes-bounded es = (
      λ p. omega (arith, cluster_from-count p [] es),
      omega (
        arith,
        cluster_from-length [] es 0 (omega arith),
        length-lists (cluster_from sqrt of_nat threshold cap [] es),
      ),
    )
