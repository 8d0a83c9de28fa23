-- ===== src/Memory/Decay.antt =====
-- brain/memory/decay.py: episodes fade with their age or
-- are strengthened, and near-duplicate facts are merged. Both passes run in one transaction, which is
-- the function `run` of the stores. `half_to` is `0.5 ** x`, `seconds` the length of a time in seconds,
-- and `sqrt` that of the `math` module. The embeddings of a column have one length.
pub mod Repointed
pub mod Linked
pub mod Graph
pub mod Kept
mod Tests
use johnny.Prelude.{
  ℕ, suc, ◌+◌, ◌-◌, Bool, true, false, not, List, [], ◌∷◌, ◌++◌, ◌==◌, ◌&&◌, ◌||◌, eqb, ltb, any,
  map, take, length, select, if◌then◌else◌, String, leb,
}
use johnny.Prelude.Sort.{sort_desc}
use johnny.Float.{Float, clamp01}
use johnny.Memory.Base.{cosine_similarity}
use johnny.Memory.Rows.{EpisodeRow, SemanticFactRow, SemanticEdgeRow}
use johnny.Memory.Tables.{Stores, has_fact}

pub record MemoryDecay (W : Type 0) : Type 0 where
  pub episode_limit : ℕ
  pub halflife : W
  pub floor : W
  pub charged_boost : W
  pub merge_threshold : W
  pub tolerance : W
  pub half_to : W → W
  pub seconds : ℕ → W
  pub sqrt : W → W

pub record DecayReport : Type 0 where
  pub episodes_decayed : ℕ
  pub episodes_strengthened : ℕ
  pub facts_merged : ℕ

abbrev pub among : List ℕ → ℕ → Bool
among ids id = any (λ i. eqb i id) ids

-- `sorted` of a set that an id is added to
abbrev pub add_sorted : ℕ → List ℕ → List ℕ
add_sorted id [] = id ∷ []
add_sorted id (i ∷ ids) =
    let rest = add_sorted id ids in
    if ltb id i then id ∷ i ∷ ids else (if eqb id i then i ∷ ids else i ∷ rest)

unfoldable pub add_all : List ℕ → List ℕ → List ℕ
add_all [] ids = ids
add_all (i ∷ is) ids = add_all is (add_sorted i ids)

-- `(from, to, relation)`
abbrev pub EdgeKey : Type 0
EdgeKey = ℕ × ℕ × String

abbrev pub key_of_edge : SemanticEdgeRow → EdgeKey
key_of_edge e = (e.from_fact, e.to_fact, e.relation)

abbrev pub same_key : EdgeKey → EdgeKey → Bool
same_key (a, b, r) (c, d, q) = eqb a c && (eqb b d && r == q)

abbrev pub has_key : List EdgeKey → EdgeKey → Bool
has_key keys k = any (λ q. same_key q k) keys

module _ (dup_ids : List ℕ) (survivor_id : ℕ) where
  abbrev pub touches : SemanticEdgeRow → Bool
  touches e = among dup_ids e.from_fact || among dup_ids e.to_fact

  abbrev pub moved : ℕ → ℕ
  moved id = if among dup_ids id then survivor_id else id

  abbrev pub moved_key : SemanticEdgeRow → EdgeKey
  moved_key e = (moved e.from_fact, moved e.to_fact, e.relation)

  abbrev pub is_dropped : List EdgeKey → SemanticEdgeRow → Bool
  is_dropped keys e = eqb (moved e.from_fact) (moved e.to_fact) || has_key keys (moved_key e)

  abbrev pub reaimed : SemanticEdgeRow → SemanticEdgeRow
  reaimed e = record e { from_fact = moved e.from_fact; to_fact = moved e.to_fact }

  -- The loop over the affected edges, in the table; the others stay as they are.
  unfoldable pub repoint : List EdgeKey → List SemanticEdgeRow → List SemanticEdgeRow
  repoint keys [] = []
  repoint keys (e ∷ es) =
      let stay = repoint keys es in
      let aimed = repoint (moved_key e ∷ keys) es in
      if touches e then (if is_dropped keys e then stay else reaimed e ∷ aimed) else e ∷ stay

  -- `_repoint_edges`
  unfoldable pub repoint_edges : List SemanticEdgeRow → List SemanticEdgeRow
  unfolding repoint
  repoint_edges edges = repoint (map key_of_edge (select (λ e. not (touches e)) edges)) edges

module _ {W : Type 0} ⦃f : Float W⦄ (d : MemoryDecay W) where
  unfoldable pub adjusted_salience : W → ℕ → ℕ → Bool → W
  unfolding clamp01
  adjusted_salience salience ts now charged =
      let age = d.seconds (now - ts) in
      let retained = if f.lt f.zero d.halflife then d.half_to (f.div age d.halflife) else f.one in
      let value = f.add d.floor (f.mul (f.sub salience d.floor) retained) in
      clamp01 (if charged then f.add value (f.mul d.charged_boost (f.sub f.one value)) else value)

  -- A group: its first fact, and the others
  abbrev pub Group : Type 0
  Group = SemanticFactRow W × List (SemanticFactRow W)

  abbrev pub is_near : SemanticFactRow W → Group → Bool
  is_near fact (first, others) =
      f.le d.merge_threshold (cosine_similarity d.sqrt fact.embedding first.embedding)

  -- The first group that is near enough, or a new one
  unfoldable pub join_group : SemanticFactRow W → List Group → List Group
  unfolding cosine_similarity
  join_group fact [] = (fact, []) ∷ []
  join_group fact (g ∷ gs) =
      let rest = join_group fact gs in
      if is_near fact g then (g.0, g.1 ++ fact ∷ []) ∷ gs else g ∷ rest

  unfoldable pub group_from : List Group → List (SemanticFactRow W) → List Group
  unfolding join_group
  group_from groups [] = groups
  group_from groups (fact ∷ facts) = group_from (join_group fact groups) facts

  unfoldable pub duplicate_fact_groups : List (SemanticFactRow W) → List Group
  unfolding group_from
  duplicate_fact_groups facts = group_from [] facts

  abbrev pub is_charged : List ℕ → EpisodeRow W → Bool
  is_charged charged_ids row = not (leb (length row.emotion_tags) 0) || among charged_ids row.id

  abbrev pub new_salience : List ℕ → ℕ → EpisodeRow W → W
  new_salience charged_ids now row =
      adjusted_salience row.salience row.ts now (is_charged charged_ids row)

  abbrev pub has_decayed : List ℕ → ℕ → EpisodeRow W → Bool
  has_decayed charged_ids now row =
      f.lt (new_salience charged_ids now row) (f.sub row.salience d.tolerance)

  abbrev pub has_grown : List ℕ → ℕ → EpisodeRow W → Bool
  has_grown charged_ids now row =
      not (has_decayed charged_ids now row)
      && f.lt (f.add row.salience d.tolerance) (new_salience charged_ids now row)

  abbrev pub rescored : List ℕ → ℕ → EpisodeRow W → EpisodeRow W
  rescored charged_ids now row =
      if has_decayed charged_ids now row || has_grown charged_ids now row
      then record row { salience = new_salience charged_ids now row }
      else row

  -- `_consolidated_source_ids`
  abbrev pub source_ids : List (SemanticFactRow W) → List ℕ
  source_ids [] = []
  source_ids (fact ∷ facts) = fact.source_episode_ids ++ source_ids facts

  -- The oldest episodes, up to the limit
  unfoldable pub oldest : List (EpisodeRow W) → List (EpisodeRow W)
  oldest rows = take d.episode_limit (sort_desc (λ a b. ltb b a) (λ row. row.ts) rows)

  abbrev pub rescore_chosen : List ℕ → List ℕ → ℕ → EpisodeRow W → EpisodeRow W
  rescore_chosen chosen charged_ids now row =
      if among chosen row.id then rescored charged_ids now row else row

  -- `_decay_episodes`: the rows, and how many of them faded and were strengthened
  unfoldable pub decay_episodes :
      ℕ → List (SemanticFactRow W) → List (EpisodeRow W) → List (EpisodeRow W) × ℕ × ℕ
  unfolding oldest adjusted_salience sort_desc
  decay_episodes now facts rows =
      let charged_ids = source_ids facts in
      let chosen = oldest rows in
      (
        map (rescore_chosen (map (λ r. r.id) chosen) charged_ids now) rows,
        length (select (has_decayed charged_ids now) chosen),
        length (select (has_grown charged_ids now) chosen),
      )

  abbrev pub most_confident : W → List (SemanticFactRow W) → W
  most_confident c [] = c
  most_confident c (dup ∷ dups) =
      most_confident (if f.lt c dup.confidence then dup.confidence else c) dups

  unfoldable pub merged : Group → SemanticFactRow W
  unfolding add_all
  merged (survivor, dups) = record survivor {
    source_episode_ids = add_all (source_ids dups) (add_all survivor.source_episode_ids []);
    confidence = most_confident survivor.confidence dups;
  }

  abbrev pub ids_of : List (SemanticFactRow W) → List ℕ
  ids_of facts = map (λ r. r.id) facts

  abbrev pub put_fact : SemanticFactRow W → SemanticFactRow W → SemanticFactRow W
  put_fact new fact = if eqb fact.id new.id then new else fact

  pub record Knowledge : Type 0 where
    pub facts : List (SemanticFactRow W)
    pub edges : List SemanticEdgeRow

  -- `DELETE` of facts, which takes the edges that still touch them along.
  abbrev pub delete_facts : List ℕ → Knowledge → Knowledge
  delete_facts ids k = record {
    facts = select (λ r. not (among ids r.id)) k.facts;
    edges = select (λ e. not (among ids e.from_fact || among ids e.to_fact)) k.edges;
  }

  abbrev pub merge_others : Group → Knowledge → Knowledge
  merge_others (survivor, []) k = k
  merge_others (survivor, dup ∷ dups) k =
      let ids = ids_of (dup ∷ dups) in
      delete_facts ids (record {
        facts = map (put_fact (merged (survivor, dup ∷ dups))) k.facts;
        edges = repoint_edges ids survivor.id k.edges;
      })

  unfoldable pub merge_groups : List Group → Knowledge → Knowledge × ℕ
  unfolding merged repoint_edges
  merge_groups [] k = (k, 0)
  merge_groups (g ∷ gs) k = let (k', n) = merge_groups gs (merge_others g k) in (k', length g.1 + n)

  -- `_merge_facts`
  unfoldable pub merge_facts : Knowledge → Knowledge × ℕ
  unfolding merge_groups duplicate_fact_groups sort_desc
  merge_facts k =
      merge_groups (duplicate_fact_groups (sort_desc (λ a b. ltb b a) (λ r. r.id) k.facts)) k

  -- `MemoryDecay.run`
  unfoldable pub run : ℕ → Stores W → DecayReport × Stores W
  unfolding decay_episodes merge_facts
  run now s =
      let (episodes, decayed, strengthened) =
        decay_episodes now s.semantic_fact.rows s.episode.rows in
      let (k, n) =
        merge_facts (record { facts = s.semantic_fact.rows; edges = s.semantic_edge.rows }) in
      (
        record {
          episodes_decayed = decayed;
          episodes_strengthened = strengthened;
          facts_merged = n;
        },
        record s {
          episode = record s.episode { rows = episodes };
          semantic_fact = record s.semantic_fact { rows = k.facts };
          semantic_edge = record s.semantic_edge { rows = k.edges };
        },
      )
