-- ===== src/Memory/Consolidator/Written.antt =====
-- brain/memory/consolidator.py: the facts that a pass writes.
use johnny.Prelude.{
  arith, ℕ, suc, ◌≤◌, ◌≡◌, refl, ◌∙◌, map, String, Bool, Option, none, some, List, [], ◌∷◌, ◌++◌,
  ◌==◌, select, length, count, length-append, Bool-cases, inl, inr,
}
use johnny.Prelude.Exec.{Outcome, returned, raised, bind_lem, ◌>>=◌, pure}
use johnny.Float.{Float}
use johnny.Llm.{LlmError}
use johnny.Memory.Rows.{EpisodeRow, SemanticFactRow}
use johnny.Memory.Stores.{is_fact}
use johnny.Memory.Stores.Upserted.{about, upsert_fact-about}
use johnny.Memory.Consolidator.{ConsolidationSummary, cluster_episodes}
use johnny.Memory.Consolidator.Run.{
  Consolidator, Mind, Consolidating, Routed, summarise, summarise_by, summarise_with_llm,
  or_fallback, upserted, write_fact, consolidate, run, id_of,
}

length-select : {A : Type 0} (p : A → Bool) (xs : List A) → length (select p xs) ≡ count p xs
length-select p [] = refl
length-select p (x ∷ xs) = elim (Bool-cases (p x)) [
  | inl e ↦ rw e (omega (arith, length-select p xs))
  | inr e ↦ rw e (omega (arith, length-select p xs))
]

module _ {W : Type 0} ⦃f : Float W⦄ (c : Consolidator W) where
  -- No two facts with the same subject and predicate
  abbrev pub IsUnique : List (SemanticFactRow W) → Type 0
  IsUnique rows = (s p : String) → about c.embed c.ratio s p rows ≤ 1

  -- How a part of a pass ends that writes `n` facts.
  abbrev pub Wrote : ℕ → Outcome LlmError (List (SemanticFactRow W)) × Mind W → Type 0
  Wrote n (returned facts, s) = IsUnique s.facts.rows × (length facts ≡ n)
  Wrote n (raised e, s) = IsUnique s.facts.rows

  abbrev Keeps : {A : Type 0} → Mind W → Outcome LlmError A × Mind W → Type 0
  Keeps s z = z.1.facts ≡ s.facts

  or_fallback-Keeps :
      (episodes : List (EpisodeRow W)) (o : Option (ConsolidationSummary W)) (s : Mind W)
      → Keeps s (or_fallback c episodes o s)
  or_fallback-Keeps episodes none s = refl
  or_fallback-Keeps episodes (some summary) s = refl

  summarise_by-Keeps :
      (routed : Option Routed) (episodes : List (EpisodeRow W)) (s : Mind W)
      → Keeps s (summarise_by c routed episodes s)
  unfolding summarise_with_llm
  summarise_by-Keeps none episodes s = refl
  summarise_by-Keeps (some routed) episodes s = elim (Bool-cases (c.prompt == "")) [
    | inl e ↦ rw (Keeps, e) refl
    | inr e ↦
        rw (Keeps, e)
          (bind_lem (λ z. z.1.facts ≡ s.facts) (summarise_with_llm c routed episodes)
            (or_fallback c episodes) s (λ x r. refl)
            (λ o r. or_fallback-Keeps episodes o (summarise_with_llm c routed episodes s).1))
  ]

  written-Wrote :
      (now : ℕ) (episodes : List (EpisodeRow W)) (s : Mind W)
      → IsUnique s.facts.rows
      → Wrote 1 ((summarise c episodes >>= upserted c now episodes) s)
  unfolding summarise
  written-Wrote now episodes s h =
      at (summarise c episodes s) (summarise_by-Keeps c.router episodes s)
    where
      at :
          (z : Outcome LlmError (ConsolidationSummary W) × Mind W)
          → Keeps s z
          → Wrote 1 (((λ (_ : Mind W). z) >>= upserted c now episodes) s)
      at (raised e, t) k = rw k h
      at (returned summary, t) k =
          let kept : IsUnique t.facts.rows = rw k h in
          let after =
            upsert_fact-about c.embed c.ratio summary.subject summary.predicate summary.object
              summary.confidence (map id_of episodes) now t.facts kept in
          (
            after.0,
            length-select (is_fact c.embed c.ratio summary.subject summary.predicate)
                  (write_fact c now episodes summary t).facts.rows
                ∙ after.1,
          )

  joined-Wrote :
      (n : ℕ) (fact : List (SemanticFactRow W)) (m : Consolidating W (List (SemanticFactRow W)))
      (s : Mind W)
      → length fact ≡ 1
      → Wrote n (m s)
      → Wrote (suc n) ((m >>= λ facts. pure (fact ++ facts)) s)
  joined-Wrote n fact m s one h = at (m s) h
    where
      at :
          (z : Outcome LlmError (List (SemanticFactRow W)) × Mind W)
          → Wrote n z
          → Wrote (suc n) (((λ (_ : Mind W). z) >>= λ facts. pure (fact ++ facts)) s)
      at (raised e, t) k = k
      at (returned facts, t) k = (k.0, omega (arith, one, k.1, length-append fact facts))

  consolidate-Wrote :
      (now : ℕ) (clusters : List (List (EpisodeRow W))) (s : Mind W)
      → IsUnique s.facts.rows
      → Wrote (length clusters) (consolidate c now clusters s)
  unfolding consolidate
  consolidate-Wrote now [] s h = (h, refl)
  consolidate-Wrote now (episodes ∷ clusters) s h =
      at ((summarise c episodes >>= upserted c now episodes) s) (written-Wrote now episodes s h)
        (λ t k. consolidate-Wrote now clusters t k)
    where
      at :
          (z : Outcome LlmError (List (SemanticFactRow W)) × Mind W)
          → Wrote 1 z
          → ((t : Mind W)
              → IsUnique t.facts.rows
              → Wrote (length clusters) (consolidate c now clusters t))
          → Wrote (suc (length clusters)) (
              ((λ (_ : Mind W). z) >>= λ fact.
              (consolidate c now clusters >>= λ facts. pure (fact ++ facts)))
                s)
      at (raised e, t) k rest = k
      at (returned fact, t) k rest =
          joined-Wrote (length clusters) fact (consolidate c now clusters) t k.1 (rest t k.0)

  -- When no two facts have the same subject and predicate, a pass, whatever the model answers, keeps it
  -- so, also when it raises midway; when it returns, it returns one fact for each cluster.
  pub run-Wrote :
      (now : ℕ) (recent : List (EpisodeRow W)) (s : Mind W)
      → IsUnique s.facts.rows
      → Wrote
          (length (cluster_episodes c.sqrt c.of_nat c.threshold c.max_clusters recent))
          (run c now recent s)
  unfolding run
  run-Wrote now recent s h =
      consolidate-Wrote now (cluster_episodes c.sqrt c.of_nat c.threshold c.max_clusters recent) s h
