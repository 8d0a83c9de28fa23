-- ===== src/Attention.antt =====
-- brain/agents/attention.py: the bounded selection of what enters the workspace.
pub mod Selected
mod Tests
use johnny.Prelude.{
  ℕ, zero, suc, String, Bool, true, false, Option, none, some, List, [], ◌∷◌, ◌++◌, ◌-◌, ◌==◌, Dict,
  lookup, insert, map, length, take, drop, count, if◌then◌else◌,
}
use johnny.Prelude.Sort.{sort_desc}
use johnny.Workspace.{WorkspaceItem}
use johnny.Float.{Float, clamp01}

pub record AttentionBias (W : Type 0) : Type 0 where
  pub arousal : W
  pub kind_boosts : Dict W

-- The settings of `Attention`, with the literals 0.3 and 0.5 of its score and Python's `**`.
pub record Attention (W : Type 0) : Type 0 where
  pub capacity : ℕ
  pub weight_salience : W
  pub weight_novelty : W
  pub repeat_penalty : W
  pub weight_arousal : W
  pub novelty_horizon : ℕ
  pub arousal_neutral : W
  pub half : W
  pub power : W → ℕ → W

-- `_recent`, the oldest first, and `_bias`
pub record AttentionState (W : Type 0) : Type 0 where
  pub recent : List String
  pub bias : AttentionBias W

-- `deque(maxlen=n)`: a full deque drops its first entry.
abbrev pub bounded : ℕ → List String → List String
bounded n xs = drop (length xs - n) xs

module _ {W : Type 0} ⦃f : Float W⦄ (a : Attention W) where
  abbrev pub novelty_of : ℕ → W
  novelty_of zero = f.one
  novelty_of (suc n) = a.power a.repeat_penalty (suc n)

  -- `_novelty`
  abbrev pub novelty : AttentionState W → String → W
  novelty s content = novelty_of (count (λ c. c == content) s.recent)

  abbrev pub or_zero : Option W → W
  or_zero none = f.zero
  or_zero (some boost) = boost

  -- `_score`
  unfoldable pub score : AttentionState W → WorkspaceItem W → W
  score s item =
      let blend =
        f.add (f.mul a.weight_salience item.salience)
          (f.mul a.weight_novelty (novelty s item.content)) in
      let base = f.add blend (or_zero (lookup item.kind s.bias.kind_boosts)) in
      let sharpen = f.add f.one (
        f.mul (f.mul a.weight_arousal (f.sub s.bias.arousal a.arousal_neutral))
          (f.sub item.salience a.half)) in
      if f.lt f.zero (f.mul base sharpen) then f.mul base sharpen else f.zero

  -- `_remember`
  unfoldable pub remember : List String → List String → List String
  remember [] recent = recent
  remember (content ∷ contents) recent =
      remember contents (bounded a.novelty_horizon (recent ++ content ∷ []))

  abbrev pub beats : WorkspaceItem W → Option (WorkspaceItem W) → Bool
  beats item none = true
  beats item (some existing) = f.lt existing.salience item.salience

  -- The loop of `_dedupe`
  unfoldable pub best_by_content :
      List (WorkspaceItem W) → Dict (WorkspaceItem W) → Dict (WorkspaceItem W)
  best_by_content [] best = best
  best_by_content (item ∷ items) best =
      best_by_content items
        (if beats item (lookup item.content best) then insert item.content item best else best)

  abbrev pub item_of : String × WorkspaceItem W → WorkspaceItem W
  item_of (content, item) = item

  -- `_dedupe`
  unfoldable pub dedupe : List (WorkspaceItem W) → List (WorkspaceItem W)
  unfolding best_by_content
  dedupe items = map item_of (best_by_content items [])

  -- An item beside its score, and with its score as its salience
  abbrev pub scored : AttentionState W → WorkspaceItem W → W × WorkspaceItem W
  scored s item = (score s item, item)

  abbrev pub score_of : W × WorkspaceItem W → W
  score_of (n, item) = n

  unfoldable pub admitted : W × WorkspaceItem W → WorkspaceItem W
  unfolding clamp01
  admitted (n, item) = record item { salience = clamp01 n }

  unfoldable pub select_items :
      List (WorkspaceItem W)
      → List (WorkspaceItem W)
      → AttentionState W
      → List (WorkspaceItem W) × AttentionState W
  unfolding score dedupe admitted remember
  select_items working_memory percepts s =
      let candidates = dedupe (percepts ++ working_memory) in
      let ranked = sort_desc f.lt score_of (map (scored s) candidates) in
      let selected = map admitted (take a.capacity ranked) in
      (selected, record s { recent = remember (map (λ item. item.content) selected) s.recent })

  abbrev pub set_bias : AttentionBias W → AttentionState W → AttentionState W
  set_bias bias s = record s { bias = bias }
