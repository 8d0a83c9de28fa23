-- ===== src/Workspace/Bus/Cascade.antt =====
-- An event cannot keep the bus busy for ever: what it brings about dies out with the hops.
use johnny.Prelude.{ℕ, zero, suc, ◌+◌, ◌≤◌, ◌<◌, ◌≡◌, refl, List, [], ◌∷◌, All, arith}
use johnny.Workspace.{WorkspaceEvent}
use johnny.Workspace.Bus.{Bus, Subscribers, Outside, listen}
use johnny.Workspace.Bus.Hops.{listen-Keeps}

module _ (o : Outside) (max_hops : ℕ) where
  -- The events on the channel are received one after another, and what they bring about is the next
  -- generation.
  unfoldable pub generation : Subscribers → Bus → Bus
  unfolding listen
  generation subscribers bus =
      (listen o max_hops subscribers bus.published (record bus { published = [] })).1

  unfoldable pub generations : Subscribers → ℕ → Bus → Bus
  unfolding generation
  generations subscribers zero bus = bus
  generations subscribers (suc n) bus = generations subscribers n (generation subscribers bus)

  abbrev Between : ℕ → WorkspaceEvent → Type 0
  Between n event = (n ≤ event.hops) × (event.hops ≤ max_hops)

  next_hops :
      (n : ℕ) (events : List WorkspaceEvent)
      → All (λ event. n ≤ event.hops) events
      → All
          (λ event. event.hops < max_hops → (n + 1 ≤ event.hops + 1) × (event.hops + 1 ≤ max_hops))
          events
  next_hops n [] h = tt
  next_hops n (event ∷ events) h =
      (λ less. (omega (arith, h.0), omega (arith, less)), next_hops n events h.1)

  generation-Between :
      (subscribers : Subscribers) (n : ℕ) (bus : Bus)
      → All (λ event. n ≤ event.hops) bus.published
      → All (Between (n + 1)) (generation subscribers bus).published
  unfolding generation
  generation-Between subscribers n bus h =
      listen-Keeps o max_hops (λ hops. (n + 1 ≤ hops) × (hops ≤ max_hops)) subscribers bus.published
        (next_hops n bus.published h) (record bus { published = [] }) tt

  any_hops : (events : List WorkspaceEvent) → All (λ event. 0 ≤ event.hops) events
  any_hops [] = tt
  any_hops (event ∷ events) = (omega arith, any_hops events)

  capped :
      (events : List WorkspaceEvent)
      → All (Between (0 + 1)) events
      → All (λ event. event.hops ≤ max_hops) events
  capped [] h = tt
  capped (event ∷ events) h = (h.0.1, capped events h.1)

  generations-lower :
      (subscribers : Subscribers) (n k : ℕ) (bus : Bus)
      → All (λ event. k ≤ event.hops) bus.published
      → All (λ event. k + n ≤ event.hops) (generations subscribers n bus).published
  unfolding generations
  generations-lower subscribers zero k bus h = weaker bus.published h
    where
      weaker :
          (events : List WorkspaceEvent)
          → All (λ event. k ≤ event.hops) events
          → All (λ event. k + 0 ≤ event.hops) events
      weaker [] h = tt
      weaker (event ∷ events) h = (omega (arith, h.0), weaker events h.1)
  generations-lower subscribers (suc n) k bus h = shifted _ (
      generations-lower subscribers n (k + 1) (generation subscribers bus)
        (lower _ (generation-Between subscribers k bus h)))
    where
      lower :
          (events : List WorkspaceEvent)
          → All (Between (k + 1)) events
          → All (λ event. k + 1 ≤ event.hops) events
      lower [] h = tt
      lower (event ∷ events) h = (h.0.0, lower events h.1)

      shifted :
          (events : List WorkspaceEvent)
          → All (λ event. k + 1 + n ≤ event.hops) events
          → All (λ event. k + suc n ≤ event.hops) events
      shifted [] h = tt
      shifted (event ∷ events) h = (omega (arith, h.0), shifted events h.1)

  generations-upper :
      (subscribers : Subscribers) (n : ℕ) (bus : Bus)
      → All (λ event. event.hops ≤ max_hops) bus.published
      → All (λ event. event.hops ≤ max_hops) (generations subscribers n bus).published
  unfolding generations
  generations-upper subscribers zero bus h = h
  generations-upper subscribers (suc n) bus h =
      generations-upper subscribers n (generation subscribers bus)
        (capped _ (generation-Between subscribers 0 bus (any_hops bus.published)))

  no_hops :
      (events : List WorkspaceEvent)
      → All (λ event. 0 + suc max_hops ≤ event.hops) events
      → All (λ event. event.hops ≤ max_hops) events
      → events ≡ []
  no_hops [] h k = refl
  no_hops (event ∷ events) h k = absurd (omega (arith, h.0, k.0))

  -- Whatever the handlers answer to events, and whichever broadcasts fail, while nothing else is
  -- published, no event is left on the channel after one generation more than the limit of hops.
  pub generations-nil :
      (subscribers : Subscribers) (bus : Bus)
      → (generations subscribers (suc max_hops) bus).published ≡ []
  unfolding generations
  generations-nil subscribers bus =
      no_hops (generations subscribers (suc max_hops) bus).published
        (generations-lower subscribers (suc max_hops) 0 bus (any_hops bus.published))
        (generations-upper subscribers max_hops (generation subscribers bus)
          (capped _ (generation-Between subscribers 0 bus (any_hops bus.published))))
