-- ===== src/Sensorium/Fifo.antt =====
-- Inputs are perceived in the order in which they arrived, each once, in bounded batches.
use johnny.Prelude.{
  take-drop, length-take, length-drop, ◌-◌, ◌≤◌, ◌≡◌, ap, sym, ◌∙◌, List, [], ◌∷◌, ◌++◌, length,
  take, drop,
}
use johnny.Sensorium.{RawInput, InputQueue, push, drain, depth, max_drain_per_tick}
use mathlib.Core.List.{append-nil, append_assoc}

-- What happens to the queue: an interface pushes an input, or a tick drains a batch.
pub data QueueMove : Type 0 where
  pushed : RawInput → QueueMove
  drained : QueueMove

-- The batches that the ticks take, and the queue that is left.
unfoldable pub serve : List QueueMove → InputQueue → List RawInput × InputQueue
unfolding push drain
serve [] queue = ([], queue)
serve (pushed i ∷ moves) queue = serve moves (push i.raw i.source i.modality queue)
serve (drained ∷ moves) queue =
    let (batch, left) = drain max_drain_per_tick queue in
    let (seen, rest) = serve moves left in (batch ++ seen, rest)

unfoldable pub arrivals : List QueueMove → List RawInput
arrivals [] = []
arrivals (pushed i ∷ moves) = i ∷ arrivals moves
arrivals (drained ∷ moves) = arrivals moves

-- Over any sequence of pushes and drains, what the ticks took followed by what still waits is what
-- waited at first followed by what arrived: no input is lost, repeated or reordered.
pub serve-append :
    (moves : List QueueMove) (queue : InputQueue)
    → (serve moves queue).0 ++ (serve moves queue).1 ≡ queue ++ arrivals moves
unfolding serve arrivals push drain
serve-append [] queue = sym (append-nil queue)
serve-append (pushed i ∷ moves) queue =
    serve-append moves (queue ++ i ∷ []) ∙ append_assoc queue (i ∷ []) (arrivals moves)
serve-append (drained ∷ moves) queue =
    append_assoc (take 16 queue) (serve moves (drop 16 queue)).0 (serve moves (drop 16 queue)).1
    ∙ ap (λ is. take 16 queue ++ is) (serve-append moves (drop 16 queue))
    ∙ sym (append_assoc (take 16 queue) (drop 16 queue) (arrivals moves))
    ∙ ap (λ is. is ++ arrivals moves) (take-drop 16 queue)

-- A batch has at most 16 inputs and leaves those above 16 waiting.
drain-depth :
    (queue : InputQueue)
    → (length (drain max_drain_per_tick queue).0 ≤ 16)
      × (depth (drain max_drain_per_tick queue).1 ≡ depth queue - 16)
unfolding drain depth
drain-depth queue = (length-take 16 queue, length-drop 16 queue)
