-- ===== src/Workspace/Bus/Isolated.antt =====
-- A handler that raises is as one that is not there.
use johnny.Prelude.{ℕ, ◌≡◌, refl, String, List, [], ◌∷◌, ◌++◌}
use johnny.Prelude.Exec.{raised, ◌>>◌}
use johnny.Workspace.{WorkspaceEvent}
use johnny.Workspace.Bus.{Bus, EventHandler, Outside, emit, run_handlers}

abbrev pub Broken : EventHandler → WorkspaceEvent → Type 0
Broken handler event = (bus : Bus) → (e : String) × (handler bus event ≡ raised e)

module _ (o : Outside) (max_hops : ℕ) (event : WorkspaceEvent) where
  skipped :
      (handler : EventHandler) (handlers : List EventHandler) (bus : Bus)
      → Broken handler event
      → run_handlers o max_hops event (handler ∷ handlers) bus
        ≡ run_handlers o max_hops event handlers bus
  unfolding run_handlers emit
  skipped handler handlers bus broken = rw (broken bus).1 refl

  -- A handler that raises on an event, whatever was done before, changes nothing of what the handlers
  -- before it and after it do with the event.
  pub run_handlers-Broken :
      (before : List EventHandler) (handler : EventHandler) (rest : List EventHandler) (bus : Bus)
      → Broken handler event
      → run_handlers o max_hops event (before ++ handler ∷ rest) bus
        ≡ run_handlers o max_hops event (before ++ rest) bus
  unfolding run_handlers
  run_handlers-Broken [] handler rest bus broken = skipped handler rest bus broken
  run_handlers-Broken (first ∷ before) handler rest bus broken = λ i.
      (emit o max_hops event (first bus event)
          >> (λ b. run_handlers-Broken before handler rest b broken i))
        bus
