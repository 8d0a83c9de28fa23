-- ===== src/Workspace/Tests.antt =====
-- The bus with a handler that answers each event with two more, and one that raises.
use johnny.Prelude.{◌≡◌, none, [], ◌∷◌}
use johnny.Prelude.Exec.{returned, raised}
use johnny.Json.{end}
use johnny.Workspace.{WorkspaceEvent, new_event}
use johnny.Workspace.Bus.{Bus, EventHandler, Subscribers, Outside}
use johnny.Workspace.Bus.Cascade.{generations, generations-nil}

abbrev reliable : Outside
reliable = record {
  now = λ bus. 5;
  redact = λ payload. payload;
  persist_error = λ bus event. none;
  publish_error = λ bus event. none;
}

abbrev an_event : WorkspaceEvent
an_event = new_event "cycle" "cycle.tick" end

abbrev echoing : EventHandler
echoing bus event = returned (event ∷ event ∷ [])

abbrev failing : EventHandler
failing bus event = raised "no"

abbrev everyone : Subscribers
everyone = ("*", echoing ∷ failing ∷ []) ∷ []

abbrev a_bus : Bus
a_bus = record { next_id = 1; rows = []; published = an_event ∷ [] }

generations-nil_example : (generations reliable 2 everyone 3 a_bus).published ≡ []
generations-nil_example = generations-nil reliable 2 everyone a_bus
