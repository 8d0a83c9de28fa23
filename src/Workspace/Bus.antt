-- ===== src/Workspace/Bus.antt =====
-- The event bus of brain/workspace.py, `Workspace`: broadcasts, subscriptions and the dispatch of events
-- to handlers. `redact` is `redact_payload` of foundation/redaction.py, `now` the clock, and the errors
-- are those of the database and of Redis. A handler answers by the state of the bus, which stands for
-- all that happened before.
pub mod Hops
pub mod Cascade
pub mod Isolated
use johnny.Prelude.{
  ℕ, suc, ◌+◌, String, Bool, true, false, Option, none, some, List, [], ◌∷◌, ◌++◌, Dict, lookup,
  insert, leb, if◌then◌else◌,
}
use johnny.Prelude.Exec.{Outcome, returned, raised, Exec, pure, raise, ◌>>=◌, ◌>>◌}
use johnny.Json.{Fields}
use johnny.Workspace.{WorkspaceEvent}

-- The rows of `workspace_event`, and what is published and not yet received.
pub record Bus : Type 0 where
  pub next_id : ℕ
  pub rows : List WorkspaceEvent
  pub published : List WorkspaceEvent

abbrev pub EventHandler : Type 0
EventHandler = Bus → WorkspaceEvent → Outcome String (List WorkspaceEvent)

abbrev pub Subscribers : Type 0
Subscribers = Dict (List EventHandler)

abbrev pub or_none : Option (List EventHandler) → List EventHandler
or_none none = []
or_none (some handlers) = handlers

unfoldable pub subscribe : String → EventHandler → Subscribers → Subscribers
subscribe event_type handler subscribers =
    insert event_type (or_none (lookup event_type subscribers) ++ handler ∷ []) subscribers

unfoldable pub handlers_for : String → Subscribers → List EventHandler
handlers_for event_type subscribers =
    or_none (lookup event_type subscribers) ++ or_none (lookup "*" subscribers)

pub record Outside : Type 0 where
  pub now : Bus → ℕ
  pub redact : Fields → Fields
  pub persist_error : Bus → WorkspaceEvent → Option String
  pub publish_error : Bus → WorkspaceEvent → Option String

abbrev pub Workspace : Type 0 → Type 0
Workspace = Exec Bus String

module _ (o : Outside) (max_hops : ℕ) where
  abbrev pub stamp : Bus → WorkspaceEvent → Option ℕ → WorkspaceEvent
  stamp bus event none = record event { ts = some (o.now bus) }
  stamp bus event (some t) = event

  abbrev pub persisted : WorkspaceEvent → Option String → Workspace WorkspaceEvent
  persisted event (some e) bus = (raised e, bus)
  persisted event none bus =
      let row = record event { id = some bus.next_id } in
      (returned row, record bus { next_id = suc bus.next_id; rows = bus.rows ++ row ∷ [] })

  abbrev pub published_or : WorkspaceEvent → Option String → Workspace WorkspaceEvent
  published_or event (some e) bus = (raised e, bus)
  published_or event none bus =
      (returned event, record bus { published = bus.published ++ event ∷ [] })

  unfoldable pub persist : WorkspaceEvent → Workspace WorkspaceEvent
  persist event bus = persisted event (o.persist_error bus event) bus

  unfoldable pub publish : WorkspaceEvent → Workspace WorkspaceEvent
  publish event bus = published_or event (o.publish_error bus event) bus

  unfoldable pub broadcast : WorkspaceEvent → Workspace WorkspaceEvent
  unfolding persist publish
  broadcast event bus =
      let stamped = stamp bus event event.ts in
      (persist (record stamped { payload = o.redact stamped.payload }) >>= publish) bus

  unfoldable pub broadcast_all : ℕ → List WorkspaceEvent → Workspace (Unit {0})
  unfolding broadcast
  broadcast_all hops [] = pure tt
  broadcast_all hops (out ∷ outs) =
      broadcast (record out { hops = hops }) >> broadcast_all hops outs

  -- What `dispatch` makes of the answer of one handler.
  unfoldable pub emit : WorkspaceEvent → Outcome String (List WorkspaceEvent) → Workspace (Unit {0})
  unfolding broadcast_all
  emit event (raised e) = pure tt
  emit event (returned outs) =
      if leb max_hops event.hops then pure tt else broadcast_all (event.hops + 1) outs

  unfoldable pub run_handlers : WorkspaceEvent → List EventHandler → Workspace (Unit {0})
  unfolding emit
  run_handlers event [] = pure tt
  run_handlers event (handler ∷ handlers) =
      λ bus. (emit event (handler bus event) >> run_handlers event handlers) bus

  unfoldable pub dispatch : Subscribers → WorkspaceEvent → Workspace (Unit {0})
  unfolding run_handlers handlers_for
  dispatch subscribers event = run_handlers event (handlers_for event.kind subscribers)

  -- The listener of `run`, over the events that are on the channel: an exception of a broadcast ends it.
  unfoldable pub listen : Subscribers → List WorkspaceEvent → Workspace (Unit {0})
  unfolding dispatch
  listen subscribers [] = pure tt
  listen subscribers (event ∷ events) = dispatch subscribers event >> listen subscribers events
