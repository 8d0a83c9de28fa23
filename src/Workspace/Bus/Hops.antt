-- ===== src/Workspace/Bus/Hops.antt =====
-- How many hops the events have that a dispatch publishes.
use johnny.Prelude.{
  ℕ, suc, ◌+◌, ◌<◌, Option, none, some, String, List, [], ◌∷◌, ◌++◌, All, All-append, leb,
  Bool-cases, inl, inr, arith,
}
use johnny.Prelude.Exec.{Outcome, returned, raised, ◌>>=◌, bind_lem}
use johnny.Workspace.{WorkspaceEvent}
use johnny.Workspace.Bus.{
  Bus, EventHandler, Subscribers, Outside, Workspace, persist, persisted, publish, published_or,
  stamp, broadcast, broadcast_all, emit, run_handlers, dispatch, handlers_for, listen,
}

module _ (o : Outside) (max_hops : ℕ) where
  -- All that is published satisfies `P`, if it did before.
  abbrev pub Keeps : {A : Type 0} → (WorkspaceEvent → Type 0) → Workspace A → Type 0
  Keeps P m = (bus : Bus) → All P bus.published → All P (m bus).1.published

  bind-Keeps :
      {A B : Type 0} (P : WorkspaceEvent → Type 0) (m : Workspace A) (g : A → Workspace B)
      → Keeps P m
      → ((a : A) → Keeps P (g a))
      → Keeps P (m >>= g)
  bind-Keeps P m g hm hg bus h =
      bind_lem (λ (out : Outcome String _ × Bus). All P out.1.published) m g bus (λ x e. hm bus h)
        (λ a e. hg a (m bus).1 (hm bus h))

  module _ (Q : ℕ → Type 0) where
    abbrev pub OfHops : WorkspaceEvent → Type 0
    OfHops event = Q event.hops

    publish-Keeps :
        (event : WorkspaceEvent) → Q event.hops → Keeps OfHops (publish o max_hops event)
    unfolding publish
    publish-Keeps event q bus h = at (o.publish_error bus event)
      where
        at : (e : Option String) → All OfHops (published_or o max_hops event e bus).1.published
        at (some e) = h
        at none = All-append OfHops bus.published (event ∷ []) h (q, tt)

    broadcast-Keeps :
        (event : WorkspaceEvent) → Q event.hops → Keeps OfHops (broadcast o max_hops event)
    unfolding broadcast persist
    broadcast-Keeps event q bus h = by_time event.ts
      where
        stored :
            (event : WorkspaceEvent)
            → Q event.hops
            → (e : Option String)
            → All OfHops ((persisted o max_hops event e >>= publish o max_hops) bus).1.published
        stored event q (some e) = h
        stored event q none =
            publish-Keeps (record event { id = some bus.next_id }) q
              (record bus {
                next_id = suc bus.next_id;
                rows = bus.rows ++ record event { id = some bus.next_id } ∷ [];
              })
              h

        by_time :
            (ts : Option ℕ)
            → All OfHops
                ((persist o max_hops (record (stamp o max_hops bus event ts) {
                  payload = o.redact (stamp o max_hops bus event ts).payload;
                })
                    >>= publish o max_hops)
                  bus).1.published
        by_time none =
            let e = record event { ts = some (o.now bus); payload = o.redact event.payload } in
            stored e q (o.persist_error bus e)
        by_time (some t) =
            let e = record event { payload = o.redact event.payload } in
            stored e q (o.persist_error bus e)

    broadcast_all-Keeps :
        (hops : ℕ) (outs : List WorkspaceEvent)
        → Q hops
        → Keeps OfHops (broadcast_all o max_hops hops outs)
    unfolding broadcast_all
    broadcast_all-Keeps hops [] q bus h = h
    broadcast_all-Keeps hops (out ∷ outs) q bus h =
        bind-Keeps OfHops (broadcast o max_hops (record out { hops = hops }))
          (λ _. broadcast_all o max_hops hops outs) (broadcast-Keeps (record out { hops = hops }) q)
          (λ _. broadcast_all-Keeps hops outs q) bus h

    -- What a dispatched event brings about has one hop more than the event.
    emit-Keeps :
        (event : WorkspaceEvent) (answer : Outcome String (List WorkspaceEvent))
        → (event.hops < max_hops → Q (event.hops + 1))
        → Keeps OfHops (emit o max_hops event answer)
    unfolding emit
    emit-Keeps event (raised e) q bus h = h
    emit-Keeps event (returned outs) q bus h = elim (Bool-cases (leb max_hops event.hops)) [
      | inl e ↦ rw e h
      | inr e ↦ rw e (broadcast_all-Keeps (event.hops + 1) outs (q (ground (arith, e))) bus h)
    ]

    run_handlers-Keeps :
        (event : WorkspaceEvent) (handlers : List EventHandler)
        → (event.hops < max_hops → Q (event.hops + 1))
        → Keeps OfHops (run_handlers o max_hops event handlers)
    unfolding run_handlers
    run_handlers-Keeps event [] q bus h = h
    run_handlers-Keeps event (handler ∷ handlers) q bus h =
        bind-Keeps OfHops (emit o max_hops event (handler bus event))
          (λ _. run_handlers o max_hops event handlers) (emit-Keeps event (handler bus event) q)
          (λ _. run_handlers-Keeps event handlers q) bus h

    pub listen-Keeps :
        (subscribers : Subscribers) (events : List WorkspaceEvent)
        → All (λ event. event.hops < max_hops → Q (event.hops + 1)) events
        → Keeps OfHops (listen o max_hops subscribers events)
    unfolding listen dispatch
    listen-Keeps subscribers [] q bus h = h
    listen-Keeps subscribers (event ∷ events) q bus h =
        bind-Keeps OfHops (dispatch o max_hops subscribers event)
          (λ _. listen o max_hops subscribers events)
          (run_handlers-Keeps event (handlers_for event.kind subscribers) q.0)
          (λ _. listen-Keeps subscribers events q.1) bus h
