-- ===== src/Cycle/Keeps.antt =====
-- Stages that keep a relation between the scene before and the scene after, however they end.
use johnny.Prelude.{String, Option, none, some}
use johnny.Prelude.Exec.{Outcome, returned, raised, bind_lem, ◌>>=◌}
use johnny.Cycle.Scene.{
  Scene, Stage, Collaborators, call, stage, caught, failed, emit, for_stage, broadcast,
}

module _ {W : Type 0} (R : Scene W → Scene W → Type 0) where
  abbrev pub Keeps : {A : Type 0} → Stage W A → Type 0
  Keeps m = (s : Scene W) → R s (m s).1

  module _ (trans : (s t u : Scene W) → R s t → R t u → R s u) where
    pub bind-Keeps :
        {A B : Type 0} (m : Stage W A) (g : A → Stage W B)
        → Keeps m
        → ((a : A) → Keeps (g a))
        → Keeps (m >>= g)
    bind-Keeps m g hm hg s =
        bind_lem (λ out. R s out.1) m g s (λ x e. hm s)
          (λ a e. trans s (m s).1 (g a (m s).1).1 (hm s) (hg a (m s).1))

    -- `Fails` is what the note of an error keeps.
    pub stage-Keeps :
        (name : String) (m : Stage W (Unit {0}))
        → ((error : String) (s : Scene W) → R s (failed name error s))
        → Keeps m
        → (s : Scene W) → R s (stage name m s)
    unfolding stage
    stage-Keeps name m hf hm s = note (m s) (hm s)
      where
        note :
            (out : Outcome String (Unit {0}) × Scene W) → R s out.1 → R s (caught (failed name) out)
        note (returned _, t) h = h
        note (raised e, t) h = trans s t (failed name e t) h (hf e t)

    pub emit-Keeps :
        (c : Collaborators W) (sender kind : String) (owner : Option String)
        → ((name error : String) (s : Scene W) → R s (failed name error s))
        → Keeps (call (broadcast sender kind) c.broadcast)
        → ((s : Scene W) → R s s)
        → Keeps (emit c sender kind owner)
    unfolding emit
    emit-Keeps c sender kind owner hf hc hr s =
        note (call (broadcast sender kind) c.broadcast s) (hc s)
      where
        noted :
            (owner : Option String) (e : String) (t : Scene W) → R s t → R s (for_stage owner e t)
        noted none e t h = h
        noted (some name) e t h = trans s t (failed name e t) h (hf name e t)

        note :
            (out : Outcome String (Unit {0}) × Scene W)
            → R s out.1
            → R s (caught (for_stage owner) out)
        note (returned _, t) h = h
        note (raised e, t) h = noted owner e t h
