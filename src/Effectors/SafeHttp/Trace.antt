-- ===== src/Effectors/SafeHttp/Trace.antt =====
-- What the steps of a round add to the record of events.
use johnny.Prelude.{
  ◌≡◌, refl, ap, ◌∙◌, inl, inr, String, not, ◌&&◌, Option, none, some, List, ◌∷◌, ◌==◌, Bool-cases,
}
use johnny.Prelude.Exec.{Outcome, returned, raised, bind_lem, ◌>>=◌, pure, raise}
use johnny.Effectors.SafeHttp.{
  FetchError, Response, Event, closed, Network, SafeFetcher, Fetch, is_redirect, lifted, Round,
  redirected, finished, close, follow, read_response, read_capped, outcome_of, redirect_or_read,
  finally_close, handle,
}

lifted-events :
    {A : Type 0} (out : Outcome String A) (events : List Event) → (lifted out events).1 ≡ events
lifted-events (returned a) events = refl
lifted-events (raised e) events = refl

-- A step that adds no event, and then one that adds none, add none.
bind-events :
    {A B : Type 0} (m : Fetch A) (g : A → Fetch B) (events after : List Event)
    → (m events).1 ≡ after
    → ((a : A) → (g a after).1 ≡ after)
    → ((m >>= g) events).1 ≡ after
bind-events {A} {B} m g events after h k =
    bind_lem (λ (out : Outcome FetchError B × List Event). out.1 ≡ after) m g events (λ x e. h)
      (λ a e. rw h (k a))

module _ (net : Network) (fetcher : SafeFetcher) where
  follow-events :
      (current location : String) (events : List Event)
      → (follow net fetcher current location events).1 ≡ events
  unfolding follow
  follow-events current location events =
      let check = λ (next : String). lifted (net.urlsplit next) >>= λ _. pure (redirected next) in
      bind-events (lifted (net.urljoin current location)) check events events
        (lifted-events (net.urljoin current location) events)
        (λ next.
          bind-events (lifted (net.urlsplit next)) (λ _. pure (redirected next)) events events
            (lifted-events (net.urlsplit next) events) (λ _. refl))

  read-events :
      (response : Response) (events : List Event)
      → (read_response net fetcher response events).1 ≡ events
  unfolding read_response
  read-events response events =
      bind-events (lifted (read_capped net fetcher response.stream))
        (λ read. pure (finished (outcome_of net fetcher response read))) events events
        (lifted-events (read_capped net fetcher response.stream) events) (λ read. refl)

  redirect_or_read-events :
      (current : String) (response : Response) (location : Option String) (events : List Event)
      → (redirect_or_read net fetcher current response location events).1 ≡ events
  redirect_or_read-events current response none events = read-events response events
  redirect_or_read-events current response (some location) events =
      elim (Bool-cases (is_redirect response.status_code && not (location == ""))) [
        | inl e ↦ rw e (follow-events current location events)
        | inr e ↦ rw e (read-events response events)
      ]

  close-events : (events : List Event) → (close net fetcher events).1 ≡ closed ∷ events
  unfolding close
  close-events events = lifted-events (net.close (closed ∷ events)) (closed ∷ events)

  finally-events :
      (out : Outcome FetchError Round × List Event)
      → (finally_close net fetcher out).1 ≡ closed ∷ out.1
  finally-events (returned r, events) =
      bind-events (close net fetcher) (λ _. pure r) events (closed ∷ events) (close-events events)
        (λ _. refl)
  finally-events (raised x, events) =
      bind-events (close net fetcher) (λ _. raise x) events (closed ∷ events) (close-events events)
        (λ _. refl)

  -- A response is closed, whatever becomes of it, and nothing else happens outside.
  pub handle-events :
      (current : String) (response : Response) (events : List Event)
      → (handle net fetcher current response events).1 ≡ closed ∷ events
  unfolding handle
  handle-events current response events =
      let out = redirect_or_read net fetcher current response response.location events in
      finally-events out
      ∙ ap (λ es. closed ∷ es) (redirect_or_read-events current response response.location events)
