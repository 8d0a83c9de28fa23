-- ===== src/Effectors/SafeHttp/Hops.antt =====
-- How often a fetch connects, and how much it returns.
use johnny.Prelude.{
  arith, ℕ, suc, zero, ◌+◌, ◌≡◌, refl, ◌≤◌, String, Bool, true, false, not, ◌&&◌, ◌||◌, Option,
  none, some, List, [], ◌∷◌, count, length, ◌==◌, Bool-cases, inl, inr,
}
use johnny.Prelude.Exec.{Outcome, returned, raised, bind_lem, ◌>>=◌, pure, raise}
use johnny.Effectors.SafeHttp.{
  ParsedIp, SplitUrl, FetchError, ValidatedTarget, Response, FetchOutcome, Event, sent, Network,
  SafeFetcher, Fetch, lifted, candidates, candidates_by, after_resolve, clear_target, choose_target,
  validate_port, validate_host, validate_split, validate_target, is_allowed_scheme, is_given,
  port_or_default, Round, redirected, finished, request_for, built, build_request, send, handle,
  round, walk, fetch, first_blocked, read_response, read_capped, outcome_of, redirect_or_read,
  finally_close, follow, is_redirect, close,
}
use johnny.Effectors.SafeHttp.Trace.{handle-events}
use johnny.Effectors.SafeHttp.Capped.{read_from-bounded}

abbrev pub is_sent : Event → Bool
is_sent (sent r) = true
is_sent _ = false

abbrev sends : List Event → ℕ
sends events = count is_sent events

-- A computation that sends nothing.
abbrev Still : {A : Type 0} → Fetch A → Type 0
Still m = (events : List Event) → sends (m events).1 ≡ sends events

bind-Still :
    {A B : Type 0} (m : Fetch A) (g : A → Fetch B)
    → Still m
    → ((a : A) → Still (g a))
    → Still (m >>= g)
bind-Still {A} {B} m g h k events =
    bind_lem (λ (out : Outcome FetchError B × List Event). sends out.1 ≡ sends events) m g events
      (λ x e. h events) (λ a e. omega (arith, h events, k a (m events).1))

lifted-Still : {A : Type 0} (out : Outcome String A) → Still (lifted out)
lifted-Still (returned a) events = refl
lifted-Still (raised e) events = refl

module _ (net : Network) where
  resolve-Still :
      (host : String) (answer : Outcome String (List String))
      → Still (after_resolve net host answer)
  resolve-Still host (returned ips) events = omega arith
  resolve-Still host (raised e) events = omega arith

  candidates-Still : (host : String) → Still (candidates net host)
  unfolding candidates
  candidates-Still host events = at (net.ip_address host)
    where
      at : (p : Option ParsedIp) → sends (candidates_by net p host events).1 ≡ sends events
      at (some p) = refl
      at none = resolve-Still host (net.resolve events host) events

  choose-Still :
      (url scheme host : String) (port : ℕ) (ips : List String)
      → Still (choose_target net url scheme host port ips)
  choose-Still url scheme host port [] events = refl
  choose-Still url scheme host port (ip ∷ ips) events = at (first_blocked net (ip ∷ ips))
    where
      at :
          (b : Option String)
          → sends (clear_target net url scheme host port ip b events).1 ≡ sends events
      at none = refl
      at (some b) = refl

  port-Still :
      (url scheme host : String) (port : Outcome String (Option ℕ))
      → Still (validate_port net url scheme host port)
  port-Still url scheme host (raised e) events = refl
  port-Still url scheme host (returned port) events =
      let p = port_or_default net port scheme in
      bind-Still (candidates net host) (choose_target net url scheme host p) (candidates-Still host)
        (choose-Still url scheme host p) events

  host-Still :
      (url scheme : String) (p : SplitUrl) (host : Option String)
      → Still (validate_host net url scheme p host)
  host-Still url scheme p none events = refl
  host-Still url scheme p (some host) events = elim (Bool-cases (host == "")) [
    | inl e ↦ rw e refl
    | inr e ↦ rw e (port-Still url scheme host p.port events)
  ]

  split-Still : (url : String) (p : SplitUrl) → Still (validate_split net url p)
  split-Still url p events = elim (Bool-cases (is_allowed_scheme (net.lower p.scheme))) [
    | inr e ↦ rw e refl
    | inl e ↦ rw e (elim (Bool-cases (is_given p.username || is_given p.password)) [
      | inl g ↦ rw g refl
      | inr g ↦ rw g (host-Still url (net.lower p.scheme) p p.hostname events)
    ])
  ]

  validate-Still : (url : String) → Still (validate_target net url)
  unfolding validate_target
  validate-Still url =
      bind-Still (lifted (net.urlsplit url)) (validate_split net url)
        (lifted-Still (net.urlsplit url)) (split-Still url)

  module _ (fetcher : SafeFetcher) where
    -- At most one more request.
    abbrev Once : {A : Type 0} → Fetch A → Type 0
    Once m = (events : List Event) → sends (m events).1 ≤ suc (sends events)

    connect-Once :
        (current : String) (t : ValidatedTarget)
        → Once (build_request net fetcher t >>= send net fetcher >>= handle net fetcher current)
    unfolding build_request send
    connect-Once current t events = at (net.url_error t.url)
      where
        answered :
            (out : Outcome String Response)
            → sends
                ((lifted out >>= handle net fetcher current)
                  (sent (request_for net fetcher t) ∷ events)).1
              ≤ suc (sends events)
        answered (returned response) =
            rw
              (handle-events net fetcher current response
                (sent (request_for net fetcher t) ∷ events))
              (omega arith)
        answered (raised e) = omega arith

        at :
            (refusal : Option String)
            → sends
                ((built net fetcher (request_for net fetcher t) refusal
                    >>= send net fetcher
                    >>= handle net fetcher current)
                  events).1
              ≤ suc (sends events)
        at none =
            answered
              (net.send (sent (request_for net fetcher t) ∷ events) (request_for net fetcher t))
        at (some e) = omega arith

    round-Once : (current : String) → Once (round net fetcher current)
    unfolding round
    round-Once current events =
        at (validate_target net current events) (validate-Still current events)
      where
        at :
            (out : Outcome FetchError ValidatedTarget × List Event)
            → sends out.1 ≡ sends events
            → sends
                (((λ (_ : List Event). out)
                    >>= build_request net fetcher
                    >>= send net fetcher
                    >>= handle net fetcher current)
                  events).1
              ≤ suc (sends events)
        at (raised e, after) h = omega (arith, h)
        at (returned t, after) h = omega (arith, h, connect-Once current t after)

    -- What a round finishes with is no larger than the cap.
    abbrev Small : Outcome FetchError Round → Type 0
    Small (returned (finished outcome)) = length outcome.body ≤ fetcher.max_bytes
    Small (returned (redirected url)) = Unit
    Small (raised e) = Unit

    read-Small :
        (response : Response) (events : List Event)
        → Small (read_response net fetcher response events).0
    unfolding read_response read_capped
    read-Small response events =
        at (read_capped net fetcher response.stream)
          (read_from-bounded net fetcher [] response.stream)
      where
        at :
            (out : Outcome String (List ℕ × Bool))
            → ((read : List ℕ × Bool) → out ≡ returned read → length read.0 ≤ fetcher.max_bytes)
            → Small
                ((lifted out >>= λ read. pure (finished (outcome_of net fetcher response read)))
                  events).0
        at (raised e) h = tt
        at (returned read) h = h read refl

    follow-Small :
        (current location : String) (events : List Event)
        → Small (follow net fetcher current location events).0
    unfolding follow
    follow-Small current location events =
        bind_lem (λ (out : Outcome FetchError Round × List Event). Small out.0)
          (lifted (net.urljoin current location))
          (λ next. lifted (net.urlsplit next) >>= λ _. pure (redirected next)) events (λ x e. tt)
          (λ next e.
            split next (net.urlsplit next) (lifted (net.urljoin current location) events).1)
      where
        split :
            (next : String) (out : Outcome String SplitUrl) (after : List Event)
            → Small ((lifted out >>= λ _. pure (redirected next)) after).0
        split next (returned p) after = tt
        split next (raised e) after = tt

    redirect_or_read-Small :
        (current : String) (response : Response) (location : Option String) (events : List Event)
        → Small (redirect_or_read net fetcher current response location events).0
    redirect_or_read-Small current response none events = read-Small response events
    redirect_or_read-Small current response (some location) events =
        elim (Bool-cases (is_redirect response.status_code && not (location == ""))) [
          | inl e ↦ rw e (follow-Small current location events)
          | inr e ↦ rw e (read-Small response events)
        ]

    finally-Small :
        (out : Outcome FetchError Round × List Event)
        → Small out.0
        → Small (finally_close net fetcher out).0
    finally-Small (returned r, events) h =
        bind_lem (λ (o : Outcome FetchError Round × List Event). Small o.0) (close net fetcher)
          (λ _. pure r) events (λ x e. tt) (λ _ e. h)
    finally-Small (raised x, events) h =
        bind_lem (λ (o : Outcome FetchError Round × List Event). Small o.0) (close net fetcher)
          (λ _. raise x) events (λ y e. tt) (λ _ e. tt)

    round-Small :
        (current : String) (events : List Event) → Small (round net fetcher current events).0
    unfolding round handle
    round-Small current events =
        bind_lem (λ (o : Outcome FetchError Round × List Event). Small o.0)
          (validate_target net current >>= build_request net fetcher >>= send net fetcher)
          (handle net fetcher current) events (λ x e. tt)
          (λ response e.
            let now =
              ((validate_target net current >>= build_request net fetcher >>= send net fetcher)
                events).1 in
            finally-Small (redirect_or_read net fetcher current response response.location now)
              (redirect_or_read-Small current response response.location now))

    abbrev pub Bounded : ℕ → Outcome FetchError FetchOutcome × List Event → Type 0
    Bounded n (returned outcome, after) =
        (length outcome.body ≤ fetcher.max_bytes) × (sends after ≤ n)
    Bounded n (raised e, after) = sends after ≤ n

    walk-Bounded :
        (hops : ℕ) (current : String) (events : List Event)
        → Bounded (hops + sends events) (walk net fetcher hops current events)
    unfolding walk
    walk-Bounded zero current events = omega arith
    walk-Bounded (suc hops) current events =
        next (round net fetcher current events) (round-Once current events)
          (round-Small current events)
          (λ url. walk-Bounded hops url (round net fetcher current events).1)
      where
        more :
            (n k : ℕ) (out : Outcome FetchError FetchOutcome × List Event)
            → n ≤ k
            → Bounded n out
            → Bounded k out
        more n k (returned outcome, after) h b = (b.0, omega (arith, h, b.1))
        more n k (raised e, after) h b = omega (arith, h, b)

        next :
            (out : Outcome FetchError Round × List Event)
            → sends out.1 ≤ suc (sends events)
            → Small out.0
            → ((url : String) → Bounded (hops + sends out.1) (walk net fetcher hops url out.1))
            → Bounded (suc hops + sends events) (
                ((λ (_ : List Event). out) >>= λ r. elim r [
                  | redirected url ↦ walk net fetcher hops url
                  | finished outcome ↦ pure outcome
                ])
                  events)
        next (raised e, after) h small more_hops = omega (arith, h)
        next (returned (finished outcome), after) h small more_hops = (small, omega (arith, h))
        next (returned (redirected url), after) h small more_hops =
            more (hops + sends after) (suc hops + sends events) (walk net fetcher hops url after)
              (omega (arith, h)) (more_hops url)

    zero_plus : suc fetcher.max_redirects + sends [] ≡ suc fetcher.max_redirects
    zero_plus = omega arith

    -- A fetch makes at most one request more than the limit of redirects, however the servers
    -- redirect, and a body that it returns is no longer than the cap.
    pub fetch-Bounded :
        (url : String) → Bounded (suc fetcher.max_redirects) (fetch net fetcher url [])
    unfolding fetch
    fetch-Bounded url = rw zero_plus at (walk-Bounded (suc fetcher.max_redirects) url [])
