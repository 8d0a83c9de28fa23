-- ===== src/Effectors/SafeHttp/Pinned.antt =====
-- Every request of a fetch goes to an address that passed the gate.
use mathlib.Core.Path.{subst}
use johnny.Prelude.{
  sym, ℕ, suc, zero, ◌≡◌, refl, ◌⊎◌, inl, inr, String, true, false, ◌||◌, Option, none, some, List,
  [], ◌∷◌, All, ◌==◌, Bool-cases,
}
use johnny.Prelude.Exec.{Outcome, returned, raised, ◌>>=◌, pure}
use johnny.Effectors.SafeHttp.{
  ParsedIp, SplitUrl, FetchError, ValidatedTarget, Response, Event, resolved, unresolved, sent,
  closed, Network, SafeFetcher, is_allowed_scheme, is_given, lifted, ip_is_blocked, first_blocked,
  candidates, candidates_by, after_resolve, clear_target, choose_target, validate_port,
  validate_host, validate_split, validate_target, port_or_default, request_for, built,
  build_request, send, Round, redirected, finished, handle, round, walk, fetch,
}
use johnny.Effectors.SafeHttp.Trace.{handle-events}

module _ (net : Network) where
  abbrev pub IsClear : String → Type 0
  IsClear ip = ip_is_blocked net ip ≡ false

  -- Where the addresses of a host come from: it is an address itself, or the resolver just gave them.
  abbrev pub Origin : String → List String → List Event → Type 0
  Origin host ips events =
      ((p : ParsedIp) × (net.ip_address host ≡ some p) × (ips ≡ host ∷ []))
      ⊎ ((older : List Event) × (events ≡ resolved host ips ∷ older))

  -- What the gate has found of a URL, its host and the address to connect to.
  abbrev pub Cleared : String → String → String → List Event → Type 0
  Cleared url host ip events =
      ((p : SplitUrl) × (net.urlsplit url ≡ returned p)
        × (is_allowed_scheme (net.lower p.scheme) ≡ true)
        × ((is_given p.username || is_given p.password) ≡ false)
        × (p.hostname ≡ some host))
      × ((ips : List String) × Origin host (ip ∷ ips) events × All IsClear (ip ∷ ips))

  -- Each request was made to a cleared address, with the name it was cleared for.
  abbrev pub Pinned : List Event → Type 0
  Pinned [] = Unit
  Pinned (resolved host ips ∷ older) = Pinned older
  Pinned (unresolved host ∷ older) = Pinned older
  Pinned (closed ∷ older) = Pinned older
  Pinned (sent r ∷ older) = Cleared r.url r.sni_hostname r.host older × Pinned older

  first_blocked-none : (ips : List String) → first_blocked net ips ≡ none → All IsClear ips
  unfolding first_blocked
  first_blocked-none [] h = tt
  first_blocked-none (ip ∷ ips) h = elim (Bool-cases (ip_is_blocked net ip)) [
    | inl e ↦ cc (rw e at h)
    | inr e ↦ (e, first_blocked-none ips (rw e at h))
  ]

  -- A target that is returned is cleared.
  abbrev Valid : Outcome FetchError ValidatedTarget × List Event → Type 0
  Valid (returned t, after) = Pinned after × Cleared t.url t.host t.connect_ip after
  Valid (raised e, after) = Pinned after

  module _ (url : String) (p : SplitUrl) (split : net.urlsplit url ≡ returned p)
      (allowed : is_allowed_scheme (net.lower p.scheme) ≡ true)
      (bare : (is_given p.username || is_given p.password) ≡ false) (host : String)
      (named : p.hostname ≡ some host) where
    clear-Valid :
        (scheme : String) (port : ℕ) (ip : String) (ips : List String) (blocked : Option String)
        (events : List Event)
        → first_blocked net (ip ∷ ips) ≡ blocked
        → Origin host (ip ∷ ips) events
        → Pinned events
        → Valid (clear_target net url scheme host port ip blocked events)
    clear-Valid scheme port ip ips (some b) events e origin h = h
    clear-Valid scheme port ip ips none events e origin h =
        (h, ((p, split, allowed, bare, named), (ips, origin, first_blocked-none (ip ∷ ips) e)))

    choose-Valid :
        (scheme : String) (port : ℕ) (ips : List String) (events : List Event)
        → Origin host ips events
        → Pinned events
        → Valid (choose_target net url scheme host port ips events)
    choose-Valid scheme port [] events origin h = h
    choose-Valid scheme port (ip ∷ ips) events origin h =
        clear-Valid scheme port ip ips (first_blocked net (ip ∷ ips)) events refl origin h

    resolve-Valid :
        (scheme : String) (port : ℕ) (answer : Outcome String (List String)) (events : List Event)
        → Pinned events
        → Valid ((after_resolve net host answer >>= choose_target net url scheme host port) events)
    resolve-Valid scheme port (raised e) events h = h
    resolve-Valid scheme port (returned ips) events h =
        choose-Valid scheme port ips (resolved host ips ∷ events) (inr (events, refl)) h

    candidates-Valid :
        (scheme : String) (port : ℕ) (parsed : Option ParsedIp) (events : List Event)
        → net.ip_address host ≡ parsed
        → Pinned events
        → Valid ((candidates_by net parsed host >>= choose_target net url scheme host port) events)
    candidates-Valid scheme port (some q) events e h =
        choose-Valid scheme port (host ∷ []) events (inl (q, e, refl)) h
    candidates-Valid scheme port none events e h =
        resolve-Valid scheme port (net.resolve events host) events h

    port-Valid :
        (scheme : String) (port : Outcome String (Option ℕ)) (events : List Event)
        → Pinned events
        → Valid (validate_port net url scheme host port events)
    unfolding candidates
    port-Valid scheme (raised e) events h = h
    port-Valid scheme (returned port) events h =
        candidates-Valid scheme (port_or_default net port scheme) (net.ip_address host) events refl
          h

  host-Valid :
      (url : String) (p : SplitUrl)
      → net.urlsplit url ≡ returned p
      → is_allowed_scheme (net.lower p.scheme) ≡ true
      → (is_given p.username || is_given p.password) ≡ false
      → (host : Option String) (events : List Event) → p.hostname ≡ host
      → Pinned events
      → Valid (validate_host net url (net.lower p.scheme) p host events)
  host-Valid url p split allowed bare none events named h = h
  host-Valid url p split allowed bare (some host) events named h = elim (Bool-cases (host == "")) [
    | inl e ↦ rw e h
    | inr e ↦
        rw e (port-Valid url p split allowed bare host named (net.lower p.scheme) p.port events h)
  ]

  split-Valid :
      (url : String) (p : SplitUrl) (events : List Event)
      → net.urlsplit url ≡ returned p
      → Pinned events
      → Valid (validate_split net url p events)
  split-Valid url p events split h = elim (Bool-cases (is_allowed_scheme (net.lower p.scheme))) [
    | inr e ↦ rw e h
    | inl e ↦ rw e (elim (Bool-cases (is_given p.username || is_given p.password)) [
      | inl g ↦ rw g h
      | inr g ↦ rw g (host-Valid url p split e g p.hostname events refl h)
    ])
  ]

  validate-Valid :
      (url : String) (events : List Event) → Pinned events → Valid (validate_target net url events)
  unfolding validate_target
  validate-Valid url events h = at (net.urlsplit url) refl
    where
      at :
          (split : Outcome String SplitUrl)
          → net.urlsplit url ≡ split
          → Valid ((lifted split >>= validate_split net url) events)
      at (raised e) k = h
      at (returned p) k = split-Valid url p events k h

  module _ (fetcher : SafeFetcher) where
    handle-Pinned :
        (current : String) (response : Response) (events : List Event)
        → Pinned events
        → Pinned (handle net fetcher current response events).1
    handle-Pinned current response events h =
        subst Pinned (sym (handle-events net fetcher current response events)) h

    sent-Pinned :
        (current : String) (t : ValidatedTarget) (events : List Event)
        → Pinned (sent (request_for net fetcher t) ∷ events)
        → Pinned
            ((send net fetcher (request_for net fetcher t) >>= handle net fetcher current) events).1
    unfolding send
    sent-Pinned current t events h =
        let r = request_for net fetcher t in at (net.send (sent r ∷ events) r)
      where
        at :
            (out : Outcome String Response)
            → Pinned
                ((lifted out >>= handle net fetcher current)
                  (sent (request_for net fetcher t) ∷ events)).1
        at (returned response) =
            handle-Pinned current response (sent (request_for net fetcher t) ∷ events) h
        at (raised e) = h

    built-Pinned :
        (current : String) (t : ValidatedTarget) (refusal : Option String) (events : List Event)
        → Pinned events
        → Cleared t.url t.host t.connect_ip events
        → Pinned
            ((built net fetcher (request_for net fetcher t) refusal
                >>= send net fetcher
                >>= handle net fetcher current)
              events).1
    built-Pinned current t none events h k = sent-Pinned current t events (k, h)
    built-Pinned current t (some e) events h k = h

    checked-Pinned :
        (current : String) (out : Outcome FetchError ValidatedTarget × List Event)
        → Valid out
        → Pinned
            (((λ (_ : List Event). out)
                >>= build_request net fetcher
                >>= send net fetcher
                >>= handle net fetcher current)
              []).1
    unfolding build_request
    checked-Pinned current (raised e, events) v = v
    checked-Pinned current (returned t, events) v =
        built-Pinned current t (net.url_error t.url) events v.0 v.1

    round-Pinned :
        (current : String) (events : List Event)
        → Pinned events
        → Pinned (round net fetcher current events).1
    unfolding round
    round-Pinned current events h =
        checked-Pinned current (validate_target net current events)
          (validate-Valid current events h)

    walk-Pinned :
        (hops : ℕ) (current : String) (events : List Event)
        → Pinned events
        → Pinned (walk net fetcher hops current events).1
    unfolding walk
    walk-Pinned zero current events h = h
    walk-Pinned (suc hops) current events h =
        let kept = round-Pinned current events h in
        next (round net fetcher current events) kept
          (λ url. walk-Pinned hops url (round net fetcher current events).1 kept)
      where
        next :
            (out : Outcome FetchError Round × List Event)
            → Pinned out.1
            → ((url : String) → Pinned (walk net fetcher hops url out.1).1)
            → Pinned
                (((λ (_ : List Event). out) >>= λ r. elim r [
                  | redirected url ↦ walk net fetcher hops url
                  | finished outcome ↦ pure outcome
                ])
                  events).1
        next (raised e, after) k more = k
        next (returned (redirected url), after) k more = more url
        next (returned (finished outcome), after) k more = k

    -- Whatever the network answers, each request of a fetch is to a URL with an allowed scheme and no
    -- credentials, whose host is an address itself or has just been resolved, and it goes to the first
    -- of these addresses where none of them is blocked.
    pub fetch-Pinned : (url : String) → Pinned (fetch net fetcher url []).1
    unfolding fetch
    fetch-Pinned url = walk-Pinned (suc fetcher.max_redirects) url [] tt
