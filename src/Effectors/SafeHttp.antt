-- ===== src/Effectors/SafeHttp.antt =====
-- brain/effectors/safe_http.py: fetching behind a gate that lets no request reach an internal address.
-- `Network` holds what others provide: `urlsplit`, `urljoin` and `ip_address` of Python, the resolver
-- and the HTTP client. Opening and closing the client is left out.
pub mod Trace
pub mod Pinned
pub mod Capped
pub mod Hops
mod Tests
use Prim.Native.String.{◌++◌ as append_text}
use johnny.Prelude.{
  ℕ, suc, zero, ◌+◌, String, Bool, true, false, not, ◌&&◌, ◌||◌, Option, none, some, List, [], ◌∷◌,
  ◌++◌, if◌then◌else◌, ◌==◌, eqb, leb, length, take, any,
}
use johnny.Prelude.Exec.{Outcome, returned, raised, Exec, pure, raise, ◌>>=◌, ◌>>◌}

-- What `ipaddress` tells of an address.
pub record IpAddress : Type 0 where
  pub text : String
  pub is_global : Bool
  pub is_private : Bool
  pub is_loopback : Bool
  pub is_link_local : Bool
  pub is_multicast : Bool
  pub is_reserved : Bool
  pub is_unspecified : Bool

-- A parsed address, with the IPv4 address that an IPv6 one maps.
pub record ParsedIp : Type 0 where
  pub ip : IpAddress
  pub ipv4_mapped : Option IpAddress

-- The result of `urlsplit`. Reading the port may raise a ValueError.
pub record SplitUrl : Type 0 where
  pub scheme : String
  pub username : Option String
  pub password : Option String
  pub hostname : Option String
  pub port : Outcome String (Option ℕ)

pub data FetchError : Type 0 where
  ssrf : String → FetchError
  other : String → FetchError

-- `ValidatedTarget`
pub record ValidatedTarget : Type 0 where
  pub url : String
  pub scheme : String
  pub host : String
  pub port : ℕ
  pub connect_ip : String
  pub host_header : String

-- A GET request: `url` with its host and port replaced by `host` and `port`, and the headers.
pub record Request : Type 0 where
  pub url : String
  pub host : String
  pub port : ℕ
  pub host_header : String
  pub user_agent : String
  pub accept : String
  pub accept_encoding : String
  pub sni_hostname : String

-- The body as it arrives.
pub data Stream : Type 0 where
  ended : Stream
  chunk : List ℕ → Stream → Stream
  broken : String → Stream

pub record Response : Type 0 where
  pub url : String
  pub status_code : ℕ
  pub location : Option String
  pub content_type : String
  pub stream : Stream

pub record FetchOutcome : Type 0 where
  pub final_url : String
  pub status_code : ℕ
  pub content_type : String
  pub body : List ℕ
  pub truncated : Bool

-- One round of the loop ends with the next URL, or with the response that is wanted.
pub data Round : Type 0 where
  redirected : String → Round
  finished : FetchOutcome → Round

-- What a fetch does outside, the last first.
pub data Event : Type 0 where
  resolved : String → List String → Event
  unresolved : String → Event
  sent : Request → Event
  closed : Event

pub record Network : Type 0 where
  pub ip_address : String → Option ParsedIp
  pub urlsplit : String → Outcome String SplitUrl
  pub urljoin : String → String → Outcome String String
  pub lower : String → String
  pub show : String → String
  pub digits : ℕ → String
  pub has_colon : String → Bool
  -- `httpx.URL` and the request made of it may refuse a URL.
  pub url_error : String → Option String
  pub resolve : List Event → String → Outcome String (List String)
  pub send : List Event → Request → Outcome String Response
  pub close : List Event → Outcome String (Unit {0})

-- The settings of `SafeFetcher`
pub record SafeFetcher : Type 0 where
  pub max_redirects : ℕ
  pub max_bytes : ℕ
  pub user_agent : String

abbrev pub Fetch : Type 0 → Type 0
Fetch A = Exec (List Event) FetchError A

abbrev pub metadata_ips : List String
metadata_ips = "169.254.169.254" ∷ "fd00:ec2::254" ∷ []

abbrev pub is_metadata : String → Bool
is_metadata ip = any (λ m. m == ip) metadata_ips

abbrev pub redirect_codes : List ℕ
redirect_codes = 301 ∷ 302 ∷ 303 ∷ 307 ∷ 308 ∷ []

abbrev pub is_redirect : ℕ → Bool
is_redirect code = any (λ c. eqb c code) redirect_codes

abbrev pub allowed_schemes : List String
allowed_schemes = "http" ∷ "https" ∷ []

abbrev pub is_allowed_scheme : String → Bool
is_allowed_scheme scheme = any (λ s. s == scheme) allowed_schemes

-- Python's truth of an optional text
abbrev pub is_given : Option String → Bool
is_given none = false
is_given (some s) = not (s == "")

-- A failure of the world outside, as the exception it is.
abbrev pub lifted : {A : Type 0} → Outcome String A → Fetch A
lifted (returned a) = pure a
lifted (raised e) = raise (other e)

module _ (net : Network) where
  -- `_normalise`
  abbrev pub unwrapped : ParsedIp → IpAddress
  unwrapped p = elim p.ipv4_mapped [ none ↦ p.ip | some ip ↦ ip ]

  abbrev pub is_internal : IpAddress → Bool
  is_internal ip =
      is_metadata ip.text
      || (not ip.is_global
          || (ip.is_private
              || (ip.is_loopback
                  || (ip.is_link_local
                      || (ip.is_multicast || (ip.is_reserved || ip.is_unspecified))))))

  unfoldable pub ip_is_blocked : String → Bool
  ip_is_blocked raw = elim (net.ip_address raw) [ none ↦ true | some p ↦ is_internal (unwrapped p) ]

  -- The first address of `candidates` that is blocked
  unfoldable pub first_blocked : List String → Option String
  unfolding ip_is_blocked
  first_blocked [] = none
  first_blocked (ip ∷ ips) = if ip_is_blocked ip then some ip else first_blocked ips

  abbrev pub default_port : String → ℕ
  default_port scheme = if scheme == "https" then 443 else 80

  -- `port or default`
  abbrev pub port_or_default : Option ℕ → String → ℕ
  port_or_default none scheme = default_port scheme
  port_or_default (some zero) scheme = default_port scheme
  port_or_default (some (suc n)) scheme = suc n

  unfoldable pub host_header_of : String → ℕ → String → String
  host_header_of host port scheme =
      let label = if net.has_colon host then append_text "[" (append_text host "]") else host in
      if eqb port (default_port scheme)
      then label
      else append_text label (append_text ":" (net.digits port))

  -- The answer of the resolver, and the record of it.
  abbrev pub after_resolve : String → Outcome String (List String) → Fetch (List String)
  after_resolve host (returned ips) events = (returned ips, resolved host ips ∷ events)
  after_resolve host (raised e) events = (raised (other e), unresolved host ∷ events)

  -- An address is its own candidate; a name is resolved.
  abbrev pub candidates_by : Option ParsedIp → String → Fetch (List String)
  candidates_by (some p) host events = (returned (host ∷ []), events)
  candidates_by none host events = after_resolve host (net.resolve events host) events

  unfoldable pub candidates : String → Fetch (List String)
  candidates host = candidates_by (net.ip_address host) host

  abbrev pub clear_target :
      String → String → String → ℕ → String → Option String → Fetch ValidatedTarget
  clear_target url scheme host port ip (some blocked) = raise (
      ssrf (
        append_text "host " (
          append_text (net.show host)
            (append_text " resolves to a blocked address (" (append_text blocked ")")))))
  clear_target url scheme host port ip none = pure (record {
    url = url;
    scheme = scheme;
    host = host;
    port = port;
    connect_ip = ip;
    host_header = host_header_of host port scheme;
  })

  abbrev pub choose_target : String → String → String → ℕ → List String → Fetch ValidatedTarget
  choose_target url scheme host port [] =
      raise (ssrf (append_text "could not resolve host " (net.show host)))
  choose_target url scheme host port (ip ∷ ips) =
      clear_target url scheme host port ip (first_blocked (ip ∷ ips))

  abbrev pub validate_port :
      String → String → String → Outcome String (Option ℕ) → Fetch ValidatedTarget
  validate_port url scheme host (raised e) = raise (ssrf "URL has an invalid port")
  validate_port url scheme host (returned port) =
      candidates host >>= choose_target url scheme host (port_or_default port scheme)

  abbrev pub validate_host : String → String → SplitUrl → Option String → Fetch ValidatedTarget
  validate_host url scheme parsed none = raise (ssrf "URL has no host")
  validate_host url scheme parsed (some host) =
      if host == ""
      then raise (ssrf "URL has no host")
      else validate_port url scheme host parsed.port

  abbrev pub scheme_shown : String → String
  scheme_shown scheme = if scheme == "" then "(none)" else scheme

  abbrev pub validate_split : String → SplitUrl → Fetch ValidatedTarget
  validate_split url parsed =
      let scheme = net.lower parsed.scheme in
      if not (is_allowed_scheme scheme)
      then raise (
          ssrf (
            append_text "scheme "
              (append_text (net.show (scheme_shown scheme)) " is not allowed (only http/https)")))
      else if is_given parsed.username || is_given parsed.password
      then raise (ssrf "embedded URL credentials are not allowed")
      else validate_host url scheme parsed parsed.hostname

  unfoldable pub validate_target : String → Fetch ValidatedTarget
  unfolding candidates first_blocked host_header_of
  validate_target url = lifted (net.urlsplit url) >>= validate_split url

  module _ (fetcher : SafeFetcher) where
    abbrev pub request_for : ValidatedTarget → Request
    request_for t = record {
      url = t.url;
      host = t.connect_ip;
      port = t.port;
      host_header = t.host_header;
      user_agent = fetcher.user_agent;
      accept = "text/html,application/xhtml+xml,text/plain;q=0.9,*/*;q=0.5";
      accept_encoding = "identity";
      sni_hostname = t.host;
    }

    abbrev pub built : Request → Option String → Fetch Request
    built r none = pure r
    built r (some e) = raise (other e)

    unfoldable pub build_request : ValidatedTarget → Fetch Request
    build_request t = built (request_for t) (net.url_error t.url)

    unfoldable pub send : Request → Fetch Response
    send r events = let sent_now = sent r ∷ events in lifted (net.send sent_now r) sent_now

    unfoldable pub close : Fetch (Unit {0})
    close events = let closed_now = closed ∷ events in lifted (net.close closed_now) closed_now

    -- `_read_capped`, with what it has read so far
    unfoldable pub read_from : List ℕ → Stream → Outcome String (List ℕ × Bool)
    read_from got ended = returned (take fetcher.max_bytes got, false)
    read_from got (broken e) = raised e
    read_from got (chunk bytes rest) =
        let more = read_from (got ++ bytes) rest in
        if leb fetcher.max_bytes (length (got ++ bytes))
        then returned (take fetcher.max_bytes (got ++ bytes), true)
        else more

    unfoldable pub read_capped : Stream → Outcome String (List ℕ × Bool)
    unfolding read_from
    read_capped stream = read_from [] stream

    -- The URL that a redirect names; its host is read for the log.
    unfoldable pub follow : String → String → Fetch Round
    follow current location = lifted (net.urljoin current location) >>= λ next.
        lifted (net.urlsplit next) >>= λ _. pure (redirected next)

    abbrev pub outcome_of : Response → List ℕ × Bool → FetchOutcome
    outcome_of response (body, truncated) = record {
      final_url = response.url;
      status_code = response.status_code;
      content_type = response.content_type;
      body = body;
      truncated = truncated;
    }

    unfoldable pub read_response : Response → Fetch Round
    unfolding read_capped
    read_response response =
        lifted (read_capped response.stream) >>= λ read. pure (finished (outcome_of response read))

    abbrev pub redirect_or_read : String → Response → Option String → Fetch Round
    redirect_or_read current response none = read_response response
    redirect_or_read current response (some location) =
        if is_redirect response.status_code && not (location == "")
        then follow current location
        else read_response response

    -- `finally: await response.aclose()`, whose own exception takes the place of what went before.
    abbrev pub finally_close :
        Outcome FetchError Round × List Event → Outcome FetchError Round × List Event
    finally_close (returned round, events) = (close >> pure round) events
    finally_close (raised e, events) = (close >> raise e) events

    unfoldable pub handle : String → Response → Fetch Round
    unfolding follow read_response close
    handle current response events =
        finally_close (redirect_or_read current response response.location events)

    unfoldable pub round : String → Fetch Round
    unfolding validate_target build_request send handle
    round current = validate_target current >>= build_request >>= send >>= handle current

    -- The loop over the hops that are left
    unfoldable pub walk : ℕ → String → Fetch FetchOutcome
    unfolding round
    walk zero current = raise (
        ssrf (
          append_text "too many redirects (cap "
            (append_text (net.digits fetcher.max_redirects) ")")))
    walk (suc hops) current = round current >>= λ r. elim r [
      | redirected next ↦ walk hops next
      | finished outcome ↦ pure outcome
    ]

    unfoldable pub fetch : String → Fetch FetchOutcome
    unfolding walk
    fetch url = walk (suc fetcher.max_redirects) url
