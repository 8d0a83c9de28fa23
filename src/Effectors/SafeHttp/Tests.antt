-- ===== src/Effectors/SafeHttp/Tests.antt =====
-- A fetch over a network of one redirect, at concrete inputs.
use johnny.Prelude.{
  arith, ◌≡◌, refl, String, Bool, true, false, none, some, [], ◌∷◌, if◌then◌else◌, ◌==◌,
}
use johnny.Prelude.Exec.{returned}
use johnny.Effectors.SafeHttp.{
  IpAddress, ended, chunk, Response, Network, SafeFetcher, fetch, read_capped, ip_is_blocked,
}
use johnny.Effectors.SafeHttp.Pinned.{Pinned, fetch-Pinned}
use johnny.Effectors.SafeHttp.Capped.{read_capped-start}
use johnny.Effectors.SafeHttp.Hops.{Bounded, fetch-Bounded}

abbrev address_of : String → Bool → IpAddress
address_of text is_global = record {
  text = text;
  is_global = is_global;
  is_private = false;
  is_loopback = false;
  is_link_local = false;
  is_multicast = false;
  is_reserved = false;
  is_unspecified = false;
}

abbrev page : Response
page = record {
  url = "https://johnny.example/end";
  status_code = 200;
  location = none;
  content_type = "text/html";
  stream = chunk (1 ∷ 2 ∷ []) (chunk (3 ∷ 4 ∷ []) ended);
}

-- The name resolves to a public address; `http://inside` is an internal one.
abbrev web : Network
web = record {
  ip_address = λ ip.
      if ip == "93.184.216.34"
      then some (record { ip = address_of "93.184.216.34" true; ipv4_mapped = none })
      else if ip == "10.0.0.1"
      then some (record { ip = address_of "10.0.0.1" false; ipv4_mapped = none })
      else none;
  urlsplit = λ url. returned (record {
    scheme = "https";
    username = none;
    password = none;
    hostname = some url;
    port = returned none;
  });
  urljoin = λ base url. returned url;
  lower = λ s. s;
  show = λ s. s;
  digits = λ n. "0";
  has_colon = λ s. false;
  url_error = λ url. none;
  resolve = λ events host. returned ("93.184.216.34" ∷ []);
  send = λ events r. returned (
      if r.sni_hostname == "start"
      then record page { status_code = 302; location = some "10.0.0.1" }
      else page);
  close = λ events. returned tt;
}

abbrev reader : SafeFetcher
reader = record { max_redirects = 5; max_bytes = 3; user_agent = "Johnny5/1.0" }

-- The internal address that the redirect names is blocked.
inside-blocked : ip_is_blocked web "10.0.0.1" ≡ true
unfolding ip_is_blocked
inside-blocked = refl

fetch-Pinned_example : Pinned web (fetch web reader "start" []).1
fetch-Pinned_example = fetch-Pinned web reader "start"

fetch-Bounded_example : Bounded web reader 6 (fetch web reader "start" [])
fetch-Bounded_example = fetch-Bounded web reader "start"

read_capped-start_example : read_capped web reader page.stream ≡ returned (1 ∷ 2 ∷ 3 ∷ [], true)
read_capped-start_example = read_capped-start web reader page.stream tt (omega arith)
