-- ===== src/Resolver.antt =====
-- internal/registry/resolver.go: fetching the agent card. The network is a parameter: what a GET of
-- a URL with given headers answers during the call, and how long it takes.
pub mod Laws
use Prim.Native.Char.{code}
use a2a_registry.Common.{
  ℕ, String, ◌<>◌, List, [], ◌∷◌, Bool, true, false, not, Option, none, some, Result, ok, err, ◌==◌,
  nat_eq, if◌then◌else◌,
}
use a2a_registry.Common.Int32.{pos}
use a2a_registry.GoStrings.{to_lower, trim_right}
use a2a_registry.Platform.{AgentCard, Std, Effect, metric, agent_card_fetch_errors_total_inc}

pub record HttpResponse : Type 0 where
  pub status_code : ℕ
  pub body : String

abbrev pub Headers : Type 0
Headers = List (String × String)

-- `http.NewRequestWithContext` may refuse the URL; then `httpClient.Do` may fail.
pub record Network : Type 0 where
  pub new_request_error : String → Option String
  pub do_get : String → Headers → Result String HttpResponse
  -- `time.Since(start)` at the end of a fetch of the URL, in nanoseconds
  pub latency : String → ℕ

pub record ResolveResult : Type 0 where
  pub card : AgentCard
  pub hash : String
  pub latency : ℕ

pub record AuthConfig : Type 0 where
  pub schemes : List String
  pub secret_data : List (String × String)

-- A Go map as a list of pairs: reading a key, and writing one.
module _ {V : Type 0} where
  unfoldable pub lookup : String → List (String × V) → Option V
  lookup k [] = none
  lookup k ((j, v) ∷ m) = if j == k then some v else lookup k m

  unfoldable pub insert : String → V → List (String × V) → List (String × V)
  insert k v [] = (k, v) ∷ []
  insert k v ((j, w) ∷ m) = if j == k then (k, v) ∷ m else (j, w) ∷ insert k v m

-- What a missing key of `map[string][]byte` reads as, after conversion to a string.
abbrev pub or_empty : Option String → String
or_empty none = ""
or_empty (some s) = s

-- Is the pair's flag `ok` of a map read true?
abbrev pub set_bearer : Option String → Headers → Headers
set_bearer none headers = headers
set_bearer (some token) headers = insert "Authorization" ("Bearer " <> token) headers

abbrev pub primary_path : String
primary_path = "/.well-known/agent-card.json"

abbrev pub fallback_path : String
fallback_path = "/.well-known/agent.json"

abbrev pub well_known_paths : List String
well_known_paths = primary_path ∷ fallback_path ∷ []

module _ (std : Std) where
  -- One round of the loop of `buildAuthHeaders`.
  unfoldable pub add_scheme : List (String × String) → String → Headers → Headers
  unfolding lookup insert
  add_scheme secret scheme headers =
      let kind = to_lower std scheme in
      if kind == "bearer"
      then set_bearer (lookup "token" secret) headers
      else if kind == "basic"
      then (let username = or_empty (lookup "username" secret) in
          let password = or_empty (lookup "password" secret) in
          if username == ""
          then headers
          else insert "Authorization" ("Basic " <> std.base64_encode (username <> ":" <> password))
              headers)
      else headers

  unfoldable pub add_schemes : List (String × String) → List String → Headers → Headers
  unfolding add_scheme
  add_schemes secret [] headers = headers
  add_schemes secret (s ∷ ss) headers = add_schemes secret ss (add_scheme secret s headers)

  unfoldable pub build_auth_headers : AuthConfig → Headers
  unfolding add_schemes
  build_auth_headers auth = add_schemes auth.secret_data auth.schemes []

  -- `req.Header.Set` of each header in turn.
  unfoldable pub set_all : Headers → Headers → Headers
  unfolding insert
  set_all [] base = base
  set_all ((k, v) ∷ hs) base = set_all hs (insert k v base)

  module _ (net : Network) where
    -- The part of `tryFetch` after the body is decoded.
    abbrev pub hash_card : String → AgentCard → Result String ResolveResult
    hash_card url card = elim (std.marshal_card card) [
      | err e ↦ err ("failed to marshal agent card for hashing: " <> e)
      | ok json ↦ ok (record { card = card; hash = std.sha256_hex json; latency = net.latency url })
    ]

    abbrev pub read_response : String → HttpResponse → Result String ResolveResult
    read_response url resp =
        if nat_eq resp.status_code 200
        then elim (std.decode_card resp.body) [
          | err e ↦ err ("failed to decode agent card from " <> (url <> (": " <> e)))
          | ok card ↦ hash_card url card
        ]
        else err (
            "unexpected status code "
            <> (std.format_int (pos resp.status_code) <> (" from " <> url)))

    unfoldable pub try_fetch : String → Headers → Result String ResolveResult
    unfolding set_all
    try_fetch url headers = elim (net.new_request_error url) [
      | some e ↦ err ("failed to create request: " <> e)
      | none ↦ elim (net.do_get url (set_all headers (("Accept", "application/json") ∷ []))) [
        | err e ↦ err ("failed to fetch agent card from " <> (url <> (": " <> e)))
        | ok resp ↦ read_response url resp
      ]
    ]

    -- The loop over the paths, with the last error.
    unfoldable pub try_paths : String → Headers → List String → String → Result String ResolveResult
    try_paths base headers [] last_err = err last_err
    try_paths base headers (path ∷ paths) last_err = elim (try_fetch (base <> path) headers) [
      | ok result ↦ ok result
      | err e ↦ try_paths base headers paths e
    ]

    abbrev pub fetch_failed : String → String → String
    fetch_failed agent_url e =
        "failed to fetch agent card from "
        <> (agent_url <> (" (tried [/.well-known/agent-card.json /.well-known/agent.json]): " <> e))

    -- The result, and the calls on the metrics.
    unfoldable pub fetch_card : String → Headers → Result String ResolveResult × List Effect
    unfolding try_paths
    fetch_card agent_url headers =
        elim (try_paths (trim_right b'/' agent_url) headers well_known_paths "") [
          | ok result ↦ (ok result, [])
          | err e ↦ (err (fetch_failed agent_url e), metric agent_card_fetch_errors_total_inc ∷ [])
        ]

    abbrev pub headers_of : Option AuthConfig → Headers
    headers_of none = []
    headers_of (some auth) = build_auth_headers auth

    unfoldable pub fetch_card_with_auth :
        String → Option AuthConfig → Result String ResolveResult × List Effect
    unfolding fetch_card build_auth_headers
    fetch_card_with_auth agent_url auth = fetch_card agent_url (headers_of auth)
