-- ===== src/Resolver/Laws.antt =====
-- Which URL a card is fetched from, and which authorization is sent.
use a2a_registry.Common.{
  String, ◌<>◌, List, [], ◌∷◌, ◌++◌, Option, none, some, Result, ok, err, ◌≡◌, refl, ◌⊎◌, inl, inr,
  ◌==◌, Bool-cases, Result-cases,
}
use a2a_registry.GoStrings.{to_lower, trim_right}
use a2a_registry.Platform.{Std, metric, agent_card_fetch_errors_total_inc}
use a2a_registry.Resolver.{
  Headers, Network, ResolveResult, lookup, or_empty, set_bearer, insert, add_scheme, add_schemes,
  build_auth_headers, try_fetch, fetch_card, fetch_failed, primary_path, fallback_path,
}

-- No header, or one Authorization header.
abbrev pub OnlyAuthorization : Headers → Type 0
OnlyAuthorization headers = (headers ≡ []) ⊎ ((v : String) × (headers ≡ ("Authorization", v) ∷ []))

insert-Only :
    (v : String) (headers : Headers)
    → OnlyAuthorization headers
    → insert "Authorization" v headers ≡ ("Authorization", v) ∷ []
unfolding insert
insert-Only v headers (inl e) = rw e
insert-Only v headers (inr (u, e)) = rw e

set_bearer-Only :
    (token : Option String) (headers : Headers)
    → OnlyAuthorization headers
    → OnlyAuthorization (set_bearer token headers)
set_bearer-Only none headers h = h
set_bearer-Only (some t) headers h = inr (_, insert-Only _ headers h)

module _ (std : Std) where
  add_scheme-Only :
      (secret : List (String × String)) (s : String) (headers : Headers)
      → OnlyAuthorization headers
      → OnlyAuthorization (add_scheme std secret s headers)
  unfolding add_scheme
  add_scheme-Only secret s headers h = elim (Bool-cases (to_lower std s == "bearer")) [
    | inl bearer ↦ rw bearer (set_bearer-Only (lookup "token" secret) headers h)
    | inr other ↦ elim (Bool-cases (to_lower std s == "basic")) [
      | inr unknown ↦ rw (other, unknown) h
      | inl basic ↦ elim (Bool-cases (or_empty (lookup "username" secret) == "")) [
        | inl nobody ↦ rw (other, basic, nobody) h
        | inr somebody ↦ rw (other, basic, somebody) (inr (_, insert-Only _ headers h))
      ]
    ]
  ]

  add_schemes-Only :
      (secret : List (String × String)) (ss : List String) (headers : Headers)
      → OnlyAuthorization headers
      → OnlyAuthorization (add_schemes std secret ss headers)
  unfolding add_schemes
  add_schemes-Only secret [] headers h = h
  add_schemes-Only secret (s ∷ ss) headers h =
      add_schemes-Only secret ss (add_scheme std secret s headers)
        (add_scheme-Only secret s headers h)

  add_schemes-append :
      (secret : List (String × String)) (ss : List String) (s : String) (headers : Headers)
      → add_schemes std secret (ss ++ s ∷ []) headers
        ≡ add_scheme std secret s (add_schemes std secret ss headers)
  unfolding add_schemes
  add_schemes-append secret [] s headers = refl
  add_schemes-append secret (x ∷ ss) s headers =
      add_schemes-append secret ss s (add_scheme std secret x headers)

  bearer_last :
      (secret : List (String × String)) (s token : String) (headers : Headers)
      → to_lower std s ≡ "bearer"
      → lookup "token" secret ≡ some token
      → OnlyAuthorization headers
      → add_scheme std secret s headers ≡ ("Authorization", "Bearer " <> token) ∷ []
  unfolding add_scheme
  bearer_last secret s token headers bearer found h = rw (bearer, found) (insert-Only _ headers h)

  -- Whatever the schemes before it: if the last scheme is "bearer" in any letter case and the
  -- secret has a token, the headers are that bearer token's Authorization and no other.
  pub build_auth_headers-bearer :
      (schemes : List String) (s token : String) (secret : List (String × String))
      → to_lower std s ≡ "bearer"
      → lookup "token" secret ≡ some token
      → build_auth_headers std (record { schemes = schemes ++ s ∷ []; secret_data = secret })
        ≡ ("Authorization", "Bearer " <> token) ∷ []
  unfolding build_auth_headers
  build_auth_headers-bearer schemes s token secret bearer found =
      rw add_schemes-append
        (bearer_last secret s token _ bearer found (add_schemes-Only secret schemes [] (inl refl)))

  module _ (net : Network) (url : String) (headers : Headers) where
    abbrev pub primary : Result String ResolveResult
    primary = try_fetch std net (trim_right b'/' url <> primary_path) headers

    abbrev pub fallback : Result String ResolveResult
    fallback = try_fetch std net (trim_right b'/' url <> fallback_path) headers

    -- The card comes from the newer path if that can be fetched; else from the older path; and if
    -- neither can be fetched the result is an error, and the error is counted.
    pub fetch_card-cases :
        ((r : ResolveResult) × (primary ≡ ok r) × (fetch_card std net url headers ≡ (ok r, [])))
        ⊎ ((e : String) × (r : ResolveResult) × (primary ≡ err e)
            × (fallback ≡ ok r)
            × (fetch_card std net url headers ≡ (ok r, [])))
        ⊎ ((e f m : String) × (primary ≡ err e)
            × (fallback ≡ err f)
            × (fetch_card std net url headers
                ≡ (err m, metric agent_card_fetch_errors_total_inc ∷ [])))
    unfolding fetch_card
    fetch_card-cases = elim (Result-cases primary) [
      | inl (r, e) ↦ inl (r, e, (rw (e, fetch_card)))
      | inr (x, e) ↦ elim (Result-cases fallback) [
        | inl (r, f) ↦ inr (inl (x, r, e, f, (rw (e, f, fetch_card))))
        | inr (y, f) ↦ inr (inr (x, y, fetch_failed std net url y, e, f, (rw (e, f, fetch_card))))
      ]
    ]
