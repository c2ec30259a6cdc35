-- ===== src/HelloAgent/Laws.antt =====
-- The example agent as the operator sees it.
use a2a_registry.Common.{
  String, ◌<>◌, List, [], ◌∷◌, ok, Option, none, some, ◌≡◌, refl, sym, ap, ◌∙◌, inl, inr, All, Any,
  true, ◌==◌, eq_iff,
}
use a2a_registry.GoStrings.{trim_right}
use a2a_registry.Api.{Time, A2aAgent, A2aAgentSkillSpec}
use a2a_registry.Platform.{AgentCard, AgentSkill, Std, KubeClient, ControllerUtil, World}
use a2a_registry.Handler.Http.{Request}
use a2a_registry.Resolver.{
  Network, HttpResponse, Headers, AuthConfig, ResolveResult, primary_path, set_all, try_fetch,
  hash_card, read_response, fetch_card, headers_of, fetch_card_with_auth,
}
use a2a_registry.HealthCheck.{check_with_auth}
use a2a_registry.AgentController.Checks.{
  check_card_match, check_url_conflict, get_registry_config, build_auth_config, is_approved,
  requires_approval,
}
use a2a_registry.AgentController.Reconcile.{reconcile_live}
use a2a_registry.AgentController.Verdicts.{Agrees, CardAgrees, check_card_match_iff}
use a2a_registry.AgentController.Safety.Judged.{CardOk}
use a2a_registry.AgentController.Live.{EndsReady, reconcile_live-Ready}
use a2a_registry.HelloAgent.{A2asrv, Flags, agent_card, serve}

-- The network takes a GET of a path below a URL to a handler.
pub record ServedAt (net : Network) (base path : String) (handler : Request → HttpResponse)
    : Type 0 where
  pub valid : net.new_request_error (base <> path) ≡ none
  pub get :
      (headers : Headers)
      → (r : Request) × (r.method ≡ "GET")
        × (r.path ≡ path)
        × (net.do_get (base <> path) headers ≡ ok (handler r))

-- What the agent relies on of the a2a library and of encoding/json, at its card.
pub record LawfulA2asrv (std : Std) (srv : A2asrv) (f : Flags) : Type 0 where
  pub path : srv.well_known_agent_card_path ≡ primary_path
  pub json : String
  pub served :
      (r : Request)
      → r.method ≡ "GET"
      → srv.static_agent_card_handler (agent_card std f) r
        ≡ record { status_code = 200; body = json }
  pub decoded : std.decode_card json ≡ ok (agent_card std f)
  pub marshalled : (s : String) × (std.marshal_card (agent_card std f) ≡ ok s)

-- The spec of the resource says nothing else than the card.
pub record Describes (a : A2aAgent) (f : Flags) : Type 0 where
  pub name : Agrees a.spec.name f.name
  pub description : Agrees a.spec.description f.desc
  pub version : Agrees a.spec.version "1.0.0"
  pub skills : All (λ s. s.id ≡ f.skill_id) a.spec.skills

Any-All :
    (id : String) (specs : List A2aAgentSkillSpec) (skills : List AgentSkill)
    → Any (λ t. id ≡ t.id) skills
    → All (λ s. s.id ≡ id) specs
    → All (λ s. Any (λ t. s.id ≡ t.id) skills) specs
Any-All id [] skills there all = tt
Any-All id (s ∷ specs) skills there (h, all) = (rw h there, Any-All id specs skills there all)

module _ (std : Std) (net : Network) where
  hash_card-ok :
      (url s : String) (card : AgentCard)
      → std.marshal_card card ≡ ok s
      → hash_card std net url card
        ≡ ok (record { card = card; hash = std.sha256_hex s; latency = net.latency url })
  hash_card-ok url s card marshalled = rw (marshalled, hash_card)

  read_response-card :
      (url json s : String) (card : AgentCard)
      → std.decode_card json ≡ ok card
      → std.marshal_card card ≡ ok s
      → read_response std net url (record { status_code = 200; body = json })
        ≡ ok (record { card = card; hash = std.sha256_hex s; latency = net.latency url })
  read_response-card url json s card decoded marshalled =
      rw decoded (hash_card-ok url s card marshalled)

  fetch_card-primary :
      (url : String) (headers : Headers) (x : ResolveResult)
      → try_fetch std net (trim_right b'/' url <> primary_path) headers ≡ ok x
      → fetch_card std net url headers ≡ (ok x, [])
  unfolding fetch_card
  fetch_card-primary url headers x e = rw (e, fetch_card)

module _ (std : Std) (srv : A2asrv) (trim_space : String → String) (f : Flags)
    (lawful : LawfulA2asrv std srv f) where
  described-CardAgrees : (a : A2aAgent) → Describes a f → CardAgrees a (agent_card std f)
  unfolding agent_card
  described-CardAgrees a d = record {
    name = d.name;
    description = d.description;
    version = d.version;
    skills = Any-All f.skill_id a.spec.skills (agent_card std f).skills (inl refl) d.skills;
  }

  serve_card :
      (r : Request)
      → r.method ≡ "GET"
      → r.path ≡ primary_path
      → serve std srv trim_space f r ≡ record { status_code = 200; body = lawful.json }
  unfolding serve
  serve_card r get path =
      rw (ap (λ p. p == "/invoke") path, (eq_iff _ _).1 (path ∙ sym lawful.path))
        (lawful.served r get)

  module _ (net : Network) where
    fetched :
        (url : String) (headers : Headers)
        → ServedAt net url primary_path (serve std srv trim_space f)
        → (x : ResolveResult) × (x.card ≡ agent_card std f)
          × (try_fetch std net (url <> primary_path) headers ≡ ok x)
    unfolding try_fetch
    fetched url headers at =
        let (r, method, path, answer) =
          at.get (set_all std headers (("Accept", "application/json") ∷ [])) in
        (
          record {
            card = agent_card std f;
            hash = std.sha256_hex lawful.marshalled.0;
            latency = net.latency (url <> primary_path);
          },
          refl,
          rw (at.valid, answer, serve_card r method path, try_fetch)
              (read_response-card std net (url <> primary_path) lawful.json lawful.marshalled.0
                (agent_card std f) lawful.decoded lawful.marshalled.1),
        )

    checked :
        (a : A2aAgent) (auth : Option AuthConfig)
        → ServedAt net (trim_right b'/' a.spec.url) primary_path (serve std srv trim_space f)
        → ((check_with_auth std net a auth).0.healthy ≡ true)
          × ((check_with_auth std net a auth).0.card ≡ some (agent_card std f))
    unfolding check_with_auth fetch_card_with_auth
    checked a auth at =
        let (x, card, e) = fetched (trim_right b'/' a.spec.url) (headers_of std net auth) at in
        rw (fetch_card-primary std net a.spec.url _ x e, fetch_card_with_auth)
          (refl, ap (λ c. some c) card)

    CardOk-some :
        (a : A2aAgent) (card : AgentCard) (o : Option AgentCard)
        → o ≡ some card
        → check_card_match std a card ≡ ""
        → CardOk std a o
    CardOk-some a card o e h = rw e h

    module _ {C Sel : Type 0} (K : KubeClient C Sel) (U : ControllerUtil) (now : Time) where
      -- Take a resource below whose URL the network reaches the path of the example agent's card, and
      -- whose spec says nothing else than that card. If no other agent has its URL, it is enabled, and
      -- approved if the policy asks for that, then the reconciler writes a status of it with phase
      -- Ready, whatever it was before, also where the policy asks for health checks and for a
      -- matching card.
      pub reconcile_live-HelloAgent :
          (found : A2aAgent) (w : World C)
          → Describes found f
          → ServedAt net (trim_right b'/' found.spec.url) primary_path (serve std srv trim_space f)
          → check_url_conflict std K w.cluster found ≡ ""
          → found.spec.enabled ≡ true
          → (requires_approval (get_registry_config K w.cluster) ≡ true → is_approved found ≡ true)
          → EndsReady std K net U now found w (reconcile_live std K U net now found w)
      reconcile_live-HelloAgent found w d at unique enabled approved =
          let (healthy, card) = checked found (build_auth_config K w.cluster found) at in
          reconcile_live-Ready std K net U now found w (record {
            no_conflict = unique;
            enabled = enabled;
            approved = approved;
            checked = inr (
              healthy,
              λ _. CardOk-some found _ _ card (
                  (check_card_match_iff std found (agent_card std f)).1
                    (described-CardAgrees found d)),
            );
          })
