-- ===== src/System/Refinement.antt =====
-- The handlers of the API do what the directory says.
use a2a_registry.Common.{
  String, List, [], ◌∷◌, false, ◌||◌, Option, none, some, Result, ok, err, ◌==◌, ◌≡◌, refl, ap, ◌∙◌,
  arith, inl, inr, Result-cases, Bool-cases,
}
use a2a_registry.Api.{Time, A2aAgent, A2aRegistry}
use a2a_registry.GoStrings.{trim_suffix}
use a2a_registry.Platform.{Std, KubeClient, KubeError, World}
use a2a_registry.Handler.Http.{Request, Response}
use a2a_registry.Handler.Names.{extract_name_from_path}
use a2a_registry.Handler.Query.{list_agents, search_agents}
use a2a_registry.Handler.Query.Lookup.{agents_path, get_agent, get_agent_card, well_known}
use a2a_registry.Handler.Register.{
  RegisterRequest, new_agent, create_unless_held, register_request, register_agent, delete_named,
  deregister_agent, approve, approve_found, approve_agent,
}
use a2a_registry.Handler.Config.{UpdateConfigRequest, get_config, update_first, update_config}
use a2a_registry.Server.Routes.{
  Route, dashboard, page_not_found, agent_card, register, list, deregister, get_card, get,
  put_config, show_config, search, route,
}
use a2a_registry.Server.{Server, handle, serve}
use a2a_registry.System.Directory.{
  Directory, DirectoryStore, changes_agents, named, named_to_approve, Serves, refused, answered,
  added, removed, terminating, approved_one,
}

module _ {C Sel : Type 0} (std : Std) (K : KubeClient C Sel) (abs : C → Directory)
    (store : DirectoryStore K abs) (decode_register : String → Result String RegisterRequest)
    (decode_update : String → Result String UpdateConfigRequest) (now : Time) where
  abbrev Does : Request → World C → Route → Response × World C → Type 0
  Does r w to x = Serves std decode_register now r (abs w.cluster) to x.0.status (abs x.1.cluster)

  create-Does :
      (r : Request) (req : RegisterRequest) (w : World C) (o : Option A2aAgent)
      → decode_register r.body ≡ ok req
      → (req.name == "" || req.url == "") ≡ false
      → Does r w register (create_unless_held std K req o w)
  create-Does r req w (some a) e good = refused (omega arith)
  create-Does r req w none e good =
      elim (Result-cases (K.create_agent w.cluster (new_agent std req)).0) [
        | inl (b, sent) ↦
            let (free, stored) = store.create_agent w.cluster (new_agent std req) b sent in
            rw (sent, stored) (added req b e good free)
        | inr (x, sent) ↦
            rw (sent, store.create_failed w.cluster (new_agent std req) x sent)
              (refused (omega arith))
      ]

  register_agent-Does :
      (r : Request) (w : World C) → Does r w register (register_agent std K decode_register r w)
  unfolding register_agent register_request
  register_agent-Does r w = elim (Result-cases (decode_register r.body)) [
    | inr (x, e) ↦ rw (e, register_agent) (refused (omega arith))
    | inl (req, e) ↦ elim (Bool-cases (req.name == "" || req.url == "")) [
      | inl bad ↦ rw (e, bad, register_agent, register_request) (refused (omega arith))
      | inr good ↦ rw (e, good, register_agent, register_request) (create-Does r req w _ e good)
    ]
  ]

  delete_named-Does :
      (r : Request) (w : World C) → Does r w deregister (delete_named std K (named r) w)
  delete_named-Does r w = elim (Result-cases (K.delete_agent w.cluster (named r)).0) [
    | inr (x, sent) ↦
        rw (sent, store.delete_failed w.cluster (named r) x sent) (refused (omega arith))
    | inl (u, sent) ↦
        let (a, held, after) = store.delete_agent w.cluster (named r) u sent in
        elim after [
          | inl gone ↦ rw (sent, gone) (removed a held)
          | inr (t, marked) ↦ rw (sent, marked) (terminating a t held)
        ]
  ]

  deregister_agent-Does :
      (r : Request) (w : World C) → Does r w deregister (deregister_agent std K r w)
  unfolding deregister_agent
  deregister_agent-Does r w = elim (Bool-cases (extract_name_from_path r.path agents_path == "")) [
    | inl none_given ↦ rw (none_given, deregister_agent) (refused (omega arith))
    | inr given ↦ rw (given, deregister_agent) (delete_named-Does r w)
  ]

  approve_found-Does :
      (r : Request) (x : Result KubeError A2aAgent) (w : World C)
      → K.get_agent w.cluster (named_to_approve r) ≡ x
      → Does r w Route.approve (approve_found std K now x w)
  unfolding approve
  approve_found-Does r (err e) w read = refused (omega arith)
  approve_found-Does r (ok a) w read =
      elim (Result-cases (K.status_update_agent w.cluster (approve now a)).0) [
        | inr (x, sent) ↦
            rw (sent, store.status_update_failed w.cluster (approve now a) x sent)
              (refused (omega arith))
        | inl (b, sent) ↦
            let own = store.get_agent_key w.cluster (named_to_approve r) a read in
            rw
              (
                sent,
                store.status_update_agent w.cluster (approve now a) b a sent
                    (ap (K.get_agent w.cluster) own ∙ read),
                own,
              )
              (approved_one a (store.get_agent w.cluster (named_to_approve r) a read))
      ]

  approve_agent-Does :
      (r : Request) (w : World C) → Does r w Route.approve (approve_agent std K now r w)
  unfolding approve_agent
  approve_agent-Does r w =
      elim (Bool-cases (trim_suffix (extract_name_from_path r.path agents_path) "/approve" == "")) [
        | inl none_given ↦ rw (none_given, approve_agent) (refused (omega arith))
        | inr given ↦ rw (given, approve_agent) (approve_found-Does r _ w refl)
      ]

  update_first-same :
      (req : UpdateConfigRequest) (x : Result KubeError (List A2aRegistry)) (w : World C)
      → abs (update_first K req x w).1.cluster ≡ abs w.cluster
  update_first-same req (err e) w = refl
  update_first-same req (ok []) w = refl
  update_first-same req (ok (g ∷ gs)) w = store.update_registry w.cluster _

  update_config-same :
      (r : Request) (w : World C)
      → abs (update_config K decode_update r w).1.cluster ≡ abs w.cluster
  unfolding update_config
  update_config-same r w = elim (Result-cases (decode_update r.body)) [
    | inr (x, e) ↦ rw (e, update_config) refl
    | inl (req, e) ↦ rw (e, update_config) (update_first-same req _ w)
  ]

  get_agent-same : (r : Request) (w : World C) → abs (get_agent K r w).1.cluster ≡ abs w.cluster
  unfolding get_agent
  get_agent-same r w = elim (Bool-cases (extract_name_from_path r.path agents_path == "")) [
    | inl none_given ↦ rw (none_given, get_agent) refl
    | inr given ↦ rw (given, get_agent) refl
  ]

  get_agent_card-same :
      (r : Request) (w : World C) → abs (get_agent_card K r w).1.cluster ≡ abs w.cluster
  unfolding get_agent_card
  get_agent_card-same r w =
      elim (Bool-cases (trim_suffix (extract_name_from_path r.path agents_path) "/card" == "")) [
        | inl none_given ↦ rw (none_given, get_agent_card) refl
        | inr given ↦ rw (given, get_agent_card) refl
      ]

  unchanged :
      (r : Request) (w : World C) (to : Route) (x : Response × World C)
      → changes_agents to ≡ false
      → abs x.1.cluster ≡ abs w.cluster
      → Does r w to x
  unchanged r w to x reads same = rw same (answered reads)

  handle-Does :
      (s : Server) (to : Route) (r : Request) (w : World C)
      → Does r w to (handle std K decode_register decode_update now s to r w)
  unfolding handle well_known list_agents search_agents get_config
  handle-Does s register r w = register_agent-Does r w
  handle-Does s deregister r w = deregister_agent-Does r w
  handle-Does s Route.approve r w = approve_agent-Does r w
  handle-Does s put_config r w =
      unchanged r w put_config (update_config K decode_update r w) refl (update_config-same r w)
  handle-Does s get_card r w =
      unchanged r w get_card (get_agent_card K r w) refl (get_agent_card-same r w)
  handle-Does s get r w = unchanged r w get (get_agent K r w) refl (get_agent-same r w)
  handle-Does s dashboard r w = answered refl
  handle-Does s page_not_found r w = answered refl
  handle-Does s agent_card r w = answered refl
  handle-Does s list r w = answered refl
  handle-Does s show_config r w = answered refl
  handle-Does s search r w = answered refl

  -- If the API server keeps agents as documented, then every request that the registry answers is an
  -- operation of a directory from keys to agents: a request to a route that only reads leaves it as
  -- it is; a registration adds one agent under a key that was free and answers with 201; a
  -- deregistration removes the agent that it names, or marks it for deletion, and answers with 204; an
  -- approval approves the agent that it names and answers with 200; and every other answer of
  -- these three has a status of at least 400 and leaves the directory as it is.
  pub serve-Serves :
      (s : Server) (r : Request) (w : World C)
      → (let x = serve std K decode_register decode_update now s r w in
          Serves std decode_register now r
            (abs w.cluster)
            (route r.method r.path)
            x.0.status
            (abs x.1.cluster))
  unfolding serve
  serve-Serves s r w = handle-Does s (route r.method r.path) r w
