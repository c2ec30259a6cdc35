-- ===== src/System/Requests.antt =====
-- The handlers of the API keep every status coherent.
use a2a_registry.Common.{
  String, List, [], ◌∷◌, Option, none, some, Result, ok, err, Result-cases, inl, inr, Bool-cases,
  ◌==◌, ◌||◌, ◌≡◌, refl,
}
use a2a_registry.Api.{Time, ObjectKey, A2aAgent, A2aAgentStatus, A2aRegistry}
use a2a_registry.Platform.{Std, KubeClient, KubeError, World, delete}
use a2a_registry.Handler.Http.{Request}
use a2a_registry.GoStrings.{trim_suffix}
use a2a_registry.Handler.Names.{extract_name_from_path}
use a2a_registry.Handler.Query.Lookup.{
  agents_path, default_namespace, key_in, get_agent, get_agent_card, well_known,
}
use a2a_registry.Handler.Query.{list_agents, search_agents}
use a2a_registry.Handler.Register.{
  RegisterRequest, new_agent, created, create_unless_held, register_request, register_agent,
  deleted, delete_named, deregister_agent, approve, approve_found, approve_agent,
}
use a2a_registry.Handler.Config.{UpdateConfigRequest, get_config, update_first, update_config}
use a2a_registry.Server.Routes.{
  Route, dashboard, page_not_found, agent_card, register, list, deregister, get_card, get,
  put_config, show_config, search, route,
}
use a2a_registry.Server.{Server, handle, serve}
use a2a_registry.System.Keeps.{StatusStore, AllHeld}
use a2a_registry.System.Coherence.{IsCoherent, zero_status-IsCoherent, approve-IsCoherent}

module _ {C Sel : Type 0} {K : KubeClient C Sel} {Holds : C → A2aAgentStatus → Type 0}
    (store : StatusStore K Holds) (std : Std)
    (decode_register : String → Result String RegisterRequest)
    (decode_update : String → Result String UpdateConfigRequest) (now : Time) where
  abbrev Held : C → Type 0
  Held = AllHeld store IsCoherent

  created-Held :
      (x : Result KubeError A2aAgent) (w : World C)
      → Held w.cluster
      → Held (created std K x w).1.cluster
  created-Held (ok a) w all = all
  created-Held (err e) w all = all

  create_unless_held-Held :
      (req : RegisterRequest) (o : Option A2aAgent) (w : World C)
      → Held w.cluster
      → Held (create_unless_held std K req o w).1.cluster
  unfolding new_agent
  create_unless_held-Held req (some a) w all = all
  create_unless_held-Held req none w all = created-Held _ _ λ s h.
      elim (store.create_agent w.cluster (new_agent std req) s h) [
        | inl held ↦ all s held
        | inr e ↦ rw e zero_status-IsCoherent
      ]

  register_agent-Held :
      (r : Request) (w : World C)
      → Held w.cluster
      → Held (register_agent std K decode_register r w).1.cluster
  unfolding register_agent register_request
  register_agent-Held r w all = elim (Result-cases (decode_register r.body)) [
    | inr (x, e) ↦ rw (e, register_agent) all
    | inl (req, e) ↦ elim (Bool-cases (req.name == "" || req.url == "")) [
      | inl bad ↦ rw (e, bad, register_agent, register_request) all
      | inr good ↦
          rw (e, good, register_agent, register_request) (create_unless_held-Held req _ w all)
    ]
  ]

  deleted-Held :
      (x : Result KubeError (Unit {0})) (w : World C)
      → Held w.cluster
      → Held (deleted std K x w).1.cluster
  deleted-Held (ok a) w all = all
  deleted-Held (err e) w all = all

  delete_named-Held :
      (key : ObjectKey) (w : World C) → Held w.cluster → Held (delete_named std K key w).1.cluster
  delete_named-Held key w all =
      deleted-Held (K.delete_agent w.cluster key).0 (delete K key w).1
        (λ s h. all s (store.delete_agent w.cluster key s h))

  deregister_agent-Held :
      (r : Request) (w : World C) → Held w.cluster → Held (deregister_agent std K r w).1.cluster
  unfolding deregister_agent
  deregister_agent-Held r w all =
      elim (Bool-cases (extract_name_from_path r.path agents_path == "")) [
        | inl none_given ↦ rw (none_given, deregister_agent) all
        | inr given ↦
            rw (given, deregister_agent)
              (delete_named-Held
                (key_in default_namespace r (extract_name_from_path r.path agents_path)) w all)
      ]

  approve_found-Held :
      (x : Result KubeError A2aAgent) (w : World C)
      → ((a : A2aAgent) → x ≡ ok a → IsCoherent a.status)
      → Held w.cluster
      → Held (approve_found std K now x w).1.cluster
  approve_found-Held (err e) w c all = all
  approve_found-Held (ok a) w c all = λ s h.
      elim (store.status_update_agent w.cluster (approve now a) s h) [
        | inl held ↦ all s held
        | inr e ↦ rw e (approve-IsCoherent now a (c a refl))
      ]

  approve_agent-Held :
      (r : Request) (w : World C) → Held w.cluster → Held (approve_agent std K now r w).1.cluster
  unfolding approve_agent
  approve_agent-Held r w all =
      elim (Bool-cases (trim_suffix (extract_name_from_path r.path agents_path) "/approve" == "")) [
        | inl none_given ↦ rw (none_given, approve_agent) all
        | inr given ↦
            rw (given, approve_agent)
              (approve_found-Held _ w (λ a e. all a.status (store.get_agent w.cluster _ a e)) all)
      ]

  update_first-Held :
      (req : UpdateConfigRequest) (x : Result KubeError (List A2aRegistry)) (w : World C)
      → Held w.cluster
      → Held (update_first K req x w).1.cluster
  update_first-Held req (err e) w all = all
  update_first-Held req (ok []) w all = all
  update_first-Held req (ok (g ∷ gs)) w all = λ s h. all s (store.update_registry w.cluster _ s h)

  update_config-Held :
      (r : Request) (w : World C)
      → Held w.cluster
      → Held (update_config K decode_update r w).1.cluster
  unfolding update_config
  update_config-Held r w all = elim (Result-cases (decode_update r.body)) [
    | inr (x, e) ↦ rw (e, update_config) all
    | inl (req, e) ↦ rw (e, update_config) (update_first-Held req _ w all)
  ]

  get_agent-Held : (r : Request) (w : World C) → Held w.cluster → Held (get_agent K r w).1.cluster
  unfolding get_agent
  get_agent-Held r w all = elim (Bool-cases (extract_name_from_path r.path agents_path == "")) [
    | inl none_given ↦ rw (none_given, get_agent) all
    | inr given ↦ rw (given, get_agent) all
  ]

  get_agent_card-Held :
      (r : Request) (w : World C) → Held w.cluster → Held (get_agent_card K r w).1.cluster
  unfolding get_agent_card
  get_agent_card-Held r w all =
      elim (Bool-cases (trim_suffix (extract_name_from_path r.path agents_path) "/card" == "")) [
        | inl none_given ↦ rw (none_given, get_agent_card) all
        | inr given ↦ rw (given, get_agent_card) all
      ]

  handle-Held :
      (s : Server) (to : Route) (r : Request) (w : World C)
      → Held w.cluster
      → Held (handle std K decode_register decode_update now s to r w).1.cluster
  unfolding handle well_known list_agents search_agents get_config
  handle-Held s register r w all = register_agent-Held r w all
  handle-Held s deregister r w all = deregister_agent-Held r w all
  handle-Held s Route.approve r w all = approve_agent-Held r w all
  handle-Held s put_config r w all = update_config-Held r w all
  handle-Held s dashboard r w all = all
  handle-Held s page_not_found r w all = all
  handle-Held s agent_card r w all = all
  handle-Held s list r w all = all
  handle-Held s get_card r w all = get_agent_card-Held r w all
  handle-Held s get r w all = get_agent-Held r w all
  handle-Held s show_config r w all = all
  handle-Held s search r w all = all

  pub serve-AllHeld :
      (s : Server) (r : Request) (w : World C)
      → AllHeld store IsCoherent w.cluster
      → AllHeld store IsCoherent (serve std K decode_register decode_update now s r w).1.cluster
  unfolding serve
  serve-AllHeld s r w all = handle-Held s (route r.method r.path) r w all
