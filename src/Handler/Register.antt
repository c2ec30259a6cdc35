-- ===== src/Handler/Register.antt =====
-- `RegisterAgent` and `DeregisterAgent` of handler.go, and `ApproveAgent` of dashboard.go.
pub mod Laws
use a2a_registry.Common.{
  String, ◌<>◌, List, [], ◌∷◌, map, Bool, true, ◌||◌, Option, none, some, Result, ok, err, ◌==◌,
  find?, if◌then◌else◌,
}
use a2a_registry.Common.Int32.{pos}
use a2a_registry.Api.{
  Time, ObjectKey, A2aAgent, A2aAgentSpec, A2aAgentSkillSpec, Condition, condition_true,
  zero_status,
}
use a2a_registry.Conditions.{merge_registry_conditions}
use a2a_registry.GoStrings.{trim_suffix}
use a2a_registry.Platform.{
  Std, KubeClient, KubeError, World, create, delete, status_update, metric, registrations_total_inc,
  deregistrations_total_inc, emit,
}
use a2a_registry.Handler.Http.{
  Request, Response, Serve, SkillEntry, entry, text, empty, http_error, json,
}
use a2a_registry.Handler.Names.{generate_k8s_name, extract_name_from_path}
use a2a_registry.Handler.Entry.{agent_to_entry, or_default}
use a2a_registry.Handler.Query.Lookup.{
  agents_path, default_namespace, key_in, agent_not_found, name_required,
}

pub record RegisterRequest : Type 0 where
  pub name : String
  pub namespace : String
  pub description : String
  pub version : String
  pub url : String
  pub skills : List SkillEntry
  pub tags : List String
  pub streaming : Bool
  pub push_notifications : Bool
  pub protocol_version : String

abbrev pub skill_spec : SkillEntry → A2aAgentSkillSpec
skill_spec s = record {
  id = s.id;
  name = s.name;
  description = s.description;
  tags = [];
  examples = [];
}

-- The object that the handler creates.
unfoldable pub new_agent : Std → RegisterRequest → A2aAgent
new_agent std req = record {
  metadata = record {
    name = generate_k8s_name std req.name;
    namespace = or_default req.namespace default_namespace;
    generation = pos 0;
    deletion_timestamp = none;
    finalizers = [];
  };
  spec = record {
    name = req.name;
    description = req.description;
    version = req.version;
    url = req.url;
    capabilities = record {
      streaming = req.streaming;
      push_notifications = req.push_notifications;
    };
    skills = map skill_spec req.skills;
    authentication = none;
    default_input_modes = [];
    default_output_modes = [];
    provider = none;
    protocol_version = req.protocol_version;
    tags = req.tags;
    health_check = none;
    enabled = true;
  };
  status = zero_status;
}

-- The first agent with the URL; none too if the list fails.
abbrev pub holder_of_url : String → Result KubeError (List A2aAgent) → Option A2aAgent
holder_of_url url (err e) = none
holder_of_url url (ok items) = find? (λ a. a.spec.url == url) items

abbrev pub approved_condition : Time → A2aAgent → Condition
approved_condition now a = record {
  type = "Approved";
  status = condition_true;
  observed_generation = a.metadata.generation;
  last_transition_time = now;
  reason = "Approved";
  message = "Agent has been approved via dashboard.";
}

unfoldable pub approve : Time → A2aAgent → A2aAgent
approve now a = record a {
  status = record a.status {
    conditions = merge_registry_conditions a.status.conditions (approved_condition now a);
  };
}

module _ {C Sel : Type 0} (std : Std) (K : KubeClient C Sel) where
  -- The answer to the create call.
  abbrev pub created : Result KubeError A2aAgent → Serve C
  created (err e) w = (http_error 500 ("Failed to register agent: " <> e.message), w)
  created (ok a) w = (
    record { status = 201; payload = entry (agent_to_entry a) },
    (emit (metric registrations_total_inc) w).1,
  )

  abbrev pub create_unless_held : RegisterRequest → Option A2aAgent → Serve C
  create_unless_held req (some a) w = (
    http_error 409 (
        "URL "
        <> (std.quote req.url
            <> (" is already registered by agent " <> std.quote a.metadata.name))),
    w,
  )
  create_unless_held req none w = let (r, w') = create K (new_agent std req) w in created r w'

  -- After the body is decoded.
  unfoldable pub register_request : RegisterRequest → Serve C
  register_request req w =
      if req.name == "" || req.url == ""
      then (http_error 400 "name and url are required", w)
      else create_unless_held req (holder_of_url req.url (K.list_agents w.cluster [])) w

  -- The decoder of the body is `json.Decode` at `RegisterRequest`.
  unfoldable pub register_agent : (String → Result String RegisterRequest) → Request → Serve C
  register_agent decode r w = elim (decode r.body) [
    | err e ↦ (http_error 400 ("Invalid request body: " <> e), w)
    | ok req ↦ register_request req w
  ]

  abbrev pub deleted : Result KubeError (Unit {0}) → Serve C
  deleted (err e) w = (http_error 500 ("Failed to deregister agent: " <> e.message), w)
  deleted (ok _) w =
      (record { status = 204; payload = empty }, (emit (metric deregistrations_total_inc) w).1)

  abbrev pub delete_named : ObjectKey → Serve C
  delete_named key w = let (x, w') = delete K key w in deleted x w'

  unfoldable pub deregister_agent : Request → Serve C
  deregister_agent r w =
      let name = extract_name_from_path r.path agents_path in
      if name == "" then (name_required, w) else delete_named (key_in default_namespace r name) w

  abbrev approved : Result KubeError A2aAgent → Response
  approved (err e) = http_error 500 ("Failed to approve agent: " <> e.message)
  approved (ok a) = json (text "{\"status\":\"approved\"}")

  abbrev pub approve_found : Time → Result KubeError A2aAgent → Serve C
  approve_found now (err e) w = (agent_not_found e, w)
  approve_found now (ok a) w = let (x, w') = status_update K (approve now a) w in (approved x, w')

  unfoldable pub approve_agent : Time → Request → Serve C
  approve_agent now r w =
      let name = trim_suffix (extract_name_from_path r.path agents_path) "/approve" in
      if name == ""
      then (name_required, w)
      else approve_found now (K.get_agent w.cluster (key_in "default" r name)) w
