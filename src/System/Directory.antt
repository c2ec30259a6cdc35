-- ===== src/System/Directory.antt =====
-- The API as a directory of agents: what each request does to it, and with which status it answers.
use a2a_registry.Common.{
  ℕ, ◌≤◌, String, Bool, true, false, ◌&&◌, ◌||◌, Option, none, some, Result, ok, err, ◌==◌, ◌≡◌,
  ◌⊎◌, if◌then◌else◌,
}
use a2a_registry.Api.{Time, ObjectKey, A2aAgent, A2aRegistry}
use a2a_registry.GoStrings.{trim_suffix}
use a2a_registry.Platform.{Std, KubeClient, KubeError, key_of}
use a2a_registry.Handler.Http.{Request}
use a2a_registry.Handler.Names.{extract_name_from_path}
use a2a_registry.Handler.Query.Lookup.{agents_path, default_namespace, key_in}
use a2a_registry.Handler.Register.{RegisterRequest, new_agent, approve}
use a2a_registry.Server.Routes.{Route, register, deregister}

abbrev pub Directory : Type 0
Directory = ObjectKey → Option A2aAgent

abbrev pub same_key : ObjectKey → ObjectKey → Bool
same_key j k = j.name == k.name && j.namespace == k.namespace

abbrev pub insert : ObjectKey → A2aAgent → Directory → Directory
insert k a d j = if same_key j k then some a else d j

abbrev pub remove : ObjectKey → Directory → Directory
remove k d j = if same_key j k then none else d j

abbrev pub set_deletion_timestamp : Time → A2aAgent → A2aAgent
set_deletion_timestamp t a = record a {
  metadata = record a.metadata { deletion_timestamp = some t };
}

-- How the API server keeps the agents, if `abs` gives the directory of a cluster: a call that fails
-- leaves it as it is. A create needs a free key; a delete removes the agent, or gives it a deletion
-- timestamp, and it stays until it has no finalizers; a write of a status changes nothing else. A
-- client that reads from a cache does this once the cache has caught up.
pub record DirectoryStore {C Sel : Type 0} (K : KubeClient C Sel) (abs : C → Directory)
    : Type 0 where
  pub get_agent :
      (c : C) (key : ObjectKey) (a : A2aAgent) → K.get_agent c key ≡ ok a → abs c key ≡ some a
  pub get_agent_key :
      (c : C) (key : ObjectKey) (a : A2aAgent) → K.get_agent c key ≡ ok a → key_of a.metadata ≡ key
  pub create_failed :
      (c : C) (a : A2aAgent) (e : KubeError)
      → (K.create_agent c a).0 ≡ err e
      → abs (K.create_agent c a).1 ≡ abs c
  pub create_agent :
      (c : C) (a b : A2aAgent)
      → (K.create_agent c a).0 ≡ ok b
      → (abs c (key_of a.metadata) ≡ none)
        × (abs (K.create_agent c a).1 ≡ insert (key_of a.metadata) b (abs c))
  pub delete_failed :
      (c : C) (key : ObjectKey) (e : KubeError)
      → (K.delete_agent c key).0 ≡ err e
      → abs (K.delete_agent c key).1 ≡ abs c
  pub delete_agent :
      (c : C) (key : ObjectKey) (u : Unit {0})
      → (K.delete_agent c key).0 ≡ ok u
      → (a : A2aAgent) × (abs c key ≡ some a)
        × ((abs (K.delete_agent c key).1 ≡ remove key (abs c))
            ⊎ ((t : Time) × (abs (K.delete_agent c key).1
                  ≡ insert key (set_deletion_timestamp t a) (abs c))))
  pub status_update_failed :
      (c : C) (a : A2aAgent) (e : KubeError)
      → (K.status_update_agent c a).0 ≡ err e
      → abs (K.status_update_agent c a).1 ≡ abs c
  pub status_update_agent :
      (c : C) (a b x : A2aAgent)
      → (K.status_update_agent c a).0 ≡ ok b
      → K.get_agent c (key_of a.metadata) ≡ ok x
      → abs (K.status_update_agent c a).1
        ≡ insert (key_of a.metadata) (record x { status = a.status }) (abs c)
  pub update_registry : (c : C) (g : A2aRegistry) → abs (K.update_registry c g).1 ≡ abs c

-- The keys that a deregistration and an approval name.
abbrev pub named : Request → ObjectKey
named r = key_in default_namespace r (extract_name_from_path r.path agents_path)

abbrev pub named_to_approve : Request → ObjectKey
named_to_approve r =
    key_in "default" r (trim_suffix (extract_name_from_path r.path agents_path) "/approve")

-- The routes that may change agents.
abbrev pub changes_agents : Route → Bool
changes_agents register = true
changes_agents deregister = true
changes_agents Route.approve = true
changes_agents _ = false

module _ (std : Std) (decode_register : String → Result String RegisterRequest) (now : Time) where
  -- What a request to a route does to a directory, with the status of the answer.
  pub data Serves (r : Request) (d : Directory) : Route → ℕ → Directory → Type 0 where
    refused : {to : Route} {status : ℕ} → 400 ≤ status → Serves r d to status d
    answered : {to : Route} {status : ℕ} → changes_agents to ≡ false → Serves r d to status d
    added :
        (req : RegisterRequest) (b : A2aAgent)
        → decode_register r.body ≡ ok req
        → (req.name == "" || req.url == "") ≡ false
        → d (key_of (new_agent std req).metadata) ≡ none
        → Serves r d register 201 (insert (key_of (new_agent std req).metadata) b d)
    removed : (a : A2aAgent) → d (named r) ≡ some a → Serves r d deregister 204 (remove (named r) d)
    terminating :
        (a : A2aAgent) (t : Time)
        → d (named r) ≡ some a
        → Serves r d deregister 204 (insert (named r) (set_deletion_timestamp t a) d)
    approved_one :
        (a : A2aAgent)
        → d (named_to_approve r) ≡ some a
        → Serves r d Route.approve 200 (insert (named_to_approve r) (approve now a) d)
