-- ===== src/Handler/Config/Laws.antt =====
-- What an update of the configuration changes.
use a2a_registry.Common.{
  String, List, [], ◌∷◌, Option, none, some, Result, ok, err, ◌≡◌, refl, ◌⊎◌, inl, inr,
  Result-cases,
}
use a2a_registry.Api.{A2aRegistry}
use a2a_registry.Platform.{KubeClient, KubeError, World, wrote, update_registry}
use a2a_registry.Handler.Http.{Request, Response}
use a2a_registry.Handler.Config.{
  UpdateConfigRequest, apply_update, update_config, update_first, config_of, given_or,
}

-- The value is the given one, or the old one if none is given.
pub data Chosen {A : Type 0} (old : A) : Option A → A → Type 0 where
  given : {new : A} → Chosen old (some new) new
  kept : Chosen old none old

-- The two registries agree but for the settings of the request, which the second one has.
pub record Updates (req : UpdateConfigRequest) (g h : A2aRegistry) : Type 0 where
  pub metadata : h.metadata ≡ g.metadata
  pub status : h.status ≡ g.status
  pub discovery : h.spec.discovery ≡ g.spec.discovery
  pub api_server : h.spec.api_server ≡ g.spec.api_server
  pub approval :
      Chosen (config_of g).require_approval req.require_approval (config_of h).require_approval
  pub health :
      Chosen
        (config_of g).require_health_check
        req.require_health_check
        (config_of h).require_health_check
  pub card_match :
      Chosen
        (config_of g).require_card_match
        req.require_card_match
        (config_of h).require_card_match
  pub interval :
      Chosen
        (config_of g).health_check_interval_seconds
        req.health_check_interval_seconds
        (config_of h).health_check_interval_seconds
  pub timeout :
      Chosen
        (config_of g).health_check_timeout_seconds
        req.health_check_timeout_seconds
        (config_of h).health_check_timeout_seconds

chosen : {A : Type 0} (old : A) (o : Option A) → Chosen old o (given_or o old)
chosen old none = kept
chosen old (some new) = given

apply_update-Updates :
    (req : UpdateConfigRequest) (g : A2aRegistry) → Updates req g (apply_update req g)
unfolding apply_update
apply_update-Updates req g = record {
  metadata = refl;
  status = refl;
  discovery = refl;
  api_server = refl;
  approval = chosen _ req.require_approval;
  health = chosen _ req.require_health_check;
  card_match = chosen _ req.require_card_match;
  interval = chosen _ req.health_check_interval_seconds;
  timeout = chosen _ req.health_check_timeout_seconds;
}

module _ {C Sel : Type 0} (K : KubeClient C Sel) where
  -- One update call, of the first listed registry with the settings of the request.
  pub record Sent (req : UpdateConfigRequest) (w : World C) (resp : Response) (w' : World C)
      : Type 0 where
    pub first : A2aRegistry
    pub others : List A2aRegistry
    pub listed : K.list_registries w.cluster ≡ ok (first ∷ others)
    pub new : A2aRegistry
    pub updates : Updates req first new
    pub cluster : w'.cluster ≡ (K.update_registry w.cluster new).1
    pub trace : w'.trace ≡ wrote (update_registry new) ∷ w.trace
    pub outcome :
        ((h : A2aRegistry) × ((K.update_registry w.cluster new).0 ≡ ok h) × (resp.status ≡ 200))
        ⊎ ((e : KubeError) × ((K.update_registry w.cluster new).0 ≡ err e) × (resp.status ≡ 500))

  update_first-cases :
      (req : UpdateConfigRequest) (w : World C) (listed : Result KubeError (List A2aRegistry))
      → K.list_registries w.cluster ≡ listed
      → (((update_first K req listed w).0.status ≡ 404) × ((update_first K req listed w).1 ≡ w))
        ⊎ Sent req w (update_first K req listed w).0 (update_first K req listed w).1
  update_first-cases req w (err e) l = inl (refl, refl)
  update_first-cases req w (ok []) l = inl (refl, refl)
  update_first-cases req w (ok (g ∷ gs)) l = inr (record {
    first = g;
    others = gs;
    listed = l;
    new = apply_update req g;
    updates = apply_update-Updates req g;
    cluster = refl;
    trace = refl;
    outcome = elim (Result-cases (K.update_registry w.cluster (apply_update req g)).0) [
      | inl (h, e) ↦ inl (h, e, (rw e))
      | inr (x, e) ↦ inr (x, e, (rw e))
    ];
  })

  -- An update of the configuration whose body was read has one of two outcomes. Either nothing has
  -- changed, and the answer is 404. Or one update call was made, of the first listed registry, in
  -- which each setting that the request gives is set and all else is as it was, and the answer is
  -- 200 if the server took it and 500 if not.
  pub update_config-cases :
      (decode : String → Result String UpdateConfigRequest) (r : Request) (w : World C)
      (req : UpdateConfigRequest)
      → decode r.body ≡ ok req
      → (((update_config K decode r w).0.status ≡ 404) × ((update_config K decode r w).1 ≡ w))
        ⊎ Sent req w (update_config K decode r w).0 (update_config K decode r w).1
  unfolding update_config
  update_config-cases decode r w req decoded =
      rw (decoded, update_config) (update_first-cases req w (K.list_registries w.cluster) refl)
