-- ===== src/Handler/Config.antt =====
-- `Config` and `UpdateConfig` of handler.go.
pub mod Laws
use a2a_registry.Common.{
  String, ◌<>◌, List, [], ◌∷◌, Bool, true, false, Option, none, some, Result, ok, err,
}
use a2a_registry.Common.Int32.{ℤ, pos}
use a2a_registry.Api.{A2aRegistry, A2aRegistrySpec, DiscoveryConfig}
use a2a_registry.Platform.{KubeClient, KubeError, update_reg}
use a2a_registry.Handler.Http.{
  Request, Response, ConfigResponse, Serve, config, text, http_error, json,
}

pub record UpdateConfigRequest : Type 0 where
  pub require_approval : Option Bool
  pub require_health_check : Option Bool
  pub require_card_match : Option Bool
  pub health_check_interval_seconds : Option ℤ
  pub health_check_timeout_seconds : Option ℤ

abbrev pub zero_response : ConfigResponse
zero_response = record {
  require_approval = false;
  require_health_check = false;
  require_card_match = false;
  health_check_interval_seconds = pos 0;
  health_check_timeout_seconds = pos 0;
}

abbrev pub config_of : A2aRegistry → ConfigResponse
config_of g = record {
  require_approval = g.spec.registration.require_approval;
  require_health_check = g.spec.registration.require_health_check;
  require_card_match = g.spec.registration.require_card_match;
  health_check_interval_seconds = g.spec.health_check.interval_seconds;
  health_check_timeout_seconds = g.spec.health_check.timeout_seconds;
}

abbrev pub first_config : Result KubeError (List A2aRegistry) → ConfigResponse
first_config (err e) = zero_response
first_config (ok []) = zero_response
first_config (ok (g ∷ gs)) = config_of g

-- `*p` if the pointer is set, and the old value otherwise.
abbrev pub given_or : {A : Type 0} → Option A → A → A
given_or none old = old
given_or (some new) old = new

unfoldable pub apply_update : UpdateConfigRequest → A2aRegistry → A2aRegistry
apply_update req g = record g {
  spec = record g.spec {
    registration = record {
      require_approval = given_or req.require_approval g.spec.registration.require_approval;
      require_health_check =
          given_or req.require_health_check g.spec.registration.require_health_check;
      require_card_match = given_or req.require_card_match g.spec.registration.require_card_match;
    };
    health_check = record {
      interval_seconds =
          given_or req.health_check_interval_seconds g.spec.health_check.interval_seconds;
      timeout_seconds =
          given_or req.health_check_timeout_seconds g.spec.health_check.timeout_seconds;
    };
  };
}

module _ {C Sel : Type 0} (K : KubeClient C Sel) where
  unfoldable pub get_config : Option DiscoveryConfig → Serve C
  get_config none w = (json (config zero_response), w)
  get_config (some _) w = (json (config (first_config (K.list_registries w.cluster))), w)

  abbrev updated : Result KubeError A2aRegistry → Response
  updated (err e) = http_error 500 ("Failed to update configuration: " <> e.message)
  updated (ok g) = json (text "{\"status\":\"ok\"}")

  abbrev pub update_first : UpdateConfigRequest → Result KubeError (List A2aRegistry) → Serve C
  update_first req (err e) w = (http_error 404 "No A2ARegistry resource found.", w)
  update_first req (ok []) w = (http_error 404 "No A2ARegistry resource found.", w)
  update_first req (ok (g ∷ gs)) w =
      let (x, w') = update_reg K (apply_update req g) w in (updated x, w')

  -- The decoder of the body is `json.Decode` at `UpdateConfigRequest`.
  unfoldable pub update_config : (String → Result String UpdateConfigRequest) → Request → Serve C
  update_config decode r w = elim (decode r.body) [
    | err e ↦ (http_error 400 ("Invalid request body: " <> e), w)
    | ok req ↦ update_first req (K.list_registries w.cluster) w
  ]
