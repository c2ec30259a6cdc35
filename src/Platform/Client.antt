-- ===== src/Platform/Client.antt =====
-- controller-runtime's `client.Client` at the kinds that the program uses, over an unknown type `C`
-- of cluster states and an unknown type `Sel` of parsed label selectors. A write returns the object
-- that the server sends back, which Go's client decodes into its argument.
use a2a_registry.Common.{String, Option, List, Result, Bool}
use a2a_registry.Api.{ObjectKey, A2aAgent, A2aRegistry}

-- An error with the answer of `errors.IsNotFound` and its text.
pub record KubeError : Type 0 where
  pub is_not_found : Bool
  pub message : String

pub data ListOption (Sel : Type 0) : Type 0 where
  in_namespace : String → ListOption Sel
  matching_labels_selector : Sel → ListOption Sel

pub record KubeClient (C Sel : Type 0) : Type 0 where
  pub get_agent : C → ObjectKey → Result KubeError A2aAgent
  pub list_agents : C → List (ListOption Sel) → Result KubeError (List A2aAgent)
  pub create_agent : C → A2aAgent → Result KubeError A2aAgent × C
  pub update_agent : C → A2aAgent → Result KubeError A2aAgent × C
  pub status_update_agent : C → A2aAgent → Result KubeError A2aAgent × C
  pub delete_agent : C → ObjectKey → Result KubeError (Unit {0}) × C
  pub get_registry : C → ObjectKey → Result KubeError A2aRegistry
  pub list_registries : C → Result KubeError (List A2aRegistry)
  pub update_registry : C → A2aRegistry → Result KubeError A2aRegistry × C
  pub status_update_registry : C → A2aRegistry → Result KubeError A2aRegistry × C
  -- the data of a secret
  pub get_secret : C → ObjectKey → Result KubeError (List (String × String))
  -- `labels.Parse`
  pub parse_selector : String → Option Sel

-- `controllerutil`'s functions, on the list of finalizers.
pub record ControllerUtil : Type 0 where
  pub contains_finalizer : List String → String → Bool
  pub add_finalizer : List String → String → List String
  pub remove_finalizer : List String → String → List String
