-- ===== src/DeepCopy/RegistryTypes.antt =====
-- The deep copies of a2aregistry_types.go.
pub mod Parts
pub mod Laws
use a2a_registry.Api.{RegistrationConfig, HealthCheckDefaults}
use a2a_registry.DeepCopy.Memory.{Ref, M, pure, ◌>>=◌}
use a2a_registry.DeepCopy.Structs.{
  DiscoveryStruct, ApiServerStruct, RegistrySpecStruct, RegistryStatusStruct, RegistryStruct,
  ListStruct,
}
use a2a_registry.DeepCopy.Cells.{
  Cell, a_local_ref, a_conditions, a_discovery, a_api_server, a_registration, a_health_defaults,
  a_registry_spec, a_registry_status, a_registry, a_registries, a_registry_list,
}
use a2a_registry.DeepCopy.Copies.{copy_ptr, copy_slice, as_object}
use a2a_registry.DeepCopy.AgentTypes.{MetaV1, copy_strings}

module _ {O L : Type 0} where
  unfoldable pub copy_discovery : DiscoveryStruct → M (Cell O L) DiscoveryStruct
  copy_discovery s = do
    namespaces ← copy_strings s.namespaces
    pure (record s { namespaces = namespaces })

  unfoldable pub copy_api_server : ApiServerStruct → M (Cell O L) ApiServerStruct
  copy_api_server s = do
    tls_cert_ref ← copy_ptr a_local_ref pure s.tls_cert_ref
    pure (record s { tls_cert_ref = tls_cert_ref })

  abbrev pub copy_registration : RegistrationConfig → M (Cell O L) RegistrationConfig
  copy_registration = pure

  abbrev pub copy_health_defaults : HealthCheckDefaults → M (Cell O L) HealthCheckDefaults
  copy_health_defaults = pure

  -- The policies are copied with the struct.
  unfoldable pub copy_registry_spec : RegistrySpecStruct → M (Cell O L) RegistrySpecStruct
  copy_registry_spec s = do
    discovery ← copy_discovery s.discovery
    api_server ← copy_api_server s.api_server
    pure (record s { discovery = discovery; api_server = api_server })

  module _ (V : MetaV1 O L) where
    unfoldable pub copy_registry_status : RegistryStatusStruct → M (Cell O L) RegistryStatusStruct
    copy_registry_status s = do
      conditions ← copy_slice a_conditions V.copy_condition s.conditions
      pure (record s { conditions = conditions })

    unfoldable pub copy_registry : RegistryStruct O → M (Cell O L) (RegistryStruct O)
    copy_registry s = do
      metadata ← V.copy_object_meta s.metadata
      spec ← copy_registry_spec s.spec
      status ← copy_registry_status s.status
      pure (record s { metadata = metadata; spec = spec; status = status })

    unfoldable pub copy_registry_list : ListStruct L → M (Cell O L) (ListStruct L)
    copy_registry_list s = do
      metadata ← V.copy_list_meta s.metadata
      items ← copy_slice a_registries copy_registry s.items
      pure (record s { metadata = metadata; items = items })

    abbrev pub deep_copy_registry : Ref → M (Cell O L) Ref
    deep_copy_registry = copy_ptr a_registry copy_registry

    abbrev pub deep_copy_registry_object : Ref → M (Cell O L) Ref
    deep_copy_registry_object p = deep_copy_registry p >>= as_object

    abbrev pub deep_copy_registry_list : Ref → M (Cell O L) Ref
    deep_copy_registry_list = copy_ptr a_registry_list copy_registry_list

    abbrev pub deep_copy_registry_list_object : Ref → M (Cell O L) Ref
    deep_copy_registry_list_object p = deep_copy_registry_list p >>= as_object

    abbrev pub deep_copy_registry_status : Ref → M (Cell O L) Ref
    deep_copy_registry_status = copy_ptr a_registry_status copy_registry_status

  abbrev pub deep_copy_registry_spec : Ref → M (Cell O L) Ref
  deep_copy_registry_spec = copy_ptr a_registry_spec copy_registry_spec

  abbrev pub deep_copy_discovery : Ref → M (Cell O L) Ref
  deep_copy_discovery = copy_ptr a_discovery copy_discovery

  abbrev pub deep_copy_api_server : Ref → M (Cell O L) Ref
  deep_copy_api_server = copy_ptr a_api_server copy_api_server

  abbrev pub deep_copy_registration : Ref → M (Cell O L) Ref
  deep_copy_registration = copy_ptr a_registration copy_registration

  abbrev pub deep_copy_health_defaults : Ref → M (Cell O L) Ref
  deep_copy_health_defaults = copy_ptr a_health_defaults copy_health_defaults
