-- ===== src/DeepCopy/RegistryTypes/Parts.antt =====
-- What the parts of a registry in memory represent, and that their copies are deep.
use a2a_registry.Common.{ℕ, ◌≤◌, ◌≡◌}
use a2a_registry.Api.{DiscoveryConfig, ApiServerConfig, A2aRegistrySpec}
use a2a_registry.DeepCopy.Memory.{Heap, Sound, Grown-refl, Yields, Yields-pure}
use a2a_registry.DeepCopy.Structs.{DiscoveryStruct, ApiServerStruct, RegistrySpecStruct}
use a2a_registry.DeepCopy.Cells.{Cell, a_local_ref}
use a2a_registry.DeepCopy.Copies.{IsCopier, Plain, PtrRep, pure-IsCopier, copy_ptr-IsCopier}
use a2a_registry.DeepCopy.Slices.{again, field}
use a2a_registry.DeepCopy.AgentTypes.Parts.{Strings, copy_strings-IsCopier}
use a2a_registry.DeepCopy.RegistryTypes.{copy_discovery, copy_api_server, copy_registry_spec}

module _ {O L : Type 0} where
  pub record DiscoveryRep (lo : ℕ) (h : Heap (Cell O L)) (s : DiscoveryStruct) (v : DiscoveryConfig)
      : Type 0 where
    pub scope : s.scope ≡ v.scope
    pub label_selector : s.label_selector ≡ v.label_selector
    pub namespaces : Strings lo h s.namespaces v.namespaces

  discovery_copies :
      (lo : ℕ) (h : Heap (Cell O L)) (s : DiscoveryStruct) (v : DiscoveryConfig)
      → lo ≤ h.next
      → Sound h
      → DiscoveryRep 0 h s v
      → Yields (copy_discovery s) h (λ s' h'. DiscoveryRep lo h' s' v)
  unfolding copy_discovery
  discovery_copies lo h s v l ok r =
      field copy_strings-IsCopier lo h h _ l ok (Grown-refl h) r.namespaces λ x1 h1 s1 g1 f1 r1.
        Yields-pure _ h1 s1
          (record { scope = r.scope; label_selector = r.label_selector; namespaces = r1 })

  pub copy_discovery-IsCopier : IsCopier {Cell = Cell O L} copy_discovery DiscoveryRep
  copy_discovery-IsCopier = record {
    kept = λ lo lo' h h' s v l k r. record {
      scope = r.scope;
      label_selector = r.label_selector;
      namespaces =
          copy_strings-IsCopier.kept lo lo' h h' s.namespaces v.namespaces l k r.namespaces;
    };
    copies = discovery_copies;
  }

  pub record ApiServerRep (lo : ℕ) (h : Heap (Cell O L)) (s : ApiServerStruct) (v : ApiServerConfig)
      : Type 0 where
    pub port : s.port ≡ v.port
    pub bind_address : s.bind_address ≡ v.bind_address
    pub tls_cert_ref : PtrRep Plain a_local_ref lo h s.tls_cert_ref v.tls_cert_ref

  api_server_copies :
      (lo : ℕ) (h : Heap (Cell O L)) (s : ApiServerStruct) (v : ApiServerConfig)
      → lo ≤ h.next
      → Sound h
      → ApiServerRep 0 h s v
      → Yields (copy_api_server s) h (λ s' h'. ApiServerRep lo h' s' v)
  unfolding copy_api_server
  api_server_copies lo h s v l ok r =
      field (copy_ptr-IsCopier pure-IsCopier a_local_ref) lo h h _ l ok (Grown-refl h)
        r.tls_cert_ref
        λ x1 h1 s1 g1 f1 r1.
          Yields-pure _ h1 s1
            (record { port = r.port; bind_address = r.bind_address; tls_cert_ref = r1 })

  pub copy_api_server-IsCopier : IsCopier {Cell = Cell O L} copy_api_server ApiServerRep
  copy_api_server-IsCopier = record {
    kept = λ lo lo' h h' s v l k r. record {
      port = r.port;
      bind_address = r.bind_address;
      tls_cert_ref =
          (copy_ptr-IsCopier pure-IsCopier a_local_ref).kept lo lo' h h' s.tls_cert_ref
            v.tls_cert_ref l k r.tls_cert_ref;
    };
    copies = api_server_copies;
  }

  pub record RegistrySpecRep (lo : ℕ) (h : Heap (Cell O L)) (s : RegistrySpecStruct)
      (v : A2aRegistrySpec) : Type 0 where
    pub discovery : DiscoveryRep lo h s.discovery v.discovery
    pub registration : s.registration ≡ v.registration
    pub health_check : s.health_check ≡ v.health_check
    pub api_server : ApiServerRep lo h s.api_server v.api_server

  registry_spec_copies :
      (lo : ℕ) (h : Heap (Cell O L)) (s : RegistrySpecStruct) (v : A2aRegistrySpec)
      → lo ≤ h.next
      → Sound h
      → RegistrySpecRep 0 h s v
      → Yields (copy_registry_spec s) h (λ s' h'. RegistrySpecRep lo h' s' v)
  unfolding copy_registry_spec
  registry_spec_copies lo h s v l ok r =
      field copy_discovery-IsCopier lo h h _ l ok (Grown-refl h) r.discovery λ x1 h1 s1 g1 f1 r1.
        field copy_api_server-IsCopier lo h h1 _ l s1 f1 r.api_server λ x2 h2 s2 g2 f2 r2.
          Yields-pure _ h2 s2 (record {
            discovery = again copy_discovery-IsCopier g2 r1;
            registration = r.registration;
            health_check = r.health_check;
            api_server = r2;
          })

  pub copy_registry_spec-IsCopier : IsCopier {Cell = Cell O L} copy_registry_spec RegistrySpecRep
  copy_registry_spec-IsCopier = record {
    kept = λ lo lo' h h' s v l k r. record {
      discovery = copy_discovery-IsCopier.kept lo lo' h h' s.discovery v.discovery l k r.discovery;
      registration = r.registration;
      health_check = r.health_check;
      api_server =
          copy_api_server-IsCopier.kept lo lo' h h' s.api_server v.api_server l k r.api_server;
    };
    copies = registry_spec_copies;
  }
