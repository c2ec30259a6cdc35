-- ===== src/DeepCopy/RegistryTypes/Laws.antt =====
-- What registries and lists of registries in memory represent, and that their copies are deep.
use a2a_registry.Common.{ℕ, ◌≤◌, ◌≡◌}
use a2a_registry.Api.{ObjectMeta, A2aRegistryStatus, A2aRegistry}
use a2a_registry.DeepCopy.Memory.{Heap, Sound, Grown-refl, Grown-trans, Yields, Yields-pure}
use a2a_registry.DeepCopy.Structs.{RegistryStatusStruct, RegistryStruct, ListStruct}
use a2a_registry.DeepCopy.Cells.{Cell, a_conditions, a_registries}
use a2a_registry.DeepCopy.Copies.{Represents, IsCopier, Plain, SliceRep}
use a2a_registry.DeepCopy.Slices.{copy_slice-IsCopier, again, field}
use a2a_registry.DeepCopy.AgentTypes.{MetaV1}
use a2a_registry.DeepCopy.AgentTypes.Laws.{LawfulMetaV1, Typed, ListOf}
use a2a_registry.DeepCopy.RegistryTypes.{copy_registry_status, copy_registry, copy_registry_list}
use a2a_registry.DeepCopy.RegistryTypes.Parts.{RegistrySpecRep, copy_registry_spec-IsCopier}

module _ {O L LV : Type 0} {V : MetaV1 O L} {ObjectRep : Represents (Cell O L) O ObjectMeta}
    {ListRep : Represents (Cell O L) L LV} (lawful : LawfulMetaV1 V ObjectRep ListRep) where
  pub record RegistryStatusRep (lo : ℕ) (h : Heap (Cell O L)) (s : RegistryStatusStruct)
      (v : A2aRegistryStatus) : Type 0 where
    pub phase : s.phase ≡ v.phase
    pub agent_count : s.agent_count ≡ v.agent_count
    pub healthy_agents : s.healthy_agents ≡ v.healthy_agents
    pub conditions : SliceRep Plain a_conditions lo h s.conditions v.conditions

  registry_status_copies :
      (lo : ℕ) (h : Heap (Cell O L)) (s : RegistryStatusStruct) (v : A2aRegistryStatus)
      → lo ≤ h.next
      → Sound h
      → RegistryStatusRep 0 h s v
      → Yields (copy_registry_status V s) h (λ s' h'. RegistryStatusRep lo h' s' v)
  unfolding copy_registry_status
  registry_status_copies lo h s v l ok r =
      field (copy_slice-IsCopier lawful.condition a_conditions) lo h h _ l ok (Grown-refl h)
        r.conditions
        λ x1 h1 s1 g1 f1 r1. Yields-pure _ h1 s1 (record {
          phase = r.phase;
          agent_count = r.agent_count;
          healthy_agents = r.healthy_agents;
          conditions = r1;
        })

  pub copy_registry_status-IsCopier :
      IsCopier {Cell = Cell O L} (copy_registry_status V) RegistryStatusRep
  copy_registry_status-IsCopier = record {
    kept = λ lo lo' h h' s v l k r. record {
      phase = r.phase;
      agent_count = r.agent_count;
      healthy_agents = r.healthy_agents;
      conditions =
          (copy_slice-IsCopier lawful.condition a_conditions).kept lo lo' h h' s.conditions
            v.conditions l k r.conditions;
    };
    copies = registry_status_copies;
  }

  pub record RegistryRep (lo : ℕ) (h : Heap (Cell O L)) (s : RegistryStruct O)
      (v : Typed A2aRegistry) : Type 0 where
    pub type_meta : s.type_meta ≡ v.type_meta
    pub metadata : ObjectRep lo h s.metadata v.object.metadata
    pub spec : RegistrySpecRep lo h s.spec v.object.spec
    pub status : RegistryStatusRep lo h s.status v.object.status

  registry_copies :
      (lo : ℕ) (h : Heap (Cell O L)) (s : RegistryStruct O) (v : Typed A2aRegistry)
      → lo ≤ h.next
      → Sound h
      → RegistryRep 0 h s v
      → Yields (copy_registry V s) h (λ s' h'. RegistryRep lo h' s' v)
  unfolding copy_registry
  registry_copies lo h s v l ok r =
      field lawful.object_meta lo h h _ l ok (Grown-refl h) r.metadata λ x1 h1 s1 g1 f1 r1.
        field copy_registry_spec-IsCopier lo h h1 _ l s1 f1 r.spec λ x2 h2 s2 g2 f2 r2.
          field copy_registry_status-IsCopier lo h h2 _ l s2 f2 r.status λ x3 h3 s3 g3 f3 r3.
            let e1 = Grown-trans g2 g3 in
            Yields-pure _ h3 s3 (record {
              type_meta = r.type_meta;
              metadata = again lawful.object_meta e1 r1;
              spec = again copy_registry_spec-IsCopier g3 r2;
              status = r3;
            })

  pub copy_registry-IsCopier : IsCopier {Cell = Cell O L} (copy_registry V) RegistryRep
  copy_registry-IsCopier = record {
    kept = λ lo lo' h h' s v l k r. record {
      type_meta = r.type_meta;
      metadata = lawful.object_meta.kept lo lo' h h' s.metadata v.object.metadata l k r.metadata;
      spec = copy_registry_spec-IsCopier.kept lo lo' h h' s.spec v.object.spec l k r.spec;
      status = copy_registry_status-IsCopier.kept lo lo' h h' s.status v.object.status l k r.status;
    };
    copies = registry_copies;
  }

  pub record RegistryListRep (lo : ℕ) (h : Heap (Cell O L)) (s : ListStruct L)
      (v : ListOf LV A2aRegistry) : Type 0 where
    pub type_meta : s.type_meta ≡ v.type_meta
    pub metadata : ListRep lo h s.metadata v.metadata
    pub items : SliceRep RegistryRep a_registries lo h s.items v.items

  registry_list_copies :
      (lo : ℕ) (h : Heap (Cell O L)) (s : ListStruct L) (v : ListOf LV A2aRegistry)
      → lo ≤ h.next
      → Sound h
      → RegistryListRep 0 h s v
      → Yields (copy_registry_list V s) h (λ s' h'. RegistryListRep lo h' s' v)
  unfolding copy_registry_list
  registry_list_copies lo h s v l ok r =
      field lawful.list_meta lo h h _ l ok (Grown-refl h) r.metadata λ x1 h1 s1 g1 f1 r1.
        field (copy_slice-IsCopier copy_registry-IsCopier a_registries) lo h h1 _ l s1 f1 r.items
          λ x2 h2 s2 g2 f2 r2. Yields-pure _ h2 s2 (record {
            type_meta = r.type_meta;
            metadata = again lawful.list_meta g2 r1;
            items = r2;
          })

  pub copy_registry_list-IsCopier :
      IsCopier {Cell = Cell O L} (copy_registry_list V) RegistryListRep
  copy_registry_list-IsCopier = record {
    kept = λ lo lo' h h' s v l k r. record {
      type_meta = r.type_meta;
      metadata = lawful.list_meta.kept lo lo' h h' s.metadata v.metadata l k r.metadata;
      items =
          (copy_slice-IsCopier copy_registry-IsCopier a_registries).kept lo lo' h h' s.items v.items
            l k r.items;
    };
    copies = registry_list_copies;
  }
