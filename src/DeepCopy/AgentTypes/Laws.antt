-- ===== src/DeepCopy/AgentTypes/Laws.antt =====
-- What agents and lists of agents in memory represent, and that their copies are deep.
use a2a_registry.Common.{ℕ, ◌≤◌, List, ◌≡◌}
use a2a_registry.Api.{ObjectMeta, A2aAgentStatus, A2aAgent}
use a2a_registry.DeepCopy.Memory.{Heap, Sound, Grown-refl, Grown-trans, Yields, Yields-pure}
use a2a_registry.DeepCopy.Structs.{TypeMeta, StatusStruct, AgentStruct, ListStruct}
use a2a_registry.DeepCopy.Cells.{Cell, a_time, a_conditions, a_agents}
use a2a_registry.DeepCopy.Copies.{
  Represents, IsCopier, Plain, PtrRep, SliceRep, pure-IsCopier, copy_ptr-IsCopier,
}
use a2a_registry.DeepCopy.Slices.{copy_slice-IsCopier, again, field}
use a2a_registry.DeepCopy.AgentTypes.{MetaV1, copy_status, copy_agent, copy_agent_list}
use a2a_registry.DeepCopy.AgentTypes.Parts.{SpecRep, copy_spec-IsCopier}

-- What is assumed of metav1: its copies are deep.
pub record LawfulMetaV1 {O L LV : Type 0} (V : MetaV1 O L)
    (ObjectRep : Represents (Cell O L) O ObjectMeta) (ListRep : Represents (Cell O L) L LV)
    : Type 0 where
  pub object_meta : IsCopier V.copy_object_meta ObjectRep
  pub list_meta : IsCopier V.copy_list_meta ListRep
  pub condition : IsCopier {Cell = Cell O L} V.copy_condition Plain

-- An object with its type, and a list of such.
pub record Typed (A : Type 0) : Type 0 where
  pub type_meta : TypeMeta
  pub object : A

pub record ListOf (LV A : Type 0) : Type 0 where
  pub type_meta : TypeMeta
  pub metadata : LV
  pub items : List (Typed A)

module _ {O L LV : Type 0} {V : MetaV1 O L} {ObjectRep : Represents (Cell O L) O ObjectMeta}
    {ListRep : Represents (Cell O L) L LV} (lawful : LawfulMetaV1 V ObjectRep ListRep) where
  pub record StatusRep (lo : ℕ) (h : Heap (Cell O L)) (s : StatusStruct) (v : A2aAgentStatus)
      : Type 0 where
    pub phase : s.phase ≡ v.phase
    pub health : s.health ≡ v.health
    pub message : s.message ≡ v.message
    pub last_heartbeat : PtrRep Plain a_time lo h s.last_heartbeat v.last_heartbeat
    pub agent_card_hash : s.agent_card_hash ≡ v.agent_card_hash
    pub observed_generation : s.observed_generation ≡ v.observed_generation
    pub consecutive_failures : s.consecutive_failures ≡ v.consecutive_failures
    pub registered_at : PtrRep Plain a_time lo h s.registered_at v.registered_at
    pub conditions : SliceRep Plain a_conditions lo h s.conditions v.conditions

  status_copies :
      (lo : ℕ) (h : Heap (Cell O L)) (s : StatusStruct) (v : A2aAgentStatus)
      → lo ≤ h.next
      → Sound h
      → StatusRep 0 h s v
      → Yields (copy_status V s) h (λ s' h'. StatusRep lo h' s' v)
  unfolding copy_status
  status_copies lo h s v l ok r =
      field (copy_ptr-IsCopier pure-IsCopier a_time) lo h h _ l ok (Grown-refl h) r.last_heartbeat
        λ x1 h1 s1 g1 f1 r1.
          field (copy_ptr-IsCopier pure-IsCopier a_time) lo h h1 _ l s1 f1 r.registered_at
            λ x2 h2 s2 g2 f2 r2.
              field (copy_slice-IsCopier lawful.condition a_conditions) lo h h2 _ l s2 f2
                r.conditions
                λ x3 h3 s3 g3 f3 r3.
                  let e1 = Grown-trans g2 g3 in
                  Yields-pure _ h3 s3 (record {
                    phase = r.phase;
                    health = r.health;
                    message = r.message;
                    last_heartbeat = again (copy_ptr-IsCopier pure-IsCopier a_time) e1 r1;
                    agent_card_hash = r.agent_card_hash;
                    observed_generation = r.observed_generation;
                    consecutive_failures = r.consecutive_failures;
                    registered_at = again (copy_ptr-IsCopier pure-IsCopier a_time) g3 r2;
                    conditions = r3;
                  })

  pub copy_status-IsCopier : IsCopier {Cell = Cell O L} (copy_status V) StatusRep
  copy_status-IsCopier = record {
    kept = λ lo lo' h h' s v l k r. record {
      phase = r.phase;
      health = r.health;
      message = r.message;
      last_heartbeat =
          (copy_ptr-IsCopier pure-IsCopier a_time).kept lo lo' h h' s.last_heartbeat
            v.last_heartbeat l k r.last_heartbeat;
      agent_card_hash = r.agent_card_hash;
      observed_generation = r.observed_generation;
      consecutive_failures = r.consecutive_failures;
      registered_at =
          (copy_ptr-IsCopier pure-IsCopier a_time).kept lo lo' h h' s.registered_at v.registered_at
            l k r.registered_at;
      conditions =
          (copy_slice-IsCopier lawful.condition a_conditions).kept lo lo' h h' s.conditions
            v.conditions l k r.conditions;
    };
    copies = status_copies;
  }

  pub record AgentRep (lo : ℕ) (h : Heap (Cell O L)) (s : AgentStruct O) (v : Typed A2aAgent)
      : Type 0 where
    pub type_meta : s.type_meta ≡ v.type_meta
    pub metadata : ObjectRep lo h s.metadata v.object.metadata
    pub spec : SpecRep lo h s.spec v.object.spec
    pub status : StatusRep lo h s.status v.object.status

  agent_copies :
      (lo : ℕ) (h : Heap (Cell O L)) (s : AgentStruct O) (v : Typed A2aAgent)
      → lo ≤ h.next
      → Sound h
      → AgentRep 0 h s v
      → Yields (copy_agent V s) h (λ s' h'. AgentRep lo h' s' v)
  unfolding copy_agent
  agent_copies lo h s v l ok r =
      field lawful.object_meta lo h h _ l ok (Grown-refl h) r.metadata λ x1 h1 s1 g1 f1 r1.
        field copy_spec-IsCopier lo h h1 _ l s1 f1 r.spec λ x2 h2 s2 g2 f2 r2.
          field copy_status-IsCopier lo h h2 _ l s2 f2 r.status λ x3 h3 s3 g3 f3 r3.
            let e1 = Grown-trans g2 g3 in
            Yields-pure _ h3 s3 (record {
              type_meta = r.type_meta;
              metadata = again lawful.object_meta e1 r1;
              spec = again copy_spec-IsCopier g3 r2;
              status = r3;
            })

  pub copy_agent-IsCopier : IsCopier {Cell = Cell O L} (copy_agent V) AgentRep
  copy_agent-IsCopier = record {
    kept = λ lo lo' h h' s v l k r. record {
      type_meta = r.type_meta;
      metadata = lawful.object_meta.kept lo lo' h h' s.metadata v.object.metadata l k r.metadata;
      spec = copy_spec-IsCopier.kept lo lo' h h' s.spec v.object.spec l k r.spec;
      status = copy_status-IsCopier.kept lo lo' h h' s.status v.object.status l k r.status;
    };
    copies = agent_copies;
  }

  pub record AgentListRep (lo : ℕ) (h : Heap (Cell O L)) (s : ListStruct L) (v : ListOf LV A2aAgent)
      : Type 0 where
    pub type_meta : s.type_meta ≡ v.type_meta
    pub metadata : ListRep lo h s.metadata v.metadata
    pub items : SliceRep AgentRep a_agents lo h s.items v.items

  agent_list_copies :
      (lo : ℕ) (h : Heap (Cell O L)) (s : ListStruct L) (v : ListOf LV A2aAgent)
      → lo ≤ h.next
      → Sound h
      → AgentListRep 0 h s v
      → Yields (copy_agent_list V s) h (λ s' h'. AgentListRep lo h' s' v)
  unfolding copy_agent_list
  agent_list_copies lo h s v l ok r =
      field lawful.list_meta lo h h _ l ok (Grown-refl h) r.metadata λ x1 h1 s1 g1 f1 r1.
        field (copy_slice-IsCopier copy_agent-IsCopier a_agents) lo h h1 _ l s1 f1 r.items
          λ x2 h2 s2 g2 f2 r2. Yields-pure _ h2 s2 (record {
            type_meta = r.type_meta;
            metadata = again lawful.list_meta g2 r1;
            items = r2;
          })

  pub copy_agent_list-IsCopier : IsCopier {Cell = Cell O L} (copy_agent_list V) AgentListRep
  copy_agent_list-IsCopier = record {
    kept = λ lo lo' h h' s v l k r. record {
      type_meta = r.type_meta;
      metadata = lawful.list_meta.kept lo lo' h h' s.metadata v.metadata l k r.metadata;
      items =
          (copy_slice-IsCopier copy_agent-IsCopier a_agents).kept lo lo' h h' s.items v.items l k
            r.items;
    };
    copies = agent_list_copies;
  }
