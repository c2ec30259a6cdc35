-- ===== src/Platform/Memory/Laws.antt =====
-- The cluster in memory does what the theorems ask of an API server.
use a2a_registry.Common.{true, ok, ◌≡◌, arith, eq_refl, inl, inr, Option-cases}
use a2a_registry.Api.{A2aAgent, A2aRegistry}
use a2a_registry.Platform.Lawful.{LawfulClient}
use a2a_registry.Platform.Memory.{
  MemoryCluster, memory_client, find_agent, find_registry, has_key, key_of,
}

has_key-key_of : (a : A2aAgent) → has_key (key_of a.metadata) a.metadata ≡ true
has_key-key_of a = rw (eq_refl a.metadata.name, eq_refl a.metadata.namespace)

memory_get-create :
    (c c' : MemoryCluster) (a b : A2aAgent)
    → memory_client.create_agent c a ≡ (ok b, c')
    → memory_client.get_agent c' (key_of a.metadata) ≡ ok b
memory_get-create c c' a b sent = elim (Option-cases (find_agent c (key_of a.metadata))) [
  | inl e ↦ ground (arith, has_key-key_of a)
  | inr (x, e) ↦ absurd (ground arith)
]

memory_status :
    (c c' : MemoryCluster) (g h : A2aRegistry)
    → memory_client.status_update_registry c g ≡ (ok h, c')
    → h.status ≡ g.status
memory_status c c' g h sent = elim (Option-cases (find_registry c g.metadata.name)) [
  | inl e ↦ absurd (ground arith)
  | inr (x, e) ↦ ground arith
]

pub memory_client-LawfulClient : LawfulClient memory_client
memory_client-LawfulClient = record {
  get-create = memory_get-create;
  status_update_registry_status = memory_status;
}
