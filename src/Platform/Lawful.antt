-- ===== src/Platform/Lawful.antt =====
-- What the theorems about several requests assume of the API server: documented behaviour of a
-- create and the read that follows it, and of an update of the status subresource.
use a2a_registry.Common.{ok, ◌≡◌}
use a2a_registry.Api.{ObjectKey, ObjectMeta, A2aAgent, A2aRegistry}
use a2a_registry.Platform.Client.{KubeClient}

abbrev pub key_of : ObjectMeta → ObjectKey
key_of m = record { namespace = m.namespace; name = m.name }

pub record LawfulClient {C Sel : Type 0} (K : KubeClient C Sel) : Type 0 where
  -- After a create that succeeds, the object that the server sent back is found under its key. A
  -- client that reads from a cache does this once the cache has seen the create.
  pub get-create :
      (c c' : C) (a b : A2aAgent)
      → K.create_agent c a ≡ (ok b, c')
      → K.get_agent c' (key_of a.metadata) ≡ ok b
  -- An update of the status subresource sends back the object with the status that was sent.
  pub status_update_registry_status :
      (c c' : C) (g h : A2aRegistry)
      → K.status_update_registry c g ≡ (ok h, c')
      → h.status ≡ g.status
