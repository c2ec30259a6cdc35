-- ===== src/Scenarios/Deletions.antt =====
-- A cluster that removes an agent with its last finalizer, and the deletion of an agent there.
use a2a_registry.Common.{
  String, List, [], ◌∷◌, Option, none, some, Bool, true, false, Result, ok, err, ◌≡◌, ap, ◌∙◌, refl,
  eq_refl, arith, ◌⊎◌, inl, inr, Bool-cases, ◌==◌, if◌then◌else◌,
}
use a2a_registry.Api.{Time, ObjectKey, A2aAgent}
use a2a_registry.Conditions.{a2a_finalizer}
use a2a_registry.Platform.{KubeError, KubeClient, World, key_of, ascii_std, list_util}
use a2a_registry.System.Directory.{
  Directory, insert, remove, same_key, named, set_deletion_timestamp,
}
use a2a_registry.AgentController.Reconcile.{reconcile}
use a2a_registry.AgentController.Deletion.{
  IsGone, FinalizerStore, Refused, Settled, reconcile-Settled,
}
use a2a_registry.System.Removal.{DeletionStore, EndsGone, reconcile-deregister_agent}
use a2a_registry.Handler.Http.{Request}
use a2a_registry.Handler.Register.{deregister_agent}
use a2a_registry.Handler.Names.{extract_name_from_path}
use a2a_registry.GoStrings.{split, trim_prefix}
use a2a_registry.Scenarios.Samples.{greeter, old_hosts, request_for}
use a2a_registry.Scenarios.Directories.{directory_client, refusal, got-some, got-key}

-- No finalizers, and a deletion timestamp.
abbrev ends : Option Time → List String → Bool
ends (some t) [] = true
ends _ _ = false

abbrev ended : A2aAgent → Directory → Option A2aAgent → Result KubeError A2aAgent × Directory
ended a d none = (err refusal, d)
ended a d (some b) = (
  ok a,
  if ends a.metadata.deletion_timestamp a.metadata.finalizers
      then remove (key_of a.metadata) d
      else insert (key_of a.metadata) a d,
)

abbrev marked : ObjectKey → Directory → Option A2aAgent → Result KubeError (Unit {0}) × Directory
marked key d none = (err refusal, d)
marked key d (some a) = (
  ok tt,
  if ends (some 8) a.metadata.finalizers
      then remove key d
      else insert key (set_deletion_timestamp 8 a) d,
)

abbrev finalizing_client : KubeClient Directory Unit
finalizing_client = record directory_client {
  update_agent = λ d a. ended a d (d (key_of a.metadata));
  delete_agent = λ d key. marked key d (d key);
}

same_key_refl : (k : ObjectKey) → same_key k k ≡ true
same_key_refl k = rw (eq_refl k.name, eq_refl k.namespace)

module _ (a : A2aAgent) (d : Directory) where
  removed-IsGone : IsGone finalizing_client (remove (key_of a.metadata) d) (key_of a.metadata)
  removed-IsGone = (refusal, rw (same_key_refl (key_of a.metadata)) refl, refl)

  inserted-found :
      finalizing_client.get_agent (insert (key_of a.metadata) a d) (key_of a.metadata) ≡ ok a
  inserted-found = rw (same_key_refl (key_of a.metadata), same_key_refl (key_of a.metadata)) refl

  ended-read :
      (o : Option A2aAgent) (b : A2aAgent) (t : Time)
      → a.metadata.deletion_timestamp ≡ some t
      → (ended a d o).0 ≡ ok b
      → IsGone finalizing_client (ended a d o).1 (key_of a.metadata)
        ⊎ ((x : A2aAgent) × (finalizing_client.get_agent (ended a d o).1 (key_of a.metadata) ≡ ok x)
            × (x.metadata.deletion_timestamp ≡ some t)
            × (x.metadata.finalizers ≡ a.metadata.finalizers))
  ended-read none b t deleted sent = absurd (ground (arith, sent))
  ended-read (some y) b t deleted sent =
      elim (Bool-cases (ends a.metadata.deletion_timestamp a.metadata.finalizers)) [
        | inl last ↦ inl (rw last removed-IsGone)
        | inr more ↦ inr (a, rw more inserted-found, deleted, refl)
      ]

  ended-last :
      (o : Option A2aAgent) (b : A2aAgent) (t : Time)
      → a.metadata.deletion_timestamp ≡ some t
      → a.metadata.finalizers ≡ []
      → (ended a d o).0 ≡ ok b
      → IsGone finalizing_client (ended a d o).1 (key_of a.metadata)
  ended-last none b t deleted bare sent = absurd (ground (arith, sent))
  ended-last (some y) b t deleted bare sent =
      let last : ends a.metadata.deletion_timestamp a.metadata.finalizers ≡ true =
        rw (deleted, bare) refl in
      rw last removed-IsGone

marked-read :
    (d : Directory) (key : ObjectKey) (a : A2aAgent) (o : Option A2aAgent)
    → o ≡ some a
    → key_of a.metadata ≡ key
    → IsGone finalizing_client (marked key d o).1 key
      ⊎ ((t : Time) × (finalizing_client.get_agent (marked key d o).1 key
            ≡ ok (set_deletion_timestamp t a)))
marked-read d key a none e own = absurd (ground (arith, e))
marked-read d key a (some b) e own =
    let same : b ≡ a = ground (arith, e) in
    let refl_key = same_key_refl key in
    let own_key = ap (λ k. same_key k key) own ∙ refl_key in
    elim (Bool-cases (ends (some 8) b.metadata.finalizers)) [
      | inl last ↦ inl (refusal, rw (last, refl_key) refl, refl)
      | inr more ↦ inr (8, rw (more, refl_key, same, own_key) refl)
    ]

finalizing_client-DeletionStore : DeletionStore finalizing_client
finalizing_client-DeletionStore = record {
  get_agent_key = λ d key a e. got-key key (d key) a e;
  read_delete = λ d key a read sent.
      marked-read d key a (d key) (got-some key (d key) a read) (got-key key (d key) a read);
}

abbrev held_in : List String → String → Bool
held_in fs f = list_util.contains_finalizer fs f

contains_removed :
    (fs : List String) (f : String) → held_in (list_util.remove_finalizer fs f) f ≡ false
contains_removed [] f = refl
contains_removed (g ∷ fs) f = elim (Bool-cases (g == f)) [
  | inl same ↦ rw same (contains_removed fs f)
  | inr other ↦ rw (other, other) (contains_removed fs f)
]

finalizing_client-FinalizerStore : FinalizerStore finalizing_client list_util
finalizing_client-FinalizerStore = record {
  read_update = λ d a b t deleted sent. ended-read a d (d (key_of a.metadata)) b t deleted sent;
  last_finalizer =
      λ d a b t deleted bare sent. ended-last a d (d (key_of a.metadata)) b t deleted bare sent;
  contains_own = λ f. rw (list_util, eq_refl f) refl;
  remove_own = λ f. rw (list_util, eq_refl f) refl;
  contains_removed = contains_removed;
}

abbrev leaving : A2aAgent
leaving = record greeter {
  metadata = record greeter.metadata {
    deletion_timestamp = some 8;
    finalizers = a2a_finalizer ∷ [];
  };
}

abbrev leaving_world : World Directory
leaving_world = record {
  cluster = insert (key_of leaving.metadata) leaving (λ key. none);
  trace = [];
}

reconcile-Settled_example :
    (let x =
        reconcile ascii_std finalizing_client list_util old_hosts 9
          (key_of leaving.metadata)
          leaving_world in
      Refused ascii_std finalizing_client list_util old_hosts 9 leaving leaving_world x
      ⊎ Settled ascii_std finalizing_client list_util old_hosts 9 leaving leaving_world x)
reconcile-Settled_example =
    reconcile-Settled ascii_std finalizing_client list_util old_hosts 9
      finalizing_client-FinalizerStore leaving 8 leaving_world refl refl

-- The agent before it is deregistered.
abbrev held : A2aAgent
held = record greeter { metadata = record greeter.metadata { finalizers = a2a_finalizer ∷ [] } }

abbrev held_world : World Directory
held_world = record { cluster = insert (key_of held.metadata) held (λ key. none); trace = [] }

abbrev removal : Request
removal = request_for "DELETE" "/api/v1/agents/greeter"

reconcile-deregister_agent_example :
    EndsGone ascii_std finalizing_client list_util old_hosts 9
      (named removal)
      (deregister_agent ascii_std finalizing_client removal held_world).1
unfolding deregister_agent extract_name_from_path split trim_prefix
reconcile-deregister_agent_example =
    reconcile-deregister_agent ascii_std finalizing_client list_util old_hosts 9
      finalizing_client-FinalizerStore finalizing_client-DeletionStore removal held held_world refl
      refl refl
