-- ===== src/Scenarios/Directories.antt =====
-- A cluster that is a directory, and a client of it that does what the theorems ask of an API server.
use a2a_registry.Common.{
  [], Option, none, some, Bool, true, false, Result, ok, err, ◌≡◌, refl, sym, ◌∙◌, ap, eq_iff,
  arith, ◌⊎◌, inl, inr, Bool-cases, if◌then◌else◌,
}
use a2a_registry.Api.{ObjectKey, A2aAgent, A2aAgentStatus}
use a2a_registry.Platform.{KubeError, KubeClient, key_of}
use a2a_registry.System.Keeps.{StatusStore}
use a2a_registry.System.Directory.{Directory, DirectoryStore, insert, remove, same_key}

abbrev pub refusal : KubeError
refusal = record { is_not_found = true; message = "not found" }

abbrev pub got : ObjectKey → Option A2aAgent → Result KubeError A2aAgent
got key none = err refusal
got key (some a) = if same_key (key_of a.metadata) key then ok a else err refusal

abbrev created : A2aAgent → Directory → Option A2aAgent → Result KubeError A2aAgent × Directory
created a d none = (ok a, insert (key_of a.metadata) a d)
created a d (some b) = (err refusal, d)

abbrev updated : A2aAgent → Directory → Option A2aAgent → Result KubeError A2aAgent × Directory
updated a d none = (err refusal, d)
updated a d (some b) = (
  ok (record a { status = b.status }),
  insert (key_of a.metadata) (record a { status = b.status }) d,
)

abbrev status_updated :
    A2aAgent → Directory → Option A2aAgent → Result KubeError A2aAgent × Directory
status_updated a d none = (err refusal, d)
status_updated a d (some b) = (
  ok (record b { status = a.status }),
  insert (key_of a.metadata) (record b { status = a.status }) d,
)

abbrev deleted : ObjectKey → Directory → Option A2aAgent → Result KubeError (Unit {0}) × Directory
deleted key d none = (err refusal, d)
deleted key d (some a) = (ok tt, remove key d)

-- It has no registries, and cannot list its agents.
abbrev pub directory_client : KubeClient Directory Unit
directory_client = record {
  get_agent = λ d key. got key (d key);
  list_agents = λ d os. err refusal;
  create_agent = λ d a. created a d (d (key_of a.metadata));
  update_agent = λ d a. updated a d (d (key_of a.metadata));
  status_update_agent = λ d a. status_updated a d (d (key_of a.metadata));
  delete_agent = λ d key. deleted key d (d key);
  get_registry = λ d key. err refusal;
  list_registries = λ d. ok [];
  update_registry = λ d g. (err refusal, d);
  status_update_registry = λ d g. (err refusal, d);
  get_secret = λ d key. err refusal;
  parse_selector = λ s. none;
}

-- Some key has an agent with that status.
abbrev pub Holds : Directory → A2aAgentStatus → Type 0
Holds d s = (key : ObjectKey) × (a : A2aAgent) × (d key ≡ some a) × (a.status ≡ s)

module _ (d : Directory) (k : ObjectKey) where
  inserted :
      (a : A2aAgent) (same : Bool) (key : ObjectKey) (b : A2aAgent) (s : A2aAgentStatus)
      → (if same then some a else d key) ≡ some b
      → b.status ≡ s
      → Holds d s ⊎ (s ≡ a.status)
  inserted a true key b s e st = inr (ground (arith, e, st))
  inserted a false key b s e st = inl (key, b, e, st)

  insert-Holds :
      (a : A2aAgent) (s : A2aAgentStatus) → Holds (insert k a d) s → Holds d s ⊎ (s ≡ a.status)
  insert-Holds a s (key, b, e, st) = inserted a (same_key key k) key b s e st

  left :
      (same : Bool) (key : ObjectKey) (b : A2aAgent)
      → (if same then none else d key) ≡ some b
      → d key ≡ some b
  left true key b e = absurd (ground (arith, e))
  left false key b e = e

  remove-Holds : (s : A2aAgentStatus) → Holds (remove k d) s → Holds d s
  remove-Holds s (key, b, e, st) = (key, b, left (same_key key k) key b e, st)

pub got-some :
    (key : ObjectKey) (o : Option A2aAgent) (a : A2aAgent) → got key o ≡ ok a → o ≡ some a
got-some key none a e = absurd (ground (arith, e))
got-some key (some b) a e = elim (Bool-cases (same_key (key_of b.metadata) key)) [
  | inl own ↦ ground arith
  | inr other ↦ absurd (ground (arith, e, other))
]

module _ (d : Directory) (a : A2aAgent) where
  created-Holds :
      (o : Option A2aAgent) (s : A2aAgentStatus)
      → Holds (created a d o).1 s
      → Holds d s ⊎ (s ≡ a.status)
  created-Holds none s h = insert-Holds d (key_of a.metadata) a s h
  created-Holds (some b) s h = inl h

  updated-Holds :
      (o : Option A2aAgent) (s : A2aAgentStatus)
      → d (key_of a.metadata) ≡ o
      → Holds (updated a d o).1 s
      → Holds d s ⊎ (s ≡ a.status)
  updated-Holds none s e h = inl h
  updated-Holds (some b) s e h =
      elim (insert-Holds d (key_of a.metadata) (record a { status = b.status }) s h) [
        | inl held ↦ inl held
        | inr same ↦ inl (key_of a.metadata, b, e, sym same)
      ]

  updated-back :
      (o : Option A2aAgent) (b : A2aAgent)
      → d (key_of a.metadata) ≡ o
      → (updated a d o).0 ≡ ok b
      → Holds d b.status ⊎ (b.status ≡ a.status)
  updated-back none b e sent = absurd (ground (arith, sent))
  updated-back (some x) b e sent = inl (key_of a.metadata, x, e, ground (arith, sent))

  status_updated-Holds :
      (o : Option A2aAgent) (s : A2aAgentStatus)
      → Holds (status_updated a d o).1 s
      → Holds d s ⊎ (s ≡ a.status)
  status_updated-Holds none s h = inl h
  status_updated-Holds (some b) s h =
      insert-Holds d (key_of a.metadata) (record b { status = a.status }) s h

deleted-Holds :
    (d : Directory) (key : ObjectKey) (o : Option A2aAgent) (s : A2aAgentStatus)
    → Holds (deleted key d o).1 s
    → Holds d s
deleted-Holds d key none s h = h
deleted-Holds d key (some a) s h = remove-Holds d key s h

pub directory_client-StatusStore : StatusStore directory_client Holds
directory_client-StatusStore = record {
  get_agent = λ d key a e. (key, a, got-some key (d key) a e, refl);
  create_agent = λ d a s h. created-Holds d a (d (key_of a.metadata)) s h;
  update_agent = λ d a s h. updated-Holds d a (d (key_of a.metadata)) s refl h;
  updated_agent = λ d a b e. updated-back d a (d (key_of a.metadata)) b refl e;
  status_update_agent = λ d a s h. status_updated-Holds d a (d (key_of a.metadata)) s h;
  delete_agent = λ d key s h. deleted-Holds d key (d key) s h;
  update_registry = λ d g s h. h;
  status_update_registry = λ d g s h. h;
}

same_key-eq : (j k : ObjectKey) → same_key j k ≡ true → j ≡ k
same_key-eq j k e =
    let names : j.name ≡ k.name = ground (arith, e, eq_iff j.name k.name) in
    let namespaces : j.namespace ≡ k.namespace =
      ground (arith, e, eq_iff j.namespace k.namespace) in
    λ i. record { name = names i; namespace = namespaces i }

pub got-key :
    (key : ObjectKey) (o : Option A2aAgent) (a : A2aAgent)
    → got key o ≡ ok a
    → key_of a.metadata ≡ key
got-key key none a e = absurd (ground (arith, e))
got-key key (some b) a e = elim (Bool-cases (same_key (key_of b.metadata) key)) [
  | inr other ↦ absurd (ground (arith, e, other))
  | inl own ↦
      let same : b ≡ a = ground arith in
      ap (λ (x : A2aAgent). key_of x.metadata) (sym same) ∙ same_key-eq (key_of b.metadata) key own
]

module _ (d : Directory) (a : A2aAgent) where
  created-failed :
      (o : Option A2aAgent) (e : KubeError) → (created a d o).0 ≡ err e → (created a d o).1 ≡ d
  created-failed none e sent = absurd (ground (arith, sent))
  created-failed (some b) e sent = refl

  created-ok :
      (o : Option A2aAgent) (b : A2aAgent)
      → (created a d o).0 ≡ ok b
      → (o ≡ none) × ((created a d o).1 ≡ insert (key_of a.metadata) b d)
  created-ok none b sent =
      let same : a ≡ b = ground (arith, sent) in
      (refl, ap (λ x. insert (key_of a.metadata) x d) same)
  created-ok (some x) b sent = absurd (ground (arith, sent))

  status_updated-failed :
      (o : Option A2aAgent) (e : KubeError)
      → (status_updated a d o).0 ≡ err e
      → (status_updated a d o).1 ≡ d
  status_updated-failed none e sent = refl
  status_updated-failed (some b) e sent = absurd (ground (arith, sent))

  status_updated-ok :
      (o : Option A2aAgent) (b x : A2aAgent)
      → (status_updated a d o).0 ≡ ok b
      → o ≡ some x
      → (status_updated a d o).1 ≡ insert (key_of a.metadata) (record x { status = a.status }) d
  status_updated-ok none b x sent e = absurd (ground (arith, sent))
  status_updated-ok (some y) b x sent e =
      let same : y ≡ x = ground (arith, e) in
      ap (λ (z : A2aAgent). insert (key_of a.metadata) (record z { status = a.status }) d) same

module _ (d : Directory) (key : ObjectKey) where
  deleted-failed :
      (o : Option A2aAgent) (e : KubeError) → (deleted key d o).0 ≡ err e → (deleted key d o).1 ≡ d
  deleted-failed none e sent = refl
  deleted-failed (some b) e sent = absurd (ground (arith, sent))

  deleted-ok :
      (o : Option A2aAgent) (u : Unit {0})
      → (deleted key d o).0 ≡ ok u
      → (a : A2aAgent) × (o ≡ some a) × ((deleted key d o).1 ≡ remove key d)
  deleted-ok none u sent = absurd (ground (arith, sent))
  deleted-ok (some a) u sent = (a, refl, refl)

pub directory_client-DirectoryStore : DirectoryStore directory_client (λ d. d)
directory_client-DirectoryStore = record {
  get_agent = λ d key a e. got-some key (d key) a e;
  get_agent_key = λ d key a e. got-key key (d key) a e;
  create_failed = λ d a e sent. created-failed d a (d (key_of a.metadata)) e sent;
  create_agent = λ d a b sent. created-ok d a (d (key_of a.metadata)) b sent;
  delete_failed = λ d key e sent. deleted-failed d key (d key) e sent;
  delete_agent =
      λ d key u sent. let (a, held, gone) = deleted-ok d key (d key) u sent in (a, held, inl gone);
  status_update_failed = λ d a e sent. status_updated-failed d a (d (key_of a.metadata)) e sent;
  status_update_agent = λ d a b x sent read.
      status_updated-ok d a (d (key_of a.metadata)) b x sent
        (got-some (key_of a.metadata) (d (key_of a.metadata)) x read);
  update_registry = λ d g. refl;
}
