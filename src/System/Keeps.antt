-- ===== src/System/Keeps.antt =====
-- Programs that keep an invariant of the statuses that the cluster holds.
use a2a_registry.Common.{
  Bool, true, false, if◌then◌else◌, Result, ok, err, ◌≡◌, ◌⊎◌, inl, inr, Result-cases,
}
use a2a_registry.Api.{ObjectKey, A2aAgent, A2aAgentStatus, A2aRegistry}
use a2a_registry.Platform.{
  KubeClient, KubeError, World, Exec, Effect, pure, emit, continue, gets, ◌>>=◌, update,
  status_update, update_reg, status_update_reg,
}

-- How a server deals with the status of an agent, when `Holds c s` says that some agent in `c` has
-- the status `s`: reads give what is held; a write leaves what was held and what it sent, and sends
-- one of these back; deletes and writes of other kinds add nothing. `Holds` may count what a cache of
-- the client holds.
pub record StatusStore {C Sel : Type 0} (K : KubeClient C Sel) (Holds : C → A2aAgentStatus → Type 0)
    : Type 0 where
  pub get_agent :
      (c : C) (key : ObjectKey) (a : A2aAgent) → K.get_agent c key ≡ ok a → Holds c a.status
  pub create_agent :
      (c : C) (a : A2aAgent) (s : A2aAgentStatus)
      → Holds (K.create_agent c a).1 s
      → Holds c s ⊎ (s ≡ a.status)
  pub update_agent :
      (c : C) (a : A2aAgent) (s : A2aAgentStatus)
      → Holds (K.update_agent c a).1 s
      → Holds c s ⊎ (s ≡ a.status)
  pub updated_agent :
      (c : C) (a b : A2aAgent)
      → (K.update_agent c a).0 ≡ ok b
      → Holds c b.status ⊎ (b.status ≡ a.status)
  pub status_update_agent :
      (c : C) (a : A2aAgent) (s : A2aAgentStatus)
      → Holds (K.status_update_agent c a).1 s
      → Holds c s ⊎ (s ≡ a.status)
  pub delete_agent :
      (c : C) (key : ObjectKey) (s : A2aAgentStatus) → Holds (K.delete_agent c key).1 s → Holds c s
  pub update_registry :
      (c : C) (g : A2aRegistry) (s : A2aAgentStatus) → Holds (K.update_registry c g).1 s → Holds c s
  pub status_update_registry :
      (c : C) (g : A2aRegistry) (s : A2aAgentStatus)
      → Holds (K.status_update_registry c g).1 s
      → Holds c s

module _ {C Sel : Type 0} {K : KubeClient C Sel} {Holds : C → A2aAgentStatus → Type 0}
    (store : StatusStore K Holds) (P : A2aAgentStatus → Type 0) where
  -- Every status that the cluster holds satisfies the predicate.
  abbrev pub AllHeld : C → Type 0
  AllHeld c = (s : A2aAgentStatus) → Holds c s → P s

  -- What a result satisfies, if it is no error.
  abbrev pub Answers : {A : Type 0} → (A → Type 0) → Result KubeError A → Type 0
  Answers Q (ok a) = Q a
  Answers Q (err e) = Unit

  -- Whether it fails or not, the program keeps the invariant; and its result satisfies `Q`.
  pub record Keeps {A : Type 0} (Q : A → Type 0) (m : Exec C A) : Type 0 where
    pub run : (w : World C) → AllHeld w.cluster → AllHeld (m w).1.cluster × Answers Q (m w).0

  abbrev pub HasP : A2aAgent → Type 0
  HasP a = P a.status

  abbrev pub Anything : {A : Type 0} → A → Type 0
  Anything a = Unit

  any-Answers : {A : Type 0} (r : Result KubeError A) → Answers Anything r
  any-Answers (ok a) = tt
  any-Answers (err e) = tt

  one_of : (c : C) (s t : A2aAgentStatus) → AllHeld c → P t → Holds c s ⊎ (s ≡ t) → P s
  one_of c s t all p (inl held) = all s held
  one_of c s t all p (inr e) = rw e p

  pub pure-Keeps : {A : Type 0} (Q : A → Type 0) (a : A) → Q a → Keeps Q (pure a)
  pure-Keeps Q a q = record { run = λ w all. (all, q) }

  pub gets-Keeps : {A : Type 0} (f : C → A) → Keeps Anything (gets f)
  gets-Keeps f = record { run = λ w all. (all, tt) }

  pub emit-Keeps : (e : Effect) → Keeps Anything (emit e)
  emit-Keeps e = record { run = λ w all. (all, tt) }

  pub bind-Keeps :
      {A B : Type 0} (Q : A → Type 0) (R : B → Type 0) (m : Exec C A) (f : A → Exec C B)
      → Keeps Q m
      → ((a : A) → Q a → Keeps R (f a))
      → Keeps R (m >>= f)
  unfolding ◌>>=◌
  bind-Keeps Q R m f k l = record {
    run = λ w all. next (m w).0 (m w).1 (k.run w all).0 (k.run w all).1;
  }
    where
      next :
          (r : Result KubeError _) (w' : World C)
          → AllHeld w'.cluster
          → Answers Q r
          → AllHeld (continue r f w').1.cluster × Answers R (continue r f w').0
      next (ok a) w' all' q = (l a q).run w' all'
      next (err e) w' all' q = (all', tt)

  pub update-Keeps : (a : A2aAgent) → P a.status → Keeps HasP (update K a)
  update-Keeps a p = record {
    run = λ w all. (
      λ s h. one_of _ _ _ all p (store.update_agent w.cluster a s h),
      elim (Result-cases (K.update_agent w.cluster a).0) [
        | inl (b, e) ↦
            rw e (one_of w.cluster b.status a.status all p (store.updated_agent w.cluster a b e))
        | inr (x, e) ↦ rw e tt
      ],
    );
  }

  pub status_update-Keeps : (a : A2aAgent) → P a.status → Keeps Anything (status_update K a)
  status_update-Keeps a p = record {
    run = λ w all.
        (λ s h. one_of _ _ _ all p (store.status_update_agent w.cluster a s h), any-Answers _);
  }

  pub update_reg-Keeps : (g : A2aRegistry) → Keeps Anything (update_reg K g)
  update_reg-Keeps g = record {
    run = λ w all. ((λ s h. all s (store.update_registry w.cluster g s h)), any-Answers _);
  }

  pub status_update_reg-Keeps : (g : A2aRegistry) → Keeps Anything (status_update_reg K g)
  status_update_reg-Keeps g = record {
    run = λ w all. ((λ s h. all s (store.status_update_registry w.cluster g s h)), any-Answers _);
  }

  -- A test between two programs.
  pub if-Keeps :
      {A : Type 0} (Q : A → Type 0) (b : Bool) (m n : Exec C A)
      → Keeps Q m
      → Keeps Q n
      → Keeps Q (if b then m else n)
  if-Keeps Q true m n k l = k
  if-Keeps Q false m n k l = l
