-- ===== src/RegistryController/Prune.antt =====
-- Which agents are deleted.
use mathlib.Core.List.{foldl}
use a2a_registry.Common.{
  ◌+◌, ◌*◌, ◌<◌, eq_iff, List, [], ◌∷◌, Bool, true, false, ◌≡◌, refl, sym, ◌∙◌, ap, false≢true,
  arith, ◌↔◌, Option, none, some, filter, if◌then◌else◌, Any, ◌⊎◌, inl, inr, Bool-cases,
}
use a2a_registry.Api.{Time, ObjectKey, A2aAgent, unreachable}
use a2a_registry.Platform.{Std, KubeClient, ControllerUtil, World, Effect, wrote, delete_agent}
use a2a_registry.RegistryController.{
  is_stale, beats_before, prune, prune_agent, pruned_event, key_of,
}

beats_iff :
    (now : Time) (o : Option Time)
    → (beats_before now o ≡ true)
      ↔ ((t : Time) × (o ≡ some t) × (t + 7 * 24 * 60 * 60 * 1000000000 < now))
beats_iff now none = ((λ h. cc), (λ h. cc (h.1)))
beats_iff now (some u) = ((λ h. (u, refl, ground arith)), (λ h. ground (arith, h.1, h.2)))

-- In phase Unreachable, with a heartbeat more than seven days ago.
abbrev pub Expired : Time → A2aAgent → Type 0
Expired now a =
    (a.status.phase ≡ unreachable)
    × ((t : Time) × (a.status.last_heartbeat ≡ some t) × (t + 7 * 24 * 60 * 60 * 1000000000 < now))

is_stale_iff : (now : Time) (a : A2aAgent) → (is_stale now a ≡ true) ↔ Expired now a
unfolding is_stale
is_stale_iff now a = ground (
  arith,
  eq_iff a.status.phase unreachable,
  (beats_iff now a.status.last_heartbeat).0,
  (beats_iff now a.status.last_heartbeat).1,
)

module _ {C Sel : Type 0} (std : Std) (K : KubeClient C Sel) (U : ControllerUtil) (now : Time) where
  -- What the pruning of one agent adds to the trace, the newest first.
  abbrev pub pruned : List Effect → A2aAgent → List Effect
  pruned t a = wrote (delete_agent (key_of a.metadata)) ∷ pruned_event std a ∷ t

  fold-if :
      (b : Bool) (a : A2aAgent) (t : List Effect) (rest : List A2aAgent)
      → foldl pruned (if b then pruned t a else t) rest
        ≡ foldl pruned t (if b then a ∷ rest else rest)
  fold-if true a t rest = refl
  fold-if false a t rest = refl

  trace-prune_agent :
      (a : A2aAgent) (w : World C)
      → (prune_agent std K U now a w).trace ≡ (if is_stale now a then pruned w.trace a else w.trace)
  unfolding prune_agent
  trace-prune_agent a w = ground arith

  -- Whatever the server answers to the deletes, the loop records one event and makes one delete
  -- call for each stale agent of the list, in order, and does nothing for the others.
  pub trace-prune :
      (items : List A2aAgent) (w : World C)
      → (prune std K U now items w).trace ≡ foldl pruned w.trace (filter (is_stale now) items)
  unfolding prune
  trace-prune [] w = refl
  trace-prune (a ∷ items) w =
      trace-prune items (prune_agent std K U now a w)
      ∙ ap (λ t. foldl pruned t (filter (is_stale now) items)) (trace-prune_agent a w)
      ∙ fold-if (is_stale now a) a w.trace (filter (is_stale now) items)

  -- A trace with a call that deletes the agent of that key.
  abbrev pub Deletes : ObjectKey → List Effect → Type 0
  Deletes key = Any (λ e. e ≡ wrote (delete_agent key))

  -- An expired agent of that key.
  abbrev pub ExpiredAt : ObjectKey → A2aAgent → Type 0
  ExpiredAt key a = (key_of a.metadata ≡ key) × Expired now a

  Deletes-pruned :
      (key : ObjectKey) (a : A2aAgent) (t : List Effect)
      → Deletes key (pruned t a)
      → Deletes key t ⊎ (key_of a.metadata ≡ key)
  Deletes-pruned key a t (inl same) = inr cc
  Deletes-pruned key a t (inr (inl event)) = absurd cc
  Deletes-pruned key a t (inr (inr before)) = inl before

  Deletes-prune_agent :
      (key : ObjectKey) (a : A2aAgent) (w : World C)
      → Deletes key (prune_agent std K U now a w).trace ↔ (Deletes key w.trace ⊎ ExpiredAt key a)
  Deletes-prune_agent key a w = elim (Bool-cases (is_stale now a)) [
    | inl stale ↦
        rw (trace-prune_agent a w, stale)
          (
            (λ h. elim (Deletes-pruned key a w.trace h) [
              | inl before ↦ inl before
              | inr same ↦ inr (same, (is_stale_iff now a).0 stale)
            ]),
            λ h. elim h [
              | inl before ↦ inr (inr before)
              | inr at ↦ inl (ap (λ k. wrote (delete_agent k)) (at.0))
            ],
          )
    | inr fresh ↦
        rw (trace-prune_agent a w, fresh)
          (
            (λ h. inl h),
            λ h. elim h [
              | inl before ↦ before
              | inr at ↦ absurd (false≢true (sym fresh ∙ (is_stale_iff now a).1 at.1))
            ],
          )
  ]

  -- Whatever the server answers: after the pruning, the trace has a call of the delete of a key
  -- exactly if it had one before, or the list has an agent of that key in phase Unreachable, with a
  -- heartbeat more than seven days ago.
  pub Deletes-prune :
      (key : ObjectKey) (items : List A2aAgent) (w : World C)
      → Deletes key (prune std K U now items w).trace
        ↔ (Deletes key w.trace ⊎ Any (ExpiredAt key) items)
  unfolding prune
  Deletes-prune key [] w = ((λ h. inl h), λ h. elim h [ inl before ↦ before | inr e ↦ absurd e ])
  Deletes-prune key (a ∷ items) w =
      let rest = Deletes-prune key items (prune_agent std K U now a w) in
      let first = Deletes-prune_agent key a w in ground (arith, rest, first)
