-- ===== src/RegistryController/Counts.antt =====
-- The numbers that the registry's status gives.
use a2a_registry.Common.{
  ℕ, ◌+◌, ◌^◌, ◌≤◌, ◌<◌, List, [], ◌∷◌, Bool, ◌&&◌, ◌≡◌, ◌∙◌, ap, arith, length, filter, Bool-cases,
  inl, inr,
}
use a2a_registry.Common.Int32.{pos, inc_int32_small, to_int32, to_int32_small}
use a2a_registry.Api.{Time, A2aAgent, A2aRegistry, is_healthy}
use a2a_registry.RegistryController.{count_healthy, active_status}

-- Enabled and healthy.
abbrev pub counts_as_healthy : A2aAgent → Bool
counts_as_healthy a = a.spec.enabled && is_healthy a.status.health

pub length-filter-le :
    (p : A2aAgent → Bool) (items : List A2aAgent) → length (filter p items) ≤ length items
length-filter-le p [] = omega arith
length-filter-le p (a ∷ items) = ground (arith, length-filter-le p items)

count_healthy-from :
    (items : List A2aAgent) (n : ℕ)
    → n + length items < 2 ^ 31
    → count_healthy items (pos n) ≡ pos (n + length (filter counts_as_healthy items))
unfolding count_healthy
count_healthy-from [] n h = ap pos (omega arith)
count_healthy-from (a ∷ items) n h = elim (Bool-cases (counts_as_healthy a)) [
  | inl well ↦
      rw (well, inc_int32_small n (omega arith))
        (count_healthy-from items (n + 1) (omega arith) ∙ ap pos (omega arith))
  | inr ill ↦ rw ill (count_healthy-from items n (omega arith))
]

-- With fewer than 2 ^ 31 agents, the status that the reconciler writes has their number, and the
-- number of those that are enabled and healthy, which is not larger.
pub active_status-counts :
    (now : Time) (g : A2aRegistry) (items : List A2aAgent)
    → length items < 2 ^ 31
    → let s =
        (active_status now (to_int32 (length items)) (count_healthy items (pos 0)) g).status in
      (s.agent_count ≡ pos (length items))
      × (s.healthy_agents ≡ pos (length (filter counts_as_healthy items)))
      × (length (filter counts_as_healthy items) ≤ length items)
unfolding active_status
active_status-counts now g items h = (
  to_int32_small (length items) h,
  count_healthy-from items 0 (omega arith) ∙ ap pos (omega arith),
  length-filter-le counts_as_healthy items,
)
