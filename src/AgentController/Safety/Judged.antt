-- ===== src/AgentController/Safety/Judged.antt =====
-- What the verdict of a health check does to an agent.
use a2a_registry.Common.{
  String, List, [], ◌∷◌, ◌++◌, Bool, true, false, Option, none, some, ◌≡◌, ◌⊎◌, inl, inr, refl,
  arith, eq_iff, if◌then◌else◌,
}
use a2a_registry.Api.{constants, Time, A2aAgent, A2aAgentStatus, A2aRegistrySpec, ready}
use a2a_registry.Platform.{
  AgentCard, Std, Effect, metric, MetricCall, agent_card_fetch_errors_total_inc, recorded, Event,
}
use a2a_registry.HealthCheck.{HealthResult}
use a2a_registry.Resolver.{Network, AuthConfig, fetch_card_with_auth}
use a2a_registry.AgentController.Checks.{check_card_match, requires_card_match}
use a2a_registry.AgentController.Steps.{set_status, judge, match_card, mark_healthy}
use a2a_registry.AgentController.Safety.{Extends, more, Extends-if}

module _ (std : Std) where
  -- The result of a health check lets the agent be Ready.
  abbrev pub CardOk : A2aAgent → Option AgentCard → Type 0
  CardOk a none = Unit
  CardOk a (some card) = check_card_match std a card ≡ ""

  abbrev pub Passed : Option A2aRegistrySpec → A2aAgent → HealthResult → Type 0
  Passed cfg a r = (r.healthy ≡ true) × (requires_card_match cfg ≡ true → CardOk a r.card)

  -- Only the status differs, the conditions are the same, and a Ready phase was earned.
  pub record Judged (cfg : Option A2aRegistrySpec) (r : HealthResult) (a b : A2aAgent)
      : Type 0 where
    pub spec : b.spec ≡ a.spec
    pub metadata : b.metadata ≡ a.metadata
    pub conditions : b.status.conditions ≡ a.status.conditions
    pub passed : b.status.phase ≡ ready → r.healthy ≡ true

  pub judge-Judged :
      (now : Time) (cfg : Option A2aRegistrySpec) (r : HealthResult) (a : A2aAgent)
      (t : List Effect)
      → Judged cfg r a (judge std now cfg r a t).0
  unfolding judge
  judge-Judged now cfg r a t = ground constants

  check_card_match-set_status :
      (a : A2aAgent) (s : A2aAgentStatus) (card : AgentCard)
      → check_card_match std (set_status a s) card ≡ check_card_match std a card
  unfolding check_card_match
  check_card_match-set_status a s card = refl

  pub judge-card :
      (now : Time) (cfg : Option A2aRegistrySpec) (r : HealthResult) (a : A2aAgent)
      (t : List Effect) (card : AgentCard)
      → (judge std now cfg r a t).0.status.phase ≡ ready
      → requires_card_match cfg ≡ true
      → r.card ≡ some card
      → check_card_match std a card ≡ ""
  unfolding judge
  judge-card now cfg r a t card h m e = ground (
    constants,
    check_card_match-set_status a (mark_healthy std now r a).status card,
    eq_iff (check_card_match std a card) "",
  )

  -- Fetching a card makes at most one call on the metrics.
  fetch-effects :
      (net : Network) (url : String) (auth : Option AuthConfig)
      → ((fetch_card_with_auth std net url auth).1 ≡ [])
        ⊎ ((fetch_card_with_auth std net url auth).1
            ≡ metric agent_card_fetch_errors_total_inc ∷ [])
  unfolding fetch_card_with_auth
  fetch-effects net url auth = ground arith

  -- Metrics and events satisfy the predicate.
  module _ {P : Effect → Type 0} (metrics : (m : MetricCall) → P (metric m))
      (events : (e : Event) → P (recorded e)) {old : List Effect} where
    if-Extends :
        {A : Type 0} (b : Bool) (p q : A × List Effect)
        → Extends P old p.1
        → Extends P old q.1
        → Extends P old (if b then p else q).1
    if-Extends true p q h k = h
    if-Extends false p q h k = k

    match_card-Extends :
        (b : Bool) (card : Option AgentCard) (a : A2aAgent) (t : List Effect)
        → Extends P old t
        → Extends P old (match_card std b card a t).1
    match_card-Extends false card a t h = h
    match_card-Extends true none a t h = h
    match_card-Extends true (some card) a t h = if-Extends _ _ _ h (more (events _) h)

    pub judge-Extends :
        (now : Time) (cfg : Option A2aRegistrySpec) (r : HealthResult) (a : A2aAgent)
        (t : List Effect)
        → Extends P old t
        → Extends P old (judge std now cfg r a t).1
    unfolding judge
    judge-Extends now cfg r a t h =
        let timed = more (metrics _) h in
        let counted = more (metrics _) timed in
        if-Extends r.healthy _ _
          (match_card-Extends (requires_card_match cfg) r.card _ _
            (Extends-if _ (more (events _) timed) timed))
          (if-Extends _ _ _ (Extends-if _ counted (more (events _) counted))
            (Extends-if _ counted (more (events _) counted)))

    pub fetch-Extends :
        (net : Network) (url : String) (auth : Option AuthConfig) (t : List Effect)
        → Extends P old t
        → Extends P old ((fetch_card_with_auth std net url auth).1 ++ t)
    fetch-Extends net url auth t h = elim (fetch-effects net url auth) [
      | inl quiet ↦ rw quiet h
      | inr counted ↦ rw counted (more (metrics _) h)
    ]
