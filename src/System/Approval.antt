-- ===== src/System/Approval.antt =====
-- From an approval by the API to an agent that is Ready.
use a2a_registry.Common.{true, ◌≡◌, ◌⊎◌, inl, inr, ◌∙◌}
use a2a_registry.Api.{Time, A2aAgent}
use a2a_registry.Platform.{Std, KubeClient, ControllerUtil, World}
use a2a_registry.Handler.Register.{approve}
use a2a_registry.Handler.Register.Laws.{approve-is_approved}
use a2a_registry.Resolver.{Network}
use a2a_registry.HealthCheck.{check_with_auth}
use a2a_registry.AgentController.Checks.{
  check_url_conflict, get_registry_config, build_auth_config, skips_health_check,
}
use a2a_registry.AgentController.Reconcile.{reconcile_live}
use a2a_registry.AgentController.Safety.Judged.{Passed}
use a2a_registry.AgentController.Safety.Allowed.{conflict-set_status, health_of}
use a2a_registry.AgentController.Live.{EndsReady, Passed-set_status, reconcile_live-Ready}

module _ {C Sel : Type 0} (std : Std) (K : KubeClient C Sel) (net : Network)
    (U : ControllerUtil) where
  Passed-approve :
      (approved : Time) (a : A2aAgent) (w : World C)
      → Passed std (get_registry_config K w.cluster) a (health_of std K net w.cluster a)
      → Passed std
          (get_registry_config K w.cluster)
          (approve approved a)
          (health_of std K net w.cluster (approve approved a))
  unfolding approve check_with_auth build_auth_config
  Passed-approve approved a w p =
      Passed-set_status std (get_registry_config K w.cluster) a (approve approved a).status
        (health_of std K net w.cluster a) p

  -- Take an agent that has no URL conflict, is enabled and, unless the policy skips health checks,
  -- passes the check with a card that matches if the policy asks for that. Whatever conditions it
  -- had, once a user of the API approved it, the reconciler writes a status of it with phase Ready,
  -- also where the policy asks for approval.
  pub reconcile_live-approve :
      (approved now : Time) (a : A2aAgent) (w : World C)
      → check_url_conflict std K w.cluster a ≡ ""
      → a.spec.enabled ≡ true
      → (skips_health_check (get_registry_config K w.cluster) ≡ true)
        ⊎ Passed std (get_registry_config K w.cluster) a (health_of std K net w.cluster a)
      → EndsReady std K net U now
          (approve approved a)
          w
          (reconcile_live std K U net now (approve approved a) w)
  unfolding approve
  reconcile_live-approve approved now a w unique enabled checked =
      reconcile_live-Ready std K net U now (approve approved a) w (record {
        no_conflict = conflict-set_status std K net w.cluster a _ ∙ unique;
        enabled = enabled;
        approved = λ _. approve-is_approved approved a;
        checked = elim checked [
          | inl skip ↦ inl skip
          | inr passed ↦ inr (Passed-approve approved a w passed)
        ];
      })
