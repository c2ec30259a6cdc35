-- ===== src/Manager/Laws.antt =====
-- The runs of the manager's process.
use a2a_registry.Common.{
  ℕ, String, List, [], ◌∷◌, ◌++◌, Bool, true, false, Option, none, some, Result, ok, err, ◌≡◌, refl,
  sym, ap, inl, inr, Bool-cases, Option-cases, ◌==◌, if◌then◌else◌,
}
use a2a_registry.Platform.{Std, KubeError, CommandLine}
use a2a_registry.Server.{Server, new_server}
use a2a_registry.Manager.Calls.{
  Environment, Process, ProcessState, Call, pure, continue, ◌>>=◌, ◌>>◌, call, must, kind_agent,
  kind_registry, get_config_or_die, new_clientset, get_namespace, create_namespace, new_manager,
  add_runnable, complete_agent_controller, complete_registry_controller, complete_webhook,
  add_healthz_check, add_readyz_check, start,
}
use a2a_registry.Manager.{
  Flags, parse_flags, manager_options, agent_controller, registry_controller, agent_reconciler,
  default_namespace, ensure_namespace, main, setup_webhooks, look_up, create_missing,
}

abbrev pub Log : Type 0
Log = List (Call × Option KubeError)

-- The calls of a plan are made in turn up to the first that fails, which ends the process with
-- status 1.
pub data Attempted : Log → List Call → Log → Result ℕ (Unit {0}) → Type 0 where
  done : {old : Log} → Attempted old [] old (ok tt)
  failed :
      {old : Log} {c : Call} {plan : List Call} {e : KubeError}
      → Attempted old (c ∷ plan) ((c, some e) ∷ old) (err 1)
  went :
      {old new : Log} {c : Call} {plan : List Call} {r : Result ℕ (Unit {0})}
      → Attempted ((c, none) ∷ old) plan new r
      → Attempted old (c ∷ plan) new r

-- The calls that look for a namespace, and the error that they end with. It is created exactly if
-- the API server says that it is not there.
pub data Ensured (name : String) : Log → Option KubeError → Type 0 where
  no_client : {e : KubeError} → Ensured name ((new_clientset, some e) ∷ []) (some e)
  there : Ensured name ((get_namespace name, none) ∷ (new_clientset, none) ∷ []) none
  unread :
      {e : KubeError}
      → e.is_not_found ≡ false
      → Ensured name ((get_namespace name, some e) ∷ (new_clientset, none) ∷ []) (some e)
  created :
      {e : KubeError} {answer : Option KubeError}
      → e.is_not_found ≡ true
      → Ensured name
          ((create_namespace name, answer)
            ∷ (get_namespace name, some e)
            ∷ (new_clientset, none)
            ∷ [])
          answer

-- The webhooks are left out only if the variable is "false".
abbrev webhook_plan : String → List Call
webhook_plan enabled =
    if enabled == "false"
    then []
    else complete_webhook kind_agent ∷ complete_webhook kind_registry ∷ []

abbrev pub plan : Flags → Server → String → List Call
plan f server enabled =
    get_config_or_die
    ∷ new_manager (manager_options f)
    ∷ add_runnable server
    ∷ complete_agent_controller agent_controller agent_reconciler
    ∷ complete_registry_controller registry_controller
        (record { api_server = server; recorder = "a2aregistry-controller" })
    ∷ (webhook_plan enabled
        ++ (add_healthz_check "healthz" ∷ add_readyz_check "readyz" ∷ start ∷ []))

-- `ensureNamespace` as a whole: it reads the configuration first.
data EnsureRun (name : String) : Log → Result ℕ (Option KubeError) → Type 0 where
  no_config : {e : KubeError} → EnsureRun name ((get_config_or_die, some e) ∷ []) (err 1)
  looked :
      {log : Log} {e : Option KubeError}
      → Ensured name log e
      → EnsureRun name (log ++ ((get_config_or_die, none) ∷ [])) (ok e)

-- A run of the process: without a configuration it ends at once; else the namespace is looked for,
-- and whatever came of that, the plan is carried out.
pub data Launch (plan : List Call) : Log → Result ℕ (Unit {0}) → Type 0 where
  no_config : {e : KubeError} → Launch plan ((get_config_or_die, some e) ∷ []) (err 1)
  launched :
      {log new : Log} {e : Option KubeError} {r : Result ℕ (Unit {0})}
      → Ensured default_namespace log e
      → Attempted (log ++ ((get_config_or_die, none) ∷ [])) plan new r
      → Launch plan new r

module _ {W : Type 0} (E : Environment W) where
  -- What a process does from every state: it attempts a plan.
  abbrev Does : Process W (Unit {0}) → List Call → Type 0
  Does m plan = (s : ProcessState W) → Attempted s.calls plan (m s).1.calls (m s).0

  module _ (n : Process W (Unit {0})) (q : List Call) (d : Does n q) where
    extend :
        {old new : Log} {p : List Call} {r : Result ℕ (Unit {0})}
        → Attempted old p new r
        → (s : ProcessState W) → s.calls ≡ new
        → Attempted old (p ++ q) (continue r (λ _. n) s).1.calls (continue r (λ _. n) s).0
    extend done s e = rw (sym e) (d s)
    extend failed s e = rw e failed
    extend (went a) s e = went (extend a s e)

    both : (m : Process W (Unit {0})) (p : List Call) → Does m p → Does (m >> n) (p ++ q)
    unfolding ◌>>=◌
    both m p c s = extend (c s) (m s).1 refl

    after_ensure :
        {new : Log} {r : Result ℕ (Option KubeError)}
        → EnsureRun default_namespace new r
        → (s : ProcessState W) → s.calls ≡ new
        → Launch q (continue r (λ _. n) s).1.calls (continue r (λ _. n) s).0
    after_ensure no_config s e = rw e no_config
    after_ensure (looked x) s e = launched x (rw (sym e) (d s))

  one : (c : Call) → Does (must E c) (c ∷ [])
  unfolding must ◌>>=◌ call
  one c s = elim (Option-cases (E.answer s.env c).0) [
    | inl answered ↦ rw answered (went done)
    | inr (e, refused) ↦ rw refused failed
  ]

  next :
      (c : Call) (n : Process W (Unit {0})) (q : List Call)
      → Does n q
      → Does (must E c >> n) (c ∷ q)
  next c n q d = both n q d (must E c) (c ∷ []) (one c)

  missing :
      (name : String) (e : KubeError) (gone : Bool)
      → e.is_not_found ≡ gone
      → (s : ProcessState W)
      → s.calls
        ≡ (get_namespace name, some e) ∷ (new_clientset, none) ∷ (get_config_or_die, none) ∷ []
      → (let r = (if gone then call E (create_namespace name) else pure (some e)) s in
          EnsureRun name r.1.calls r.0)
  unfolding call
  missing name e true gone s before = rw before (looked (created gone))
  missing name e false other s before = rw before (looked (unread other))

  got :
      (name : String) (s : ProcessState W)
      → s.calls ≡ (new_clientset, none) ∷ (get_config_or_die, none) ∷ []
      → (let r = (call E (get_namespace name) >>= create_missing E name) s in
          EnsureRun name r.1.calls r.0)
  unfolding ◌>>=◌ call
  got name s before = elim (Option-cases (E.answer s.env (get_namespace name)).0) [
    | inl found ↦ rw (found, before) (looked there)
    | inr (e, refused) ↦
        rw refused (missing name e _ refl _ (ap (λ l. (get_namespace name, some e) ∷ l) before))
  ]

  looked_up :
      (name : String) (s : ProcessState W)
      → s.calls ≡ (get_config_or_die, none) ∷ []
      → (let r = (call E new_clientset >>= look_up E name) s in EnsureRun name r.1.calls r.0)
  unfolding ◌>>=◌ call
  looked_up name s before = elim (Option-cases (E.answer s.env new_clientset).0) [
    | inr (e, refused) ↦ rw (refused, before) (looked no_client)
    | inl made ↦ rw made (got name _ (ap (λ l. (new_clientset, none) ∷ l) before))
  ]

  ensure_namespace-EnsureRun :
      (name : String) (w : W)
      → (let r = ensure_namespace E name (record { env = w; calls = [] }) in
          EnsureRun name r.1.calls r.0)
  unfolding ensure_namespace ◌>>=◌ call must
  ensure_namespace-EnsureRun name w = elim (Option-cases (E.answer w get_config_or_die).0) [
    | inr (e, none_there) ↦ rw none_there no_config
    | inl configured ↦ rw configured (looked_up name _ refl)
  ]

  module _ (std : Std) (args : CommandLine) (getenv : String → String) where
    webhooks : Does (setup_webhooks E std args getenv) (webhook_plan (getenv "ENABLE_WEBHOOKS"))
    webhooks s = elim (Bool-cases (getenv "ENABLE_WEBHOOKS" == "false")) [
      | inl off ↦ rw off done
      | inr on ↦ rw on (next _ _ _ (one _) s)
    ]

    -- In every environment: without a configuration of the cluster, the process ends at once. Else it
    -- looks for the default namespace and creates it exactly if it is told that it is not there;
    -- whatever comes of that, it then makes the calls of the plan, in which the manager is started
    -- last and the webhooks are left out exactly if ENABLE_WEBHOOKS is "false", in turn up to the
    -- first that fails, and so starts the manager exactly if all before succeed. Its status is 1
    -- after a failure.
    pub main-Launch :
        (w : W)
        → (let r = main E std args getenv (record { env = w; calls = [] }) in
            Launch
              (plan
                (parse_flags args)
                (new_server std (parse_flags args).registry_api_addr)
                (getenv "ENABLE_WEBHOOKS"))
              r.1.calls
              r.0)
    unfolding main ◌>>=◌
    main-Launch w =
        after_ensure _ _
          (next _ _ _ (
            next _ _ _ (
              next _ _ _ (
                next _ _ _
                  (next _ _ _ (both _ _ (next _ _ _ (next _ _ _ (one _))) _ _ webhooks))))))
          (ensure_namespace-EnsureRun default_namespace w) _ refl
