-- ===== src/Handler/Register/Laws.antt =====
-- What registration, deregistration and approval change.
use a2a_registry.Common.{
  String, ◌<>◌, List, [], ◌∷◌, true, ◌||◌, Option, none, some, Result, ok, err, ◌≡◌, ◌≢◌, refl, sym,
  ◌∙◌, ap, arith, ◌⊎◌, inl, inr, ◌==◌, eq_iff, All, find?, Bool-cases, Result-cases, pair-eq,
}
use a2a_registry.Api.{Time, ObjectKey, A2aAgent}
use a2a_registry.Conditions.Laws.{merge_registry_conditions-eq}
use a2a_registry.Platform.{
  Std, KubeClient, KubeError, World, wrote, metric, create_agent, registrations_total_inc,
  LawfulClient, key_of,
}
use a2a_registry.GoStrings.Laws.{NoChar, eq-false_of_ne}
use a2a_registry.AgentController.Checks.{is_approved}
use a2a_registry.AgentController.Safety.{approved_in, approved_in-merge_true}
use a2a_registry.Handler.Http.{Request, Response, entry, json}
use a2a_registry.Handler.Names.{generate_k8s_name, extract_name_from_path}
use a2a_registry.Handler.Names.Laws.{
  generate_k8s_name-NameChars, NameChars-NoSlash, extract_name-append,
}
use a2a_registry.Handler.Entry.{agent_to_entry, or_default}
use a2a_registry.Handler.Query.Lookup.{agents_path, get_agent, default_namespace, key_in}
use a2a_registry.Handler.Register.{
  RegisterRequest, new_agent, holder_of_url, create_unless_held, register_request, approve,
  approved_condition,
}

-- No agent of the list has the URL.
abbrev pub UrlFree : String → List A2aAgent → Type 0
UrlFree url = All (λ a. a.spec.url ≢ url)

holder-UrlFree :
    (url : String) (items : List A2aAgent)
    → find? (λ a. a.spec.url == url) items ≡ none
    → UrlFree url items
holder-UrlFree url [] h = tt
holder-UrlFree url (a ∷ items) h = ground (arith, holder-UrlFree url items, eq_iff a.spec.url url)

-- A list that fails is no obstacle.
abbrev pub UrlFreeIn : String → Result KubeError (List A2aAgent) → Type 0
UrlFreeIn url (err e) = Unit
UrlFreeIn url (ok items) = UrlFree url items

holder-UrlFreeIn :
    (url : String) (listed : Result KubeError (List A2aAgent))
    → holder_of_url url listed ≡ none
    → UrlFreeIn url listed
holder-UrlFreeIn url (err e) h = tt
holder-UrlFreeIn url (ok items) h = holder-UrlFree url items h

generated-NoSlash : (std : Std) (name : String) → NoChar b'/' (generate_k8s_name std name)
generated-NoSlash std name = NameChars-NoSlash _ (generate_k8s_name-NameChars std name).1

path_name :
    (std : Std) (path name : String)
    → path ≡ agents_path <> generate_k8s_name std name
    → extract_name_from_path path agents_path ≡ generate_k8s_name std name
path_name std path name at = rw at (extract_name-append agents_path _ (generated-NoSlash std name))

new_agent-key :
    (std : Std) (req : RegisterRequest) (r : Request)
    → or_default (r.query "namespace") default_namespace
      ≡ or_default req.namespace default_namespace
    → key_in default_namespace r (generate_k8s_name std req.name)
      ≡ key_of (new_agent std req).metadata
unfolding new_agent
new_agent-key std req r within =
    ap (λ ns. record { namespace = ns; name = generate_k8s_name std req.name }) within

module _ {C Sel : Type 0} (std : Std) (K : KubeClient C Sel) where
  -- What a registration may have done by the time it answers: nothing, with an error that is the
  -- client's fault; or one create call, of the agent that the request describes, for a request with
  -- a name and a URL that no listed agent holds, and with a metric if the call succeeded.
  pub record Created (req : RegisterRequest) (w : World C) (resp : Response) (w' : World C)
      : Type 0 where
    pub named : req.name ≢ ""
    pub located : req.url ≢ ""
    pub url_free : UrlFreeIn req.url (K.list_agents w.cluster [])
    pub stored : w'.cluster ≡ (K.create_agent w.cluster (new_agent std req)).1
    pub outcome :
        ((a : A2aAgent) × ((K.create_agent w.cluster (new_agent std req)).0 ≡ ok a)
          × (resp ≡ record { status = 201; payload = entry (agent_to_entry a) })
          × (w'.trace
              ≡ metric registrations_total_inc
                ∷ wrote (create_agent (new_agent std req))
                ∷ w.trace))
        ⊎ ((resp.status ≡ 500) × (w'.trace ≡ wrote (create_agent (new_agent std req)) ∷ w.trace))

  abbrev pub Refused : World C → Response → World C → Type 0
  Refused w resp w' = (w' ≡ w) × ((resp.status ≡ 400) ⊎ (resp.status ≡ 409))

  create_unless_held-cases :
      (req : RegisterRequest) (w : World C)
      → req.name ≢ ""
      → req.url ≢ ""
      → (held : Option A2aAgent) → holder_of_url req.url (K.list_agents w.cluster []) ≡ held
      → Refused w (create_unless_held std K req held w).0 (create_unless_held std K req held w).1
        ⊎ Created req w
            (create_unless_held std K req held w).0
            (create_unless_held std K req held w).1
  create_unless_held-cases req w named located (some a) e = inl (refl, inr refl)
  create_unless_held-cases req w named located none e =
      elim (Result-cases (K.create_agent w.cluster (new_agent std req)).0) [
        | inl (a, sent) ↦ inr (record {
          named = named;
          located = located;
          url_free = holder-UrlFreeIn req.url _ e;
          stored = rw sent;
          outcome = inl (a, sent, (rw sent), (rw sent));
        })
        | inr (x, sent) ↦ inr (record {
          named = named;
          located = located;
          url_free = holder-UrlFreeIn req.url _ e;
          stored = rw sent;
          outcome = inr ((rw sent), (rw sent));
        })
      ]

  -- A registration whose body was read has one of two outcomes. Either nothing has changed, and the
  -- answer is 400 or 409. Or the request has a name and a URL, no listed agent holds the URL, and
  -- one create call was made, of the agent that the request describes: if the server took it, the
  -- answer is 201 with that agent's entry and the registration is counted, else it is 500.
  pub register_request-cases :
      (req : RegisterRequest) (w : World C)
      → Refused w (register_request std K req w).0 (register_request std K req w).1
        ⊎ Created req w (register_request std K req w).0 (register_request std K req w).1
  unfolding register_request
  register_request-cases req w = elim (Bool-cases (req.name == "" || req.url == "")) [
    | inl missing ↦ rw missing (inl (refl, inl refl))
    | inr given ↦ rw given (
        create_unless_held-cases req w (λ e. ground (arith, eq_iff req.name ""))
          (λ e. ground (arith, eq_iff req.url "")) _ refl)
  ]

  get_agent-found :
      (r : Request) (w : World C) (name : String) (key : ObjectKey) (a : A2aAgent)
      → extract_name_from_path r.path agents_path ≡ name
      → name ≢ ""
      → key_in default_namespace r name ≡ key
      → K.get_agent w.cluster key ≡ ok a
      → (get_agent K r w).0 ≡ json (entry (agent_to_entry a))
  unfolding get_agent
  get_agent-found r w name key a at given keyed found =
      rw (at, keyed, found, eq-false_of_ne name "" given)

  -- If the client follows its documentation and its reads see its creates: after a registration
  -- that answers 201, a GET of the agent's path in the same namespace, given or by default,
  -- answers 200 with the entry that the registration answered.
  pub get_agent-register_request :
      (req : RegisterRequest) (r : Request) (w : World C)
      → LawfulClient K
      → (register_request std K req w).0.status ≡ 201
      → r.path ≡ agents_path <> generate_k8s_name std req.name
      → or_default (r.query "namespace") default_namespace
        ≡ or_default req.namespace default_namespace
      → (get_agent K r (register_request std K req w).1).0
        ≡ json (register_request std K req w).0.payload
  get_agent-register_request req r w lawful done at within = elim (register_request-cases req w) [
    | inl (same, early) ↦ absurd (ground arith)
    | inr made ↦ elim made.outcome [
      | inr (late, t) ↦ absurd (omega arith)
      | inl (a, sent, answer, t) ↦
          get_agent-found r _ (generate_k8s_name std req.name) (key_of (new_agent std req).metadata)
            a (path_name std r.path req.name at) (generate_k8s_name-NameChars std req.name).0
            (new_agent-key std req r within)
            (ap (λ c. K.get_agent c (key_of (new_agent std req).metadata)) made.stored
              ∙ (lawful.get-create w.cluster _ (new_agent std req) a (pair-eq _ sent)))
          ∙ sym (ap (λ (x : Response). json x.payload) answer)
    ]
  ]

-- What an approval writes is an agent that the reconciler takes for approved.
pub approve-is_approved : (now : Time) (a : A2aAgent) → is_approved (approve now a) ≡ true
unfolding is_approved approve
approve-is_approved now a =
    ap approved_in (merge_registry_conditions-eq a.status.conditions (approved_condition now a))
    ∙ approved_in-merge_true _ _ refl refl
