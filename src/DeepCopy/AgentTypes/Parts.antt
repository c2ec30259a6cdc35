-- ===== src/DeepCopy/AgentTypes/Parts.antt =====
-- What the parts of an agent in memory represent, and that their copies are deep.
use a2a_registry.Common.{ℕ, ◌≤◌, String, List, ◌≡◌}
use a2a_registry.Api.{A2aAgentSkillSpec, A2aAuthentication, A2aAgentSpec}
use a2a_registry.DeepCopy.Memory.{Ref, Heap, Sound, Grown-refl, Grown-trans, Yields, Yields-pure}
use a2a_registry.DeepCopy.Structs.{SkillStruct, AuthenticationStruct, SpecStruct}
use a2a_registry.DeepCopy.Cells.{
  Cell, a_strings, a_local_ref, a_skills, a_authentication, a_provider, a_health_check,
}
use a2a_registry.DeepCopy.Copies.{
  Represents, IsCopier, Plain, PtrRep, SliceRep, pure-IsCopier, copy_ptr-IsCopier,
}
use a2a_registry.DeepCopy.Slices.{copy_slice-IsCopier, again, field}
use a2a_registry.DeepCopy.AgentTypes.{copy_strings, copy_skill, copy_authentication, copy_spec}

module _ {O L : Type 0} where
  abbrev pub Strings : Represents (Cell O L) Ref (List String)
  Strings = SliceRep Plain a_strings

  pub copy_strings-IsCopier : IsCopier {Cell = Cell O L} copy_strings Strings
  copy_strings-IsCopier = copy_slice-IsCopier pure-IsCopier a_strings

  pub record SkillRep (lo : ℕ) (h : Heap (Cell O L)) (s : SkillStruct) (v : A2aAgentSkillSpec)
      : Type 0 where
    pub id : s.id ≡ v.id
    pub name : s.name ≡ v.name
    pub description : s.description ≡ v.description
    pub tags : Strings lo h s.tags v.tags
    pub examples : Strings lo h s.examples v.examples

  skill_copies :
      (lo : ℕ) (h : Heap (Cell O L)) (s : SkillStruct) (v : A2aAgentSkillSpec)
      → lo ≤ h.next
      → Sound h
      → SkillRep 0 h s v
      → Yields (copy_skill s) h (λ s' h'. SkillRep lo h' s' v)
  unfolding copy_skill
  skill_copies lo h s v l ok r =
      field copy_strings-IsCopier lo h h _ l ok (Grown-refl h) r.tags λ x1 h1 s1 g1 f1 r1.
        field copy_strings-IsCopier lo h h1 _ l s1 f1 r.examples λ x2 h2 s2 g2 f2 r2.
          Yields-pure _ h2 s2 (record {
            id = r.id;
            name = r.name;
            description = r.description;
            tags = again copy_strings-IsCopier g2 r1;
            examples = r2;
          })

  pub copy_skill-IsCopier : IsCopier {Cell = Cell O L} copy_skill SkillRep
  copy_skill-IsCopier = record {
    kept = λ lo lo' h h' s v l k r. record {
      id = r.id;
      name = r.name;
      description = r.description;
      tags = copy_strings-IsCopier.kept lo lo' h h' s.tags v.tags l k r.tags;
      examples = copy_strings-IsCopier.kept lo lo' h h' s.examples v.examples l k r.examples;
    };
    copies = skill_copies;
  }

  pub record AuthenticationRep (lo : ℕ) (h : Heap (Cell O L)) (s : AuthenticationStruct)
      (v : A2aAuthentication) : Type 0 where
    pub schemes : Strings lo h s.schemes v.schemes
    pub secret_ref : PtrRep Plain a_local_ref lo h s.secret_ref v.secret_ref

  authentication_copies :
      (lo : ℕ) (h : Heap (Cell O L)) (s : AuthenticationStruct) (v : A2aAuthentication)
      → lo ≤ h.next
      → Sound h
      → AuthenticationRep 0 h s v
      → Yields (copy_authentication s) h (λ s' h'. AuthenticationRep lo h' s' v)
  unfolding copy_authentication
  authentication_copies lo h s v l ok r =
      field copy_strings-IsCopier lo h h _ l ok (Grown-refl h) r.schemes λ x1 h1 s1 g1 f1 r1.
        field (copy_ptr-IsCopier pure-IsCopier a_local_ref) lo h h1 _ l s1 f1 r.secret_ref
          λ x2 h2 s2 g2 f2 r2.
            Yields-pure _ h2 s2
              (record { schemes = again copy_strings-IsCopier g2 r1; secret_ref = r2 })

  pub copy_authentication-IsCopier :
      IsCopier {Cell = Cell O L} copy_authentication AuthenticationRep
  copy_authentication-IsCopier = record {
    kept = λ lo lo' h h' s v l k r. record {
      schemes = copy_strings-IsCopier.kept lo lo' h h' s.schemes v.schemes l k r.schemes;
      secret_ref =
          (copy_ptr-IsCopier pure-IsCopier a_local_ref).kept lo lo' h h' s.secret_ref v.secret_ref l
            k r.secret_ref;
    };
    copies = authentication_copies;
  }

  pub record SpecRep (lo : ℕ) (h : Heap (Cell O L)) (s : SpecStruct) (v : A2aAgentSpec)
      : Type 0 where
    pub name : s.name ≡ v.name
    pub description : s.description ≡ v.description
    pub version : s.version ≡ v.version
    pub url : s.url ≡ v.url
    pub capabilities : s.capabilities ≡ v.capabilities
    pub skills : SliceRep SkillRep a_skills lo h s.skills v.skills
    pub authentication :
        PtrRep AuthenticationRep a_authentication lo h s.authentication v.authentication
    pub default_input_modes : Strings lo h s.default_input_modes v.default_input_modes
    pub default_output_modes : Strings lo h s.default_output_modes v.default_output_modes
    pub provider : PtrRep Plain a_provider lo h s.provider v.provider
    pub protocol_version : s.protocol_version ≡ v.protocol_version
    pub tags : Strings lo h s.tags v.tags
    pub health_check : PtrRep Plain a_health_check lo h s.health_check v.health_check
    pub enabled : s.enabled ≡ v.enabled

  spec_copies :
      (lo : ℕ) (h : Heap (Cell O L)) (s : SpecStruct) (v : A2aAgentSpec)
      → lo ≤ h.next
      → Sound h
      → SpecRep 0 h s v
      → Yields (copy_spec s) h (λ s' h'. SpecRep lo h' s' v)
  unfolding copy_spec
  spec_copies lo h s v l ok r =
      field (copy_slice-IsCopier copy_skill-IsCopier a_skills) lo h h _ l ok (Grown-refl h) r.skills
        λ x1 h1 s1 g1 f1 r1.
          field (copy_ptr-IsCopier copy_authentication-IsCopier a_authentication) lo h h1 _ l s1 f1
            r.authentication
            λ x2 h2 s2 g2 f2 r2.
              field copy_strings-IsCopier lo h h2 _ l s2 f2 r.default_input_modes
                λ x3 h3 s3 g3 f3 r3.
                  field copy_strings-IsCopier lo h h3 _ l s3 f3 r.default_output_modes
                    λ x4 h4 s4 g4 f4 r4.
                      field (copy_ptr-IsCopier pure-IsCopier a_provider) lo h h4 _ l s4 f4
                        r.provider
                        λ x5 h5 s5 g5 f5 r5.
                          field copy_strings-IsCopier lo h h5 _ l s5 f5 r.tags λ x6 h6 s6 g6 f6 r6.
                            field (copy_ptr-IsCopier pure-IsCopier a_health_check) lo h h6 _ l s6 f6
                              r.health_check
                              λ x7 h7 s7 g7 f7 r7.
                                let e5 = Grown-trans g6 g7 in
                                let e4 = Grown-trans g5 e5 in
                                let e3 = Grown-trans g4 e4 in
                                let e2 = Grown-trans g3 e3 in
                                let e1 = Grown-trans g2 e2 in
                                Yields-pure _ h7 s7 (record {
                                  name = r.name;
                                  description = r.description;
                                  version = r.version;
                                  url = r.url;
                                  capabilities = r.capabilities;
                                  skills =
                                      again (copy_slice-IsCopier copy_skill-IsCopier a_skills) e1
                                        r1;
                                  authentication =
                                      again
                                        (copy_ptr-IsCopier copy_authentication-IsCopier
                                          a_authentication)
                                        e2 r2;
                                  default_input_modes = again copy_strings-IsCopier e3 r3;
                                  default_output_modes = again copy_strings-IsCopier e4 r4;
                                  provider =
                                      again (copy_ptr-IsCopier pure-IsCopier a_provider) e5 r5;
                                  protocol_version = r.protocol_version;
                                  tags = again copy_strings-IsCopier g7 r6;
                                  health_check = r7;
                                  enabled = r.enabled;
                                })

  pub copy_spec-IsCopier : IsCopier {Cell = Cell O L} copy_spec SpecRep
  copy_spec-IsCopier = record {
    kept = λ lo lo' h h' s v l k r. record {
      name = r.name;
      description = r.description;
      version = r.version;
      url = r.url;
      capabilities = r.capabilities;
      skills =
          (copy_slice-IsCopier copy_skill-IsCopier a_skills).kept lo lo' h h' s.skills v.skills l k
            r.skills;
      authentication =
          (copy_ptr-IsCopier copy_authentication-IsCopier a_authentication).kept lo lo' h h'
            s.authentication v.authentication l k r.authentication;
      default_input_modes =
          copy_strings-IsCopier.kept lo lo' h h' s.default_input_modes v.default_input_modes l k
            r.default_input_modes;
      default_output_modes =
          copy_strings-IsCopier.kept lo lo' h h' s.default_output_modes v.default_output_modes l k
            r.default_output_modes;
      provider =
          (copy_ptr-IsCopier pure-IsCopier a_provider).kept lo lo' h h' s.provider v.provider l k
            r.provider;
      protocol_version = r.protocol_version;
      tags = copy_strings-IsCopier.kept lo lo' h h' s.tags v.tags l k r.tags;
      health_check =
          (copy_ptr-IsCopier pure-IsCopier a_health_check).kept lo lo' h h' s.health_check
            v.health_check l k r.health_check;
      enabled = r.enabled;
    };
    copies = spec_copies;
  }
