-- ===== src/DeepCopy/Independence.antt =====
-- A deep copy and its original do not see what is written to the other.
use a2a_registry.Common.{◌≤◌, ◌<◌, some, ◌≡◌, refl, ◌∙◌, arith, ltb, inl, inr, Bool-cases}
use a2a_registry.Api.{ObjectMeta, A2aAgent, A2aRegistry}
use a2a_registry.DeepCopy.Memory.{Ref, nil, Heap, M, Kind, Sound}
use a2a_registry.DeepCopy.Cells.{Cell, a_agent_list, a_registry_list}
use a2a_registry.DeepCopy.Copies.{
  copy_ptr, Represents, IsCopier, Pointee, Pointee-kept, Pointee-copies, nil_copies,
}
use a2a_registry.DeepCopy.AgentTypes.{MetaV1, deep_copy_agent_list}
use a2a_registry.DeepCopy.AgentTypes.Laws.{
  LawfulMetaV1, ListOf, AgentListRep, copy_agent_list-IsCopier,
}
use a2a_registry.DeepCopy.RegistryTypes.{deep_copy_registry_list}
use a2a_registry.DeepCopy.RegistryTypes.Laws.{RegistryListRep, copy_registry_list-IsCopier}

below :
    {Cell : Type 0} (h : Heap Cell) (r : Ref) (c : Cell) → Sound h → h.cell r ≡ some c → r < h.next
below h r c s e = elim (Bool-cases (ltb r h.next)) [
  | inl b ↦ ground arith
  | inr b ↦ absurd (ground (arith, s.free r))
]

module _ {Cell A V : Type 0} where
  -- A copy `q`, made at heap `h` and with `h'` as its result, of what `p` points to. In any heap
  -- that has the cells from `h.next` on as the copy left them, whatever was written below, `q`
  -- represents the value; and in any heap that has the cells below `h.next`, whatever was written
  -- from there on, `p` does.
  pub record Independent (R : Represents Cell A V) (k : Kind Cell A) (v : V) (p : Ref)
      (h : Heap Cell) (q : Ref) (h' : Heap Cell) : Type 0 where
    pub copy :
        (h2 : Heap Cell)
        → ((r : Ref) → h.next ≤ r → h2.cell r ≡ h'.cell r)
        → Pointee R k h.next h2 q v
    pub original :
        (h2 : Heap Cell) → ((r : Ref) → r < h.next → h2.cell r ≡ h'.cell r) → Pointee R k 0 h2 p v

  module _ {copy : A → M Cell A} {R : Represents Cell A V} (c : IsCopier copy R) where
    -- A pointer to a value is copied without a panic, and the copy is independent.
    pub copy_ptr-Independent :
        (k : Kind Cell A) (v : V) (p : Ref) (h : Heap Cell)
        → Sound h
        → Pointee R k 0 h p v
        → (q : Ref) × (h' : Heap Cell) × (copy_ptr k copy p h ≡ some (q, h'))
          × Independent R k v p h q h'
    copy_ptr-Independent k v p h s r =
        let y = Pointee-copies c k h.next h p v (omega arith) s r in
        (
          y.value,
          y.heap,
          y.runs,
          record {
            copy = λ h2 same.
                Pointee-kept c k h.next h.next y.heap h2 y.value v (omega arith)
                  (λ x d l e. same x l ∙ e) y.post;
            original = λ h2 same.
                Pointee-kept c k 0 0 h h2 p v (omega arith)
                  (λ x d l e. same x (below h x d s e) ∙ y.grown.kept x d l e) r;
          },
        )

module _ {O L LV : Type 0} {V : MetaV1 O L} {ObjectRep : Represents (Cell O L) O ObjectMeta}
    {ListRep : Represents (Cell O L) L LV} (lawful : LawfulMetaV1 V ObjectRep ListRep) where
  -- If metav1's copies are deep: `DeepCopy` of a pointer to a list of agents does not panic, and
  -- gives a pointer to an equal list, with equal agents in it, such that no write to the memory of
  -- one of the two lists, at any depth, changes what the other represents; and it gives nil for nil.
  pub deep_copy_agent_list-Independent :
      (h : Heap (Cell O L)) (p : Ref) (v : ListOf LV A2aAgent)
      → Sound h
      → Pointee (AgentListRep lawful) a_agent_list 0 h p v
      → (deep_copy_agent_list V nil h ≡ some (nil, h))
        × ((q : Ref) × (h' : Heap (Cell O L)) × (deep_copy_agent_list V p h ≡ some (q, h'))
            × Independent (AgentListRep lawful) a_agent_list v p h q h')
  deep_copy_agent_list-Independent h p v s r = (
    (λ i. nil_copies (copy_agent_list-IsCopier lawful) a_agent_list nil refl i h),
    copy_ptr-Independent (copy_agent_list-IsCopier lawful) a_agent_list v p h s r,
  )

  -- The same of lists of registries: if metav1's copies are deep, `DeepCopy` of a pointer to one
  -- does not panic, and gives a pointer to an equal list such that no write to the memory of one of
  -- the two, at any depth, changes what the other represents; and it gives nil for nil.
  pub deep_copy_registry_list-Independent :
      (h : Heap (Cell O L)) (p : Ref) (v : ListOf LV A2aRegistry)
      → Sound h
      → Pointee (RegistryListRep lawful) a_registry_list 0 h p v
      → (deep_copy_registry_list V nil h ≡ some (nil, h))
        × ((q : Ref) × (h' : Heap (Cell O L)) × (deep_copy_registry_list V p h ≡ some (q, h'))
            × Independent (RegistryListRep lawful) a_registry_list v p h q h')
  deep_copy_registry_list-Independent h p v s r = (
    (λ i. nil_copies (copy_registry_list-IsCopier lawful) a_registry_list nil refl i h),
    copy_ptr-Independent (copy_registry_list-IsCopier lawful) a_registry_list v p h s r,
  )
