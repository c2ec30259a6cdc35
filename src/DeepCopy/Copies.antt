-- ===== src/DeepCopy/Copies.antt =====
-- Deep copies of pointers and of slices, given those of what they point to, and what it is to be a
-- deep copy: the result represents the same value and shares no memory with the original.
use a2a_registry.Common.{
  ℕ, ◌≤◌, List, [], ◌∷◌, Option, none, some, ◌≡◌, ◌≢◌, refl, arith, nat_eq, ◌⊎◌, inl, inr,
  Bool-cases, if◌then◌else◌,
}
use a2a_registry.DeepCopy.Memory.{
  Ref, nil, Heap, M, Kind, pure, ◌>>=◌, load, alloc, Sound, KeptFrom, Yields, Yields-pure,
  Yields-bind, Yields-map, Yields-load, Yields-alloc,
}

-- `if in == nil { return nil }`, else the copy of what `in` points to, in a new cell.
unfoldable pub copy_ptr : {Cell A : Type 0} → Kind Cell A → (A → M Cell A) → Ref → M Cell Ref
copy_ptr k copy p =
    if nat_eq p nil then pure nil else (load k p >>= λ a. copy a >>= λ a'. alloc k a')

-- `DeepCopyObject` hands the pointer on, as an interface value that is nil if the pointer is.
abbrev pub as_object : {Cell : Type 0} → Ref → M Cell Ref
as_object p = if nat_eq p nil then pure nil else pure p

-- The loop over the elements of an array.
unfoldable pub copy_each : {Cell A : Type 0} → (A → M Cell A) → List A → M Cell (List A)
copy_each copy [] = pure []
copy_each copy (a ∷ xs) = do a' ← copy a; xs' ← copy_each copy xs; pure (a' ∷ xs')

unfoldable pub copy_slice :
    {Cell A : Type 0} → Kind Cell (List A) → (A → M Cell A) → Ref → M Cell Ref
copy_slice k copy = copy_ptr k (copy_each copy)

-- A value of memory represents an abstract value in a heap, and its references, and those of what
-- they lead to, are addresses from a bound on.
abbrev pub Represents : Type 0 → Type 0 → Type 0 → Type 1
Represents Cell A V = ℕ → Heap Cell → A → V → Type 0

module _ {Cell : Type 0} where
  -- A value with no reference in it.
  abbrev pub Plain : {A : Type 0} → Represents Cell A A
  Plain lo h a v = a ≡ v

  pub record IsCopier {A V : Type 0} (copy : A → M Cell A) (R : Represents Cell A V) : Type 0 where
    -- Only cells from the bound on matter.
    pub kept :
        (lo lo' : ℕ) (h h' : Heap Cell) (a : A) (v : V)
        → lo ≤ lo'
        → KeptFrom lo' h h'
        → R lo' h a v
        → R lo h' a v
    -- The copy does not panic, and represents the same value in new cells.
    pub copies :
        (lo : ℕ) (h : Heap Cell) (a : A) (v : V)
        → lo ≤ h.next
        → Sound h
        → R 0 h a v
        → Yields (copy a) h (λ a' h'. R lo h' a' v)

  pub pure-IsCopier : {A : Type 0} → IsCopier {A = A} pure Plain
  pure-IsCopier = record {
    kept = λ lo lo' h h' a v l k e. e;
    copies = λ lo h a v l s e. Yields-pure a h s e;
  }

  module _ {A V : Type 0} (R : Represents Cell A V) where
    abbrev pub EachRep : Represents Cell (List A) (List V)
    EachRep lo h [] [] = Unit
    EachRep lo h [] (v ∷ vs) = ⊥
    EachRep lo h (a ∷ xs) [] = ⊥
    EachRep lo h (a ∷ xs) (v ∷ vs) = R lo h a v × EachRep lo h xs vs

    -- A pointer that is not nil.
    pub record Pointee (k : Kind Cell A) (lo : ℕ) (h : Heap Cell) (p : Ref) (v : V) : Type 0 where
      pub not_nil : p ≢ nil
      pub above : lo ≤ p
      pub target : A
      pub here : h.cell p ≡ some (k.put target)
      pub rep : R lo h target v

    abbrev pub PtrRep : Kind Cell A → Represents Cell Ref (Option V)
    PtrRep k lo h p none = p ≡ nil
    PtrRep k lo h p (some v) = Pointee k lo h p v

  -- A nil slice is empty too.
  abbrev pub SliceRep :
      {A V : Type 0} → Represents Cell A V → Kind Cell (List A) → Represents Cell Ref (List V)
  SliceRep R k lo h p vs = ((p ≡ nil) × (vs ≡ [])) ⊎ Pointee (EachRep R) k lo h p vs

  module _ {A V : Type 0} {copy : A → M Cell A} {R : Represents Cell A V}
      (c : IsCopier copy R) where
    each_kept :
        (lo lo' : ℕ) (h h' : Heap Cell) (xs : List A) (vs : List V)
        → lo ≤ lo'
        → KeptFrom lo' h h'
        → EachRep R lo' h xs vs
        → EachRep R lo h' xs vs
    each_kept lo lo' h h' [] [] l k r = tt
    each_kept lo lo' h h' [] (v ∷ vs) l k r = r
    each_kept lo lo' h h' (a ∷ xs) [] l k r = r
    each_kept lo lo' h h' (a ∷ xs) (v ∷ vs) l k r =
        (c.kept lo lo' h h' a v l k r.0, each_kept lo lo' h h' xs vs l k r.1)

    each_copies :
        (lo : ℕ) (h : Heap Cell) (xs : List A) (vs : List V)
        → lo ≤ h.next
        → Sound h
        → EachRep R 0 h xs vs
        → Yields (copy_each copy xs) h (λ xs' h'. EachRep R lo h' xs' vs)
    unfolding copy_each
    each_copies lo h [] [] l s r = Yields-pure [] h s tt
    each_copies lo h [] (v ∷ vs) l s r = absurd r
    each_copies lo h (a ∷ xs) [] l s r = absurd r
    each_copies lo h (a ∷ xs) (v ∷ vs) l s r =
        Yields-bind _ _ h (c.copies lo h a v l s r.0) λ a' h1 s1 g1 r1.
          Yields-bind _ _ h1
            (each_copies lo h1 xs vs (omega (arith, g1.next_le)) s1
              (each_kept 0 0 h h1 xs vs (omega arith) g1.kept r.1))
            λ xs' h2 s2 g2 r2. Yields-pure (a' ∷ xs') h2 s2 (
              c.kept lo lo h1 h2 a' v (omega arith) (λ p d b e. g2.kept p d (omega arith) e) r1,
              r2,
            )

    pub copy_each-IsCopier : IsCopier (copy_each copy) (EachRep R)
    copy_each-IsCopier = record { kept = each_kept; copies = each_copies }

    pub Pointee-kept :
        (k : Kind Cell A) (lo lo' : ℕ) (h h' : Heap Cell) (p : Ref) (v : V)
        → lo ≤ lo'
        → KeptFrom lo' h h'
        → Pointee R k lo' h p v
        → Pointee R k lo h' p v
    Pointee-kept k lo lo' h h' p v l same r = record {
      not_nil = r.not_nil;
      above = omega (arith, r.above);
      target = r.target;
      here = same p (k.put r.target) r.above r.here;
      rep = c.kept lo lo' h h' r.target v l same r.rep;
    }

    pub Pointee-copies :
        (k : Kind Cell A) (lo : ℕ) (h : Heap Cell) (p : Ref) (v : V)
        → lo ≤ h.next
        → Sound h
        → Pointee R k 0 h p v
        → Yields (copy_ptr k copy p) h (λ p' h'. Pointee R k lo h' p' v)
    unfolding copy_ptr
    Pointee-copies k lo h p v l s r = elim (Bool-cases (nat_eq p nil)) [
      | inl gone ↦ absurd (r.not_nil (ground arith))
      | inr there ↦ rw there (
          Yields-bind _ _ h (Yields-load k p r.target h s r.here) λ a h1 s1 g1 e.
            Yields-bind _ _ h1
              (rw e (
                c.copies lo h1 r.target v (omega (arith, g1.next_le)) s1
                  (c.kept 0 0 h h1 r.target v (omega arith) g1.kept r.rep)))
              λ a' h2 s2 g2 r2. Yields-map _ h2 (Yields-alloc k a' h2 s2) λ q h3 g3 w. (record {
                not_nil = w.1;
                above = omega (arith, w.0, g1.next_le, g2.next_le);
                target = a';
                here = w.2;
                rep =
                    c.kept lo lo h2 h3 a' v (omega arith) (λ x d b z. g3.kept x d (omega arith) z)
                      r2;
              }))
    ]

    pub nil_copies : (k : Kind Cell A) (p : Ref) → p ≡ nil → copy_ptr k copy p ≡ pure nil
    unfolding copy_ptr
    nil_copies k p e = rw e

    ptr_kept :
        (k : Kind Cell A) (lo lo' : ℕ) (h h' : Heap Cell) (p : Ref) (o : Option V)
        → lo ≤ lo'
        → KeptFrom lo' h h'
        → PtrRep R k lo' h p o
        → PtrRep R k lo h' p o
    ptr_kept k lo lo' h h' p none l same r = r
    ptr_kept k lo lo' h h' p (some v) l same r = Pointee-kept k lo lo' h h' p v l same r

    ptr_copies :
        (k : Kind Cell A) (lo : ℕ) (h : Heap Cell) (p : Ref) (o : Option V)
        → lo ≤ h.next
        → Sound h
        → PtrRep R k 0 h p o
        → Yields (copy_ptr k copy p) h (λ p' h'. PtrRep R k lo h' p' o)
    ptr_copies k lo h p none l s r = rw (nil_copies k p r) (Yields-pure nil h s refl)
    ptr_copies k lo h p (some v) l s r = Pointee-copies k lo h p v l s r

    pub copy_ptr-IsCopier : (k : Kind Cell A) → IsCopier (copy_ptr k copy) (PtrRep R k)
    copy_ptr-IsCopier k = record { kept = ptr_kept k; copies = ptr_copies k }
