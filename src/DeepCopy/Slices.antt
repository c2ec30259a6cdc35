-- ===== src/DeepCopy/Slices.antt =====
-- The copies of slices are deep, and how a struct is copied one field after another.
use a2a_registry.Common.{ℕ, ◌≤◌, List, refl, arith, inl, inr}
use a2a_registry.DeepCopy.Memory.{
  Ref, nil, Heap, M, Kind, ◌>>=◌, Sound, KeptFrom, Grown, Grown-trans, Yields, Yields-pure,
  Yields-bind, Yields-map,
}
use a2a_registry.DeepCopy.Copies.{
  copy_slice, Represents, IsCopier, SliceRep, copy_each-IsCopier, Pointee-kept, Pointee-copies,
  nil_copies,
}

module _ {Cell A V : Type 0} {copy : A → M Cell A} {R : Represents Cell A V}
    (c : IsCopier copy R) where
  slice_kept :
      (k : Kind Cell (List A)) (lo lo' : ℕ) (h h' : Heap Cell) (p : Ref) (vs : List V)
      → lo ≤ lo'
      → KeptFrom lo' h h'
      → SliceRep R k lo' h p vs
      → SliceRep R k lo h' p vs
  slice_kept k lo lo' h h' p vs l same (inl empty) = inl empty
  slice_kept k lo lo' h h' p vs l same (inr r) =
      inr (Pointee-kept (copy_each-IsCopier c) k lo lo' h h' p vs l same r)

  slice_copies :
      (k : Kind Cell (List A)) (lo : ℕ) (h : Heap Cell) (p : Ref) (vs : List V)
      → lo ≤ h.next
      → Sound h
      → SliceRep R k 0 h p vs
      → Yields (copy_slice k copy p) h (λ p' h'. SliceRep R k lo h' p' vs)
  unfolding copy_slice
  slice_copies k lo h p vs l s (inl empty) =
      rw (nil_copies (copy_each-IsCopier c) k p empty.0) (Yields-pure nil h s (inl (refl, empty.1)))
  slice_copies k lo h p vs l s (inr r) =
      Yields-map _ h (Pointee-copies (copy_each-IsCopier c) k lo h p vs l s r) λ q h' g w. inr w

  pub copy_slice-IsCopier : (k : Kind Cell (List A)) → IsCopier (copy_slice k copy) (SliceRep R k)
  copy_slice-IsCopier k = record { kept = slice_kept k; copies = slice_copies k }

  -- What is represented stays so while the heap grows.
  pub again : {lo : ℕ} {h h' : Heap Cell} {a : A} {v : V} → Grown h h' → R lo h a v → R lo h' a v
  again {lo} {h} {h'} {a} {v} g r =
      c.kept lo lo h h' a v (omega arith) (λ p d b e. g.kept p d (omega arith) e) r

  -- The copy of one field of a struct that is represented in an earlier heap, and what follows.
  pub field :
      {B : Type 0} {Q : B → Heap Cell → Type 0} {a : A} {v : V} (lo : ℕ) (h0 h : Heap Cell)
      (f : A → M Cell B)
      → lo ≤ h0.next
      → Sound h
      → Grown h0 h
      → R 0 h0 a v
      → ((a' : A) (h' : Heap Cell)
          → Sound h'
          → Grown h h'
          → Grown h0 h'
          → R lo h' a' v
          → Yields (f a') h' Q)
      → Yields (copy a >>= f) h Q
  field {a} {v} lo h0 h f l s g r next =
      Yields-bind (copy a) f h (c.copies lo h a v (omega (arith, g.next_le)) s (again g r))
        λ a' h' s' g' r'. next a' h' s' g' (Grown-trans g g') r'
