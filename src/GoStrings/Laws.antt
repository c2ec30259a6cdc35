-- ===== src/GoStrings/Laws.antt =====
-- Facts about splitting and trimming texts that are built by joining.
use Prim.Native.Char.{Char, code}
use Prim.Native.String.{[], ◌∷◌}
use mathlib.Core.List.{[], ◌∷◌}
use text.Mathlib.TextLemmas.{nil-append, cons-append, head-eq_of_cons-eq, cons≢nil}
use a2a_registry.Common.{
  ℕ, String, ◌<>◌, List, Bool, true, false, ◌≡◌, ◌≢◌, refl, ap, arith, ◌==◌, eq_iff, eq_refl, ◌||◌,
  nat_eq, All, Bool-cases, inl, inr,
}
use a2a_registry.GoStrings.{
  has_prefix, strip, trim_prefix, has_suffix, trim_suffix, contains, split, push_front,
}

-- The character with this code is not in the text.
abbrev pub NoChar : ℕ → String → Type 0
NoChar sep [] = Unit
NoChar sep (c ∷ s) = (code c ≢ sep) × NoChar sep s

has_prefix_nil : (t : String) → has_prefix t [] ≡ true
unfolding has_prefix
has_prefix_nil [] = refl
has_prefix_nil (c ∷ t) = refl

pub has_prefix-append : (p s : String) → has_prefix (p <> s) p ≡ true
unfolding has_prefix
has_prefix-append [] s = has_prefix_nil ("" <> s)
has_prefix-append (c ∷ p) s = rw cons-append (ground (arith, has_prefix-append p s))

strip_nil : (t : String) → strip t [] ≡ t
strip_nil [] = refl
strip_nil (c ∷ t) = refl

strip-append : (p s : String) → strip (p <> s) p ≡ s
strip-append [] s = rw nil-append (strip_nil s)
strip-append (c ∷ p) s = rw cons-append (strip-append p s)

-- A prefix that was put in front is cut off.
pub trim_prefix-append : (p s : String) → trim_prefix (p <> s) p ≡ s
unfolding trim_prefix
trim_prefix-append p s = rw has_prefix-append (strip-append p s)

-- A text with no separator is its only part.
pub split_of_NoChar : (sep : ℕ) (s : String) → NoChar sep s → split sep s ≡ s ∷ []
unfolding split
split_of_NoChar sep [] h = refl
split_of_NoChar sep (c ∷ s) h = ground (arith, split_of_NoChar sep s h.1)

-- What stands before the first separator is the first part.
pub split-append :
    (sep : ℕ) (s : String) (c : Char) (t : String)
    → NoChar sep s
    → code c ≡ sep
    → split sep (s <> (c ∷ t)) ≡ s ∷ split sep t
unfolding split
split-append sep [] c t h e = rw nil-append (ground arith)
split-append sep (d ∷ s) c t h e = rw cons-append (ground (arith, split-append sep s c t h.1 e))

-- No part holds the separator.
pub split-NoChar : (sep : ℕ) (s : String) → All (NoChar sep) (split sep s)
unfolding split
split-NoChar sep [] = (tt, tt)
split-NoChar sep (c ∷ s) = elim (Bool-cases (nat_eq (code c) sep)) [
  | inl cut ↦ rw cut (tt, split-NoChar sep s)
  | inr kept ↦ rw kept (pushed c (split sep s) (ground arith) (split-NoChar sep s))
]
  where
    pushed :
        (d : Char) (parts : List String)
        → code d ≢ sep
        → All (NoChar sep) parts
        → All (NoChar sep) (push_front d parts)
    pushed d [] n h = ((n, tt), tt)
    pushed d (p ∷ ps) n h = ((n, h.0), h.1)

-- A suffix that begins with a character which the text lacks is not there: trimming does nothing.
pub trim_suffix_of_NoChar :
    (s : String) (c : Char) (t : String) → NoChar (code c) s → trim_suffix s (c ∷ t) ≡ s
unfolding trim_suffix
trim_suffix_of_NoChar [] c t h = refl
trim_suffix_of_NoChar (d ∷ s) c t h = elim (Bool-cases ((d ∷ s) == (c ∷ t))) [
  | inl same ↦ absurd (h.0 (ap code (head-eq_of_cons-eq ((eq_iff _ _).0 same))))
  | inr other ↦ rw other (ap (λ (r : String). d ∷ r) (trim_suffix_of_NoChar s c t h.1))
]

pub eq-false_of_ne : (s t : String) → s ≢ t → (s == t) ≡ false
eq-false_of_ne s t h = ground (arith, eq_iff s t)

-- A text that lacks a character does not contain it.
pub contains_of_NoChar : (s : String) (c : Char) → NoChar (code c) s → contains s (c ∷ []) ≡ false
unfolding contains has_prefix
contains_of_NoChar [] c h = eq-false_of_ne (c ∷ []) "" cons≢nil
contains_of_NoChar (d ∷ s) c h = ground (arith, contains_of_NoChar s c h.1)

or_true : (b : Bool) → (b || true) ≡ true
or_true true = refl
or_true false = refl

has_suffix_refl : (t : String) → has_suffix t t ≡ true
unfolding has_suffix
has_suffix_refl [] = refl
has_suffix_refl (c ∷ t) = rw (eq_refl (c ∷ t))

-- A suffix that was put behind is there.
pub has_suffix-append : (s t : String) → has_suffix (s <> t) t ≡ true
unfolding has_suffix
has_suffix-append [] t = rw nil-append (has_suffix_refl t)
has_suffix-append (c ∷ s) t = rw (cons-append, has_suffix-append s t) (or_true _)
