-- ===== src/DeepCopy/Memory.antt =====
-- A heap of cells, commands that read and allocate, and what a command that only allocates yields.
use a2a_registry.Common.{
  ℕ, ◌+◌, ◌≤◌, Option, none, some, ◌≡◌, ◌≢◌, refl, arith, nat_eq, if◌then◌else◌,
}

-- A pointer, or the pointer of a slice to its array.
abbrev pub Ref : Type 0
Ref = ℕ

abbrev pub nil : Ref
nil = 0

pub record Heap (Cell : Type 0) : Type 0 where
  pub next : ℕ
  pub cell : Ref → Option Cell

-- `none` is a panic: a read through a pointer that does not point to a value of its type.
abbrev pub M : Type 0 → Type 0 → Type 0
M Cell A = Heap Cell → Option (A × Heap Cell)

-- How values of a Go type are kept in cells.
pub record Kind (Cell A : Type 0) : Type 0 where
  pub put : A → Cell
  pub get : Cell → Option A
  pub got : (a : A) → get (put a) ≡ some a

module _ {Cell : Type 0} where
  abbrev pub pure : {A : Type 0} → A → M Cell A
  pure a h = some (a, h)

  infixl 10 ◌>>=◌
  unfoldable pub ◌>>=◌ : {A B : Type 0} → M Cell A → (A → M Cell B) → M Cell B
  ◌>>=◌ m f h = elim (m h) [ none ↦ none | some (a, h') ↦ f a h' ]

  abbrev pub holds : {A : Type 0} → Kind Cell A → Option Cell → Option A
  holds k none = none
  holds k (some c) = k.get c

  abbrev returned : {A : Type 0} → Heap Cell → Option A → Option (A × Heap Cell)
  returned h none = none
  returned h (some a) = some (a, h)

  -- `*p`
  pub load : {A : Type 0} → Kind Cell A → Ref → M Cell A
  load k p h = returned h (holds k (h.cell p))

  abbrev extended : Heap Cell → Cell → Heap Cell
  extended h c = record {
    next = h.next + 1;
    cell = λ p. if nat_eq p h.next then some c else h.cell p;
  }

  -- `new`, or `make`, with the value that is written into it before anything else reads it.
  pub alloc : {A : Type 0} → Kind Cell A → A → M Cell Ref
  alloc k a h = some (h.next, extended h (k.put a))

  -- Nothing lies beyond `next`, and nothing at the nil pointer.
  pub record Sound (h : Heap Cell) : Type 0 where
    pub started : 1 ≤ h.next
    pub free : (p : Ref) → h.next ≤ p → h.cell p ≡ none

  -- The cells of one heap from an address on are the other's too.
  abbrev pub KeptFrom : ℕ → Heap Cell → Heap Cell → Type 0
  KeptFrom lo h h' = (p : Ref) (c : Cell) → lo ≤ p → h.cell p ≡ some c → h'.cell p ≡ some c

  pub record Grown (h h' : Heap Cell) : Type 0 where
    pub next_le : h.next ≤ h'.next
    pub kept : KeptFrom 0 h h'

  pub Grown-refl : (h : Heap Cell) → Grown h h
  Grown-refl h = record { next_le = omega arith; kept = λ p c l e. e }

  pub Grown-trans : {h1 h2 h3 : Heap Cell} → Grown h1 h2 → Grown h2 h3 → Grown h1 h3
  Grown-trans g g' = record {
    next_le = omega (arith, g.next_le, g'.next_le);
    kept = λ p c l e. g'.kept p c l (g.kept p c l e);
  }

  -- The command does not panic, allocates at most, and its result meets the condition.
  pub record Yields {A : Type 0} (m : M Cell A) (h : Heap Cell) (Q : A → Heap Cell → Type 0)
      : Type 0 where
    pub value : A
    pub heap : Heap Cell
    pub runs : m h ≡ some (value, heap)
    pub sound : Sound heap
    pub grown : Grown h heap
    pub post : Q value heap

  pub Yields-pure :
      {A : Type 0} {Q : A → Heap Cell → Type 0} (a : A) (h : Heap Cell)
      → Sound h
      → Q a h
      → Yields (pure a) h Q
  Yields-pure a h s q = record {
    value = a;
    heap = h;
    runs = refl;
    sound = s;
    grown = Grown-refl h;
    post = q;
  }

  pub Yields-bind :
      {A B : Type 0} {Q : A → Heap Cell → Type 0} {R : B → Heap Cell → Type 0} (m : M Cell A)
      (f : A → M Cell B) (h : Heap Cell)
      → Yields m h Q
      → ((a : A) (h' : Heap Cell) → Sound h' → Grown h h' → Q a h' → Yields (f a) h' R)
      → Yields (m >>= f) h R
  unfolding ◌>>=◌
  Yields-bind m f h y next =
      let z = next y.value y.heap y.sound y.grown y.post in
      record {
        value = z.value;
        heap = z.heap;
        runs = rw (y.runs, ◌>>=◌) z.runs;
        sound = z.sound;
        grown = Grown-trans y.grown z.grown;
        post = z.post;
      }

  pub Yields-map :
      {A : Type 0} {Q R : A → Heap Cell → Type 0} (m : M Cell A) (h : Heap Cell)
      → Yields m h Q
      → ((a : A) (h' : Heap Cell) → Grown h h' → Q a h' → R a h')
      → Yields m h R
  Yields-map m h y weaker = record {
    value = y.value;
    heap = y.heap;
    runs = y.runs;
    sound = y.sound;
    grown = y.grown;
    post = weaker y.value y.heap y.grown y.post;
  }

  pub Yields-load :
      {A : Type 0} (k : Kind Cell A) (p : Ref) (a : A) (h : Heap Cell)
      → Sound h
      → h.cell p ≡ some (k.put a)
      → Yields (load k p) h (λ b h'. b ≡ a)
  unfolding load
  Yields-load k p a h s e = record {
    value = a;
    heap = h;
    runs = rw (e, k.got a);
    sound = s;
    grown = Grown-refl h;
    post = refl;
  }

  extended-Sound : (h : Heap Cell) (c : Cell) → Sound h → Sound (extended h c)
  extended-Sound h c s = record {
    started = omega (arith, s.started);
    free = λ p l. ground (arith, s.free p);
  }

  extended-kept :
      (h : Heap Cell) (c : Cell)
      → Sound h
      → (p : Ref) (d : Cell) → h.cell p ≡ some d
      → (extended h c).cell p ≡ some d
  extended-kept h c s p d e = ground (arith, s.free p)

  pub Yields-alloc :
      {A : Type 0} (k : Kind Cell A) (a : A) (h : Heap Cell)
      → Sound h
      → Yields (alloc k a) h (λ p h'. (h.next ≤ p) × (p ≢ nil) × (h'.cell p ≡ some (k.put a)))
  unfolding alloc
  Yields-alloc k a h s = record {
    value = h.next;
    heap = extended h (k.put a);
    runs = refl;
    sound = extended-Sound h (k.put a) s;
    grown = record { next_le = omega arith; kept = λ p c l e. extended-kept h (k.put a) s p c e };
    post = (omega arith, (λ e. absurd (omega (arith, s.started, e))), ground arith);
  }
