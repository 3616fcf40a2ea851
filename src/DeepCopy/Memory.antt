-- ===== src/DeepCopy/Memory.antt =====
-- The memory of a Go program, as far as slices, maps and pointers need it: blocks at addresses that
-- are never used again. A pointer is the address of a block with one value, a slice that of the
-- block of its elements, up to its length, and a map that of the block of its entries, in the order
-- in which a `range` gives them; `none` is nil.
use redis_backup_operator.Base.{
  ℕ, suc, Option, none, some, List, ◌≡◌, if◌then◌else◌, nat_eq, [], ◌∷◌,
}

pub record Memory (C : Type 0) : Type 0 where
  -- the first address that was not given out
  pub next : ℕ
  pub cell : ℕ → Option C

abbrev pub Ref : Type 0 → Type 0
Ref A = Option ℕ

-- How a block with elements of a type is kept.
pub record Layout (C A : Type 0) : Type 0 where
  pub block : List A → C
  pub elements : C → Option (List A)
  pub elements_block : (xs : List A) → elements (block xs) ≡ some xs

abbrev pub M : Type 0 → Type 0 → Type 0
M C A = Memory C → A × Memory C

abbrev pub pure : {C A : Type 0} → A → M C A
pure a h = (a, h)

infixl 5 ◌>>=◌
abbrev pub ◌>>=◌ : {C A B : Type 0} → M C A → (A → M C B) → M C B
◌>>=◌ m f h = f (m h).0 (m h).1

module _ {C : Type 0} where
  abbrev pub reserve : Memory C → Memory C
  reserve h = record h { next = suc h.next }

  abbrev pub write : ℕ → C → Memory C → Memory C
  write q c h = record h { cell = λ p. if nat_eq p q then some c else h.cell p }

  -- The elements of the block at `p`, if it is one of this type
  abbrev pub read : {A : Type 0} → Layout C A → ℕ → Memory C → Option (List A)
  read layout p h = elim (h.cell p) [ none ↦ none | some c ↦ layout.elements c ]

  -- `for i := range in { in[i].DeepCopyInto(&out[i]) }`, as far as the values go
  abbrev pub copy_each : {A : Type 0} → (A → M C A) → List A → M C (List A)
  copy_each copy [] = pure []
  copy_each copy (x ∷ xs) = copy x >>= λ y. copy_each copy xs >>= λ ys. pure (y ∷ ys)

  -- `make` or `new`, and then the copies of the elements. What the loop stores in the new block is
  -- stored at its end, since nothing reads the block before. An address with no block of the type,
  -- which no Go program has, is kept.
  abbrev pub copy_block :
      {A : Type 0} → Layout C A → (A → M C A) → ℕ → Memory C → Option (List A) → Ref A × Memory C
  copy_block layout copy p h none = (some p, h)
  copy_block layout copy p h (some xs) =
      let r = copy_each copy xs (reserve h) in (some h.next, write h.next (layout.block r.0) r.1)

  -- `if in != nil`
  abbrev pub copy_ref : {A : Type 0} → Layout C A → (A → M C A) → Ref A → M C (Ref A)
  copy_ref layout copy none h = (none, h)
  copy_ref layout copy (some p) h = copy_block layout copy p h (read layout p h)
