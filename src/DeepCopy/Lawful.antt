-- ===== src/DeepCopy/Lawful.antt =====
-- What a deep copy owes: its value, in memory of its own. A lawful copy of a struct, a slice, a map or
-- a pointer is put together from those of its parts.
use redis_backup_operator.Base.{ℕ, ◌≤◌, ◌<◌, ◌≡◌, refl, sym, ◌∙◌, arith}
use mathlib.Core.Path.{subst}
use redis_backup_operator.DeepCopy.Memory.{Memory, M, pure, ◌>>=◌}

module _ {C : Type 0} where
  -- The blocks from `lo` on and below `hi` are the same.
  abbrev pub Agrees : ℕ → ℕ → Memory C → Memory C → Type 0
  Agrees lo hi h h' = (p : ℕ) → lo ≤ p → p < hi → h'.cell p ≡ h.cell p

  -- What was given out before is as it was.
  abbrev pub Grows : Memory C → Memory C → Type 0
  Grows h h' = (h.next ≤ h'.next) × Agrees 0 h.next h h'

  pub Grows-trans : (h h' h'' : Memory C) → Grows h h' → Grows h' h'' → Grows h h''
  Grows-trans h h' h'' (le, same) (le', same') =
      (omega arith, λ p lo hi. same' p (omega arith) (omega arith) ∙ same p lo hi)

-- `At lo hi h a v`: in the memory `h` the value `a` stands for `v`, and all the blocks that it
-- reaches are at addresses from `lo` on and below `hi`.
pub record Deep (C A : Type 0) : Type 1 where
  pub View : Type 0
  pub At : ℕ → ℕ → Memory C → A → View → Type 0
  pub copy : A → M C A
  pub grows : (a : A) (h : Memory C) → Grows h (copy a h).1
  pub widens :
      (lo hi lo' hi' : ℕ) (h : Memory C) (a : A) (v : View)
      → lo' ≤ lo
      → hi ≤ hi'
      → At lo hi h a v
      → At lo' hi' h a v
  pub keeps :
      (lo hi : ℕ) (h h' : Memory C) (a : A) (v : View)
      → Agrees lo hi h h'
      → At lo hi h a v
      → At lo hi h' a v
  pub copies :
      (lo hi : ℕ) (h : Memory C) (a : A) (v : View)
      → hi ≤ h.next
      → At lo hi h a v
      → At h.next (copy a h).1.next (copy a h).1 (copy a h).0 v

module _ {C : Type 0} where
  -- A value with no references is copied by the assignment.
  abbrev pub flat : {A : Type 0} → Deep C A
  flat {A} = record {
    View = A;
    At = λ lo hi h a v. a ≡ v;
    copy = pure;
    grows = λ a h. (omega arith, λ p lo hi. refl);
    widens = λ lo hi lo' hi' h a v l u e. e;
    keeps = λ lo hi h h' a v same e. e;
    copies = λ lo hi h a v below e. e;
  }

  module _ {A B : Type 0} (d : Deep C A) (e : Deep C B) where
    abbrev pub BothAt : ℕ → ℕ → Memory C → A × B → d.View × e.View → Type 0
    BothAt lo hi h x v = d.At lo hi h x.0 v.0 × e.At lo hi h x.1 v.1

    abbrev pub copy_both : A × B → M C (A × B)
    copy_both x = d.copy x.0 >>= λ a. e.copy x.1 >>= λ b. pure (a, b)

    pub copy_both-Grows : (x : A × B) (h : Memory C) → Grows h (copy_both x h).1
    copy_both-Grows x h =
        Grows-trans h (d.copy x.0 h).1 _ (d.grows x.0 h) (e.grows x.1 (d.copy x.0 h).1)

    pub copy_both-BothAt :
        (lo hi : ℕ) (h : Memory C) (x : A × B) (v : d.View × e.View)
        → hi ≤ h.next
        → BothAt lo hi h x v
        → BothAt h.next (copy_both x h).1.next (copy_both x h).1 (copy_both x h).0 v
    copy_both-BothAt lo hi h x v below (l, r) =
        let h1 = (d.copy x.0 h).1 in
        let h2 = (e.copy x.1 h1).1 in
        let (le, same) = d.grows x.0 h in
        let (le', same') = e.grows x.1 h1 in
        (
          d.widens h.next h1.next h.next h2.next h2 _ _ (omega arith) le' (
              d.keeps h.next h1.next h1 h2 _ _ (λ p lower upper. same' p (omega arith) upper)
                (d.copies lo hi h x.0 v.0 below l)),
          e.widens h1.next h2.next h.next h2.next h2 _ _ le (omega arith) (
              e.copies lo hi h1 x.1 v.1 (omega arith) (
                e.keeps lo hi h h1 x.1 v.1 (λ p lower upper. same p (omega arith) (omega arith))
                  r)),
        )

    -- First the one part and then the other
    abbrev pub both : Deep C (A × B)
    both = record {
      View = d.View × e.View;
      At = BothAt;
      copy = copy_both;
      grows = copy_both-Grows;
      widens = λ lo hi lo' hi' h x v l u (p, q).
          (d.widens lo hi lo' hi' h x.0 v.0 l u p, e.widens lo hi lo' hi' h x.1 v.1 l u q);
      keeps = λ lo hi h h' x v same (p, q).
          (d.keeps lo hi h h' x.0 v.0 same p, e.keeps lo hi h h' x.1 v.1 same q);
      copies = copy_both-BothAt;
    }

  -- A struct by the tuple of its fields
  abbrev pub via :
      {A B : Type 0} (fields : A → B) (d : Deep C B) (copy : A → M C A)
      → ((a : A) (h : Memory C) → (fields (copy a h).0, (copy a h).1) ≡ d.copy (fields a) h)
      → Deep C A
  via fields d copy same = record {
    View = d.View;
    At = λ lo hi h a v. d.At lo hi h (fields a) v;
    copy = copy;
    grows = λ a h. subst (λ r. Grows h r.1) (sym (same a h)) (d.grows (fields a) h);
    widens = λ lo hi lo' hi' h a v. d.widens lo hi lo' hi' h (fields a) v;
    keeps = λ lo hi h h' a v. d.keeps lo hi h h' (fields a) v;
    copies = λ lo hi h a v below at.
        subst (λ r. d.At h.next r.1.next r.1 r.0 v) (sym (same a h))
          (d.copies lo hi h (fields a) v below at);
  }
