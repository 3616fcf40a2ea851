-- ===== src/DeepCopy/Blocks.antt =====
-- A lawful copy of a slice, of a map and of what a pointer points to.
use redis_backup_operator.Base.{
  ℕ, suc, ◌≤◌, ◌<◌, Option, none, some, List, [], ◌∷◌, ◌≡◌, refl, sym, ap, ◌∙◌, ◌≢◌, arith,
}
use mathlib.Core.Path.{subst}
use redis_backup_operator.DeepCopy.Memory.{
  Memory, Ref, Layout, M, reserve, write, read, copy_each, copy_block, copy_ref,
}
use redis_backup_operator.DeepCopy.Lawful.{Agrees, Grows, Grows-trans, Deep}

module _ {C A : Type 0} (d : Deep C A) where
  abbrev pub EachAt : ℕ → ℕ → Memory C → List A → List d.View → Type 0
  EachAt lo hi h [] [] = Unit
  EachAt lo hi h [] (v ∷ vs) = ⊥
  EachAt lo hi h (x ∷ xs) [] = ⊥
  EachAt lo hi h (x ∷ xs) (v ∷ vs) = d.At lo hi h x v × EachAt lo hi h xs vs

  copy_each-Grows : (xs : List A) (h : Memory C) → Grows h (copy_each d.copy xs h).1
  copy_each-Grows [] h = (omega arith, λ p lo hi. refl)
  copy_each-Grows (x ∷ xs) h =
      Grows-trans h (d.copy x h).1 _ (d.grows x h) (copy_each-Grows xs (d.copy x h).1)

  EachAt-widens :
      (lo hi lo' hi' : ℕ) (h : Memory C) (xs : List A) (vs : List d.View)
      → lo' ≤ lo
      → hi ≤ hi'
      → EachAt lo hi h xs vs
      → EachAt lo' hi' h xs vs
  EachAt-widens lo hi lo' hi' h [] [] l u at = at
  EachAt-widens lo hi lo' hi' h (x ∷ xs) (v ∷ vs) l u (here, there) =
      (d.widens lo hi lo' hi' h x v l u here, EachAt-widens lo hi lo' hi' h xs vs l u there)
  EachAt-widens lo hi lo' hi' h [] (v ∷ vs) l u at = absurd at
  EachAt-widens lo hi lo' hi' h (x ∷ xs) [] l u at = absurd at

  EachAt-keeps :
      (lo hi : ℕ) (h h' : Memory C) (xs : List A) (vs : List d.View)
      → Agrees lo hi h h'
      → EachAt lo hi h xs vs
      → EachAt lo hi h' xs vs
  EachAt-keeps lo hi h h' [] [] same at = at
  EachAt-keeps lo hi h h' (x ∷ xs) (v ∷ vs) same (here, there) =
      (d.keeps lo hi h h' x v same here, EachAt-keeps lo hi h h' xs vs same there)
  EachAt-keeps lo hi h h' [] (v ∷ vs) same at = absurd at
  EachAt-keeps lo hi h h' (x ∷ xs) [] same at = absurd at

  copy_each-EachAt :
      (lo hi : ℕ) (h : Memory C) (xs : List A) (vs : List d.View)
      → hi ≤ h.next
      → EachAt lo hi h xs vs
      → EachAt h.next
          (copy_each d.copy xs h).1.next
          (copy_each d.copy xs h).1
          (copy_each d.copy xs h).0
          vs
  copy_each-EachAt lo hi h [] [] below at = tt
  copy_each-EachAt lo hi h (x ∷ xs) (v ∷ vs) below (here, there) =
      let h1 = (d.copy x h).1 in
      let h2 = (copy_each d.copy xs h1).1 in
      let (le, same) = d.grows x h in
      let (le', same') = copy_each-Grows xs h1 in
      (
        d.widens h.next h1.next h.next h2.next h2 _ _ (omega arith) le' (
            d.keeps h.next h1.next h1 h2 _ _ (λ p lower upper. same' p (omega arith) upper)
              (d.copies lo hi h x v below here)),
        EachAt-widens h1.next h2.next h.next h2.next h2 _ _ le (omega arith) (
            copy_each-EachAt lo hi h1 xs vs (omega arith) (
              EachAt-keeps lo hi h h1 xs vs (λ p lower upper. same p (omega arith) (omega arith))
                there)),
      )
  copy_each-EachAt lo hi h [] (v ∷ vs) below at = absurd at
  copy_each-EachAt lo hi h (x ∷ xs) [] below at = absurd at

  module _ (layout : Layout C A) where
    -- The block at `p` has elements that stand for `vs`.
    pub record IsBlock (lo hi : ℕ) (h : Memory C) (p : ℕ) (v : Option (List d.View)) : Type 0 where
      pub xs : List A
      pub vs : List d.View
      pub viewed : v ≡ some vs
      pub lower : lo ≤ p
      pub upper : p < hi
      pub stored : read layout p h ≡ some xs
      pub each : EachAt lo hi h xs vs

    abbrev pub RefAt : ℕ → ℕ → Memory C → Ref A → Option (List d.View) → Type 0
    RefAt lo hi h none v = v ≡ none
    RefAt lo hi h (some p) v = IsBlock lo hi h p v

    write-other : (q : ℕ) (c : C) (h : Memory C) (p : ℕ) → p ≢ q → (write q c h).cell p ≡ h.cell p
    write-other q c h p differs = ground arith

    read-write :
        (q : ℕ) (xs : List A) (h : Memory C) → read layout q (write q (layout.block xs) h) ≡ some xs
    read-write q xs h = ground (arith, layout.elements_block xs)

    abbrev pub copy : Ref A → M C (Ref A)
    copy = copy_ref layout d.copy

    copy_block-Grows :
        (p : ℕ) (h : Memory C) (o : Option (List A)) → Grows h (copy_block layout d.copy p h o).1
    copy_block-Grows p h none = (omega arith, λ p lo hi. refl)
    copy_block-Grows p h (some xs) =
        let (le, same) = copy_each-Grows xs (reserve h) in
        (
          omega arith,
          λ q lo hi.
              write-other h.next _ (copy_each d.copy xs (reserve h)).1 q (omega arith)
              ∙ same q lo (omega arith),
        )

    pub copy-Grows : (r : Ref A) (h : Memory C) → Grows h (copy r h).1
    copy-Grows none h = (omega arith, λ p lo hi. refl)
    copy-Grows (some p) h = copy_block-Grows p h (read layout p h)

    pub RefAt-widens :
        (lo hi lo' hi' : ℕ) (h : Memory C) (r : Ref A) (v : Option (List d.View))
        → lo' ≤ lo
        → hi ≤ hi'
        → RefAt lo hi h r v
        → RefAt lo' hi' h r v
    RefAt-widens lo hi lo' hi' h none v l u at = at
    RefAt-widens lo hi lo' hi' h (some p) v l u b = record {
      xs = b.xs;
      vs = b.vs;
      viewed = b.viewed;
      lower = omega (arith, b.lower);
      upper = omega (arith, b.upper);
      stored = b.stored;
      each = EachAt-widens lo hi lo' hi' h b.xs b.vs l u b.each;
    }

    pub RefAt-keeps :
        (lo hi : ℕ) (h h' : Memory C) (r : Ref A) (v : Option (List d.View))
        → Agrees lo hi h h'
        → RefAt lo hi h r v
        → RefAt lo hi h' r v
    RefAt-keeps lo hi h h' none v same at = at
    RefAt-keeps lo hi h h' (some p) v same b = record {
      xs = b.xs;
      vs = b.vs;
      viewed = b.viewed;
      lower = b.lower;
      upper = b.upper;
      stored =
          ap (λ o. elim o [ none ↦ none | some c ↦ layout.elements c ]) (same p b.lower b.upper)
          ∙ b.stored;
      each = EachAt-keeps lo hi h h' b.xs b.vs same b.each;
    }

    pub copy-RefAt :
        (lo hi : ℕ) (h : Memory C) (r : Ref A) (v : Option (List d.View))
        → hi ≤ h.next
        → RefAt lo hi h r v
        → RefAt h.next (copy r h).1.next (copy r h).1 (copy r h).0 v
    copy-RefAt lo hi h none v below at = at
    copy-RefAt lo hi h (some p) v below b =
        let (le, same) = copy_each-Grows b.xs (reserve h) in
        let r = copy_each d.copy b.xs (reserve h) in
        let h' = write h.next (layout.block r.0) r.1 in
        let made : EachAt (suc h.next) (r.1).next r.1 r.0 b.vs =
          copy_each-EachAt lo hi (reserve h) b.xs b.vs (omega arith)
            (EachAt-keeps lo hi h (reserve h) b.xs b.vs (λ q lower upper. refl) b.each) in
        let block : IsBlock h.next h'.next h' h.next v = record {
          xs = r.0;
          vs = b.vs;
          viewed = b.viewed;
          lower = omega arith;
          upper = omega arith;
          stored = read-write h.next r.0 r.1;
          each =
              EachAt-widens (suc h.next) (r.1).next h.next h'.next h' r.0 b.vs (omega arith)
                (omega arith)
                (EachAt-keeps (suc h.next) (r.1).next r.1 h' r.0 b.vs
                  (λ q lower upper. write-other h.next _ r.1 q (omega arith)) made);
        } in
        subst (λ o. RefAt h.next o.1.next o.1 o.0 v)
          (sym (ap (copy_block layout d.copy p h) b.stored)) block

    abbrev pub ref : Deep C (Ref A)
    ref = record {
      View = Option (List d.View);
      At = RefAt;
      copy = copy;
      grows = copy-Grows;
      widens = RefAt-widens;
      keeps = RefAt-keeps;
      copies = copy-RefAt;
    }
