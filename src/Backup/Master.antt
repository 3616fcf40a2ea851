-- ===== src/Backup/Master.antt =====
-- Which pod's claim is backed up.
use redis_backup_operator.Base.{
  get_elem?, String, ◌≡◌, refl, ◌↔◌, ◌⊎◌, inl, inr, true, false, List, [], ◌∷◌, ◌++◌, arith, All,
  some, Bool-cases, ap, sym, ◌∙◌, eq_iff,
}
use redis_backup_operator.Types.Kubernetes.{Pod}
use redis_backup_operator.Backup.{
  found, no_master, is_master, claim_of_master, search_master, first_claim,
}

-- `p` is the first pod of the list that is labelled as the master.
pub record IsFirstMaster (p : Pod) (pods : List Pod) : Type 0 where
  pub before : List Pod
  pub after : List Pod
  pub here : pods ≡ before ++ p ∷ after
  pub none_before : All (λ q. is_master q ≡ false) before
  pub labelled : is_master p ≡ true

IsFirstMaster-cons :
    {p : Pod} (q : Pod) {pods : List Pod}
    → is_master q ≡ false
    → IsFirstMaster p pods
    → IsFirstMaster p (q ∷ pods)
IsFirstMaster-cons q h m = record {
  before = q ∷ m.before;
  after = m.after;
  here = ap (λ r. q ∷ r) m.here;
  none_before = (h, m.none_before);
  labelled = m.labelled;
}

-- Either no pod is labelled as the master, or the first one that is decides the search.
pub search_master_cases :
    (pods : List Pod)
    → (All (λ q. is_master q ≡ false) pods × (search_master pods ≡ no_master))
      ⊎ ((p : Pod) × IsFirstMaster p pods × (search_master pods ≡ claim_of_master p))
unfolding search_master
search_master_cases [] = inl (tt, refl)
search_master_cases (q ∷ pods) = elim (Bool-cases (is_master q)) [
  | inl is ↦ inr (
    q,
    record { before = []; after = pods; here = refl; none_before = tt; labelled = is },
    ground arith,
  )
  | inr isnt ↦ elim (search_master_cases pods) [
    | inl (none_of, e) ↦ inl ((isnt, none_of), ground arith)
    | inr (p, first, e) ↦ inr (p, IsFirstMaster-cons q isnt first, ground arith)
  ]
]

search_master-first :
    (before after : List Pod) (p : Pod)
    → All (λ q. is_master q ≡ false) before
    → is_master p ≡ true
    → search_master (before ++ p ∷ after) ≡ claim_of_master p
unfolding search_master
search_master-first [] after p h is = ground arith
search_master-first (q ∷ before) after p h is =
    ground (arith, search_master-first before after p h.1 is)

no_master-ne-found : (claim : String) → no_master ≡ found claim → ⊥
no_master-ne-found claim e = cc

claim_of_master-found :
    (p : Pod) (claim : String)
    → claim_of_master p ≡ found claim
    → (p.phase ≡ "Running") × (first_claim p.spec ≡ some claim)
claim_of_master-found p claim e = (ground (arith, eq_iff p.phase "Running"), ground arith)

claim_of_master-running :
    (p : Pod) (claim : String)
    → p.phase ≡ "Running"
    → first_claim p.spec ≡ some claim
    → claim_of_master p ≡ found claim
claim_of_master-running p claim running claimed = ground (arith, eq_iff p.phase "Running")

-- The search over the pods chooses a claim exactly when the first pod labelled as the master is
-- running and its first volume is that claim.
pub search_master-found_iff :
    (pods : List Pod) (claim : String)
    → (search_master pods ≡ found claim) ↔ (
        (p : Pod) × IsFirstMaster p pods
        × (p.phase ≡ "Running")
        × (first_claim p.spec ≡ some claim))
search_master-found_iff pods claim = (
  λ e. elim (search_master_cases pods) [
    | inl (_, absent) ↦ absurd (no_master-ne-found claim (sym absent ∙ e))
    | inr (p, first, decides) ↦
        let (running, claimed) = claim_of_master-found p claim (sym decides ∙ e) in
        (p, first, running, claimed)
  ],
  λ (p, first, running, claimed).
      ap search_master first.here
      ∙ search_master-first first.before first.after p first.none_before first.labelled
      ∙ claim_of_master-running p claim running claimed,
)

-- Where a claim is found, there is a first pod.
pub search_master-head :
    (pods : List Pod) (m : String)
    → search_master pods ≡ found m
    → (p : Pod) × (get_elem? pods 0 ≡ some p)
unfolding search_master
search_master-head [] m e = cc
search_master-head (p ∷ pods) m e = (p, refl)
