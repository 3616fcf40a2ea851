-- ===== src/Backup/History.antt =====
-- The history of a backup with a schedule: the records that are appended to the status.
use mathlib.Core.Bool.{false≢true}
use redis_backup_operator.Base.{
  Bool, String, ◌==◌, ◌≡◌, refl, ◌≢◌, inl, inr, true, false, not, Option, none, some, List, [], ◌∷◌,
  ◌++◌, get_elem?, get_last?, get_last?-concat, Bool-cases, Option-cases, ==-eq-false, ==-eq-true,
  eq_iff, ap, sym, ◌∙◌,
}
use redis_backup_operator.Types.Backup.{RedisBackup, BackupCondition, LastBackupInfo}
use redis_backup_operator.Runtime.{World, Event, updates_backup, Environment, or_panic}
use redis_backup_operator.Backup.Steps.{
  with_conditions, with_info, is_new, append_condition, extend_history,
}
use redis_backup_operator.Backup.Reconcile.Writes.{record_info-log}

-- No two neighbours of the history are records of the same file.
abbrev pub NoRepeats : List BackupCondition → Type 0
NoRepeats [] = Unit
NoRepeats (c ∷ []) = Unit
NoRepeats (c ∷ d ∷ cs) = (d.file_path ≢ c.file_path) × NoRepeats (d ∷ cs)

append-NoRepeats :
    (cs : List BackupCondition) (c : BackupCondition)
    → is_new c cs ≡ true
    → NoRepeats cs
    → NoRepeats (cs ++ c ∷ [])
append-NoRepeats [] c new ok = tt
append-NoRepeats (d ∷ []) c new ok =
    (λ e. false≢true (sym (ap not (==-eq-true c.file_path d.file_path e)) ∙ new), tt)
append-NoRepeats (d ∷ e ∷ cs) c new ok = (ok.0, append-NoRepeats (e ∷ cs) c new ok.1)

-- The history that ends in a record of the file of `c`, with no repeats
pub record IsHistory (c : BackupCondition) (cs : List BackupCondition) : Type 0 where
  pub no_repeats : NoRepeats cs
  pub last : BackupCondition
  pub at_end : get_last? cs ≡ some last
  pub same_file : last.file_path ≡ c.file_path

old-IsHistory :
    (cs : List BackupCondition) (c : BackupCondition)
    → is_new c cs ≡ false
    → NoRepeats cs
    → IsHistory c cs
old-IsHistory cs c old ok = elim (Option-cases (get_last? cs)) [
  | inl absent ↦ absurd (false≢true (sym old ∙ ap (ends_before c) absent))
  | inr (l, here) ↦ record {
    no_repeats = ok;
    last = l;
    at_end = here;
    same_file =
        sym
          ((eq_iff c.file_path l.file_path).0 (not-false _ (sym (ap (ends_before c) here) ∙ old)));
  }
]
  where
    ends_before : BackupCondition → Option BackupCondition → Bool
    ends_before c none = true
    ends_before c (some last) = not (c.file_path == last.file_path)

    not-false : (b : Bool) → not b ≡ false → b ≡ true
    not-false true e = refl
    not-false false e = sym e

new-IsHistory :
    (cs : List BackupCondition) (c : BackupCondition)
    → is_new c cs ≡ true
    → NoRepeats cs
    → IsHistory c (cs ++ c ∷ [])
new-IsHistory cs c new ok = record {
  no_repeats = append-NoRepeats cs c new ok;
  last = c;
  at_end = get_last?-concat cs c;
  same_file = refl;
}

module _ {S : Type 0} (env : Environment S) (backup : RedisBackup) (info : LastBackupInfo) where
  -- The first request after `before` updates the status, with a history.
  pub record Extends (c : BackupCondition) (before after : List Event) : Type 0 where
    pub updated : RedisBackup
    pub later : List Event
    pub sent : after ≡ later ++ updates_backup updated ∷ before
    pub history : IsHistory c updated.status.conditions

  append_condition-Extends :
      (c : BackupCondition) (w : World S)
      → NoRepeats backup.status.conditions
      → Extends c w.log (append_condition env backup info c w).1.log
  unfolding append_condition
  append_condition-Extends c w ok =
      let cs = backup.status.conditions in
      let extended = with_conditions backup (cs ++ c ∷ []) in
      let answer = env.api.update_backup_status extended w.cluster in
      elim (Bool-cases (is_new c cs)) [
        | inr old ↦ record {
          updated = with_info backup info;
          later = [];
          sent = rw (append_condition, old) (record_info-log env backup info w);
          history = old-IsHistory cs c old ok;
        }
        | inl new ↦ elim (Option-cases (answer.0).error) [
          | inr (err, fails) ↦ record {
            updated = extended;
            later = [];
            sent = rw (append_condition, new, fails) refl;
            history = new-IsHistory cs c new ok;
          }
          | inl fine ↦ record {
            updated = extended;
            later = updates_backup (with_info (answer.0).value info) ∷ [];
            sent =
                rw (append_condition, new, fine)
                  (record_info-log env (answer.0).value info
                    (record { cluster = answer.1; log = updates_backup extended ∷ w.log }));
            history = new-IsHistory cs c new ok;
          }
        ]
      ]

  -- Where redis holds a record of a backup, and the history has no two neighbours of the same
  -- file, the first status update has such a history too, which ends in a record of that file.
  pub extend_history-Extends :
      (res : String) (c : BackupCondition) (w : World S)
      → res ≢ ""
      → get_elem? (env.host.unmarshal_conditions res) 0 ≡ some c
      → NoRepeats backup.status.conditions
      → Extends c w.log (extend_history env backup info res w).1.log
  unfolding extend_history
  extend_history-Extends res c w full decoded ok =
      rw (extend_history, ==-eq-false res "" full, or_panic, decoded)
        (append_condition-Extends c w ok)
