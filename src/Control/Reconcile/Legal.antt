-- ===== src/Control/Reconcile/Legal.antt =====
-- When the updates of `_reconcile_task` and `_reconcile_terminal_state` are refused.
use euboulia.Prelude.{
  ◌≢◌, ◌⊎◌, inl, inr, ◌≡◌, refl, sym, ap, subst, ◌∙◌, arith, Bool, true, false, Option, none, some,
  String, eq_iff, if◌then◌else◌, if-elim,
}
use euboulia.Prelude.Dict.{Dict, lookup, insert, lookup-insert}
use euboulia.Control.{
  type_error, allowed, illegal_transition, ControlStore, ControlRun, Changes, Result, ok, err,
  unknown_run, Status, may_follow, Status-discrete,
}
use euboulia.Control.Store.{
  same, update, is_empty, assigned, unchanged, write_changes, write_row, chosen,
}
use euboulia.Control.Reconcile.{
  plain, infrastructure_of, same_state, RunRecord, reconcile_terminal_state, terminal_changes,
  Progress, Field, value, malformed, is_malformed, is_ill_typed, Observed, reconcile_task,
  reconciled,
}
use euboulia.Control.Reconcile.Next.{
  Active, next_status, reconciled-status, Active-may_follow, next-unqueued,
}

same-eq : (a b : Status) → same Status-discrete a b ≡ true → a ≡ b
same-eq a b h = grind arith

unchanged-status : (r s : ControlRun) → unchanged r s ≡ true → r.status ≡ s.status
unfolding unchanged
unchanged-status r s h = grind arith

lookup-own : (u : String) (r : ControlRun) (d : Dict ControlRun) → lookup u (insert u r d) ≡ some r
lookup-own u r d = grind (arith, lookup-insert u u r d, eq_iff u u)

module _ (u now : String) (o : Observed) (s : ControlStore) (task : ControlRun) where
  -- The row after an update.
  pub record Written (r : Result ControlRun) (t : ControlStore) (st : Status) : Type 0 where
    pub row : ControlRun
    pub returned : r ≡ ok row
    pub stored : lookup u t.runs ≡ some row
    pub has_status : row.status ≡ st

  write_changes-Written :
      (target : ControlRun)
      → lookup u s.runs ≡ some task
      → may_follow task.status target.status ≡ true
      → Written
          (write_changes u now task target s).0
          (write_changes u now task target s).1
          target.status
  unfolding write_changes write_row
  write_changes-Written target found legal =
      subst (λ b. Written (chosen_by b).0 (chosen_by b).1 target.status) (sym legal)
        (by_difference (unchanged task target) refl)
    where
      written_to : Result ControlRun × ControlStore
      written_to = (
        ok (record target { updated_at = now }),
        write_row u (record target { updated_at = now }) s,
      )

      chosen_by : Bool → Result ControlRun × ControlStore
      chosen_by b =
          if b
          then if unchanged task target then (ok task, s) else written_to
          else (err (illegal_transition task.status target.status), s)

      by_difference :
          (b : Bool)
          → unchanged task target ≡ b
          → Written
              (if b then (ok task, s) else written_to).0
              (if b then (ok task, s) else written_to).1
              target.status
      by_difference true e = record {
        row = task;
        returned = refl;
        stored = found;
        has_status = unchanged-status task target e;
      }
      by_difference false e = record {
        row = record target { updated_at = now };
        returned = refl;
        stored = lookup-own u (record target { updated_at = now }) s.runs;
        has_status = refl;
      }

  update-found :
      (c : Changes)
      → lookup u s.runs ≡ some task
      → is_empty c ≡ false
      → update u c now s ≡ write_changes u now task (assigned c task) s
  unfolding update
  update-found c found h =
      ap (λ b. if b then (found_row (lookup u s.runs), s) else by_row (lookup u s.runs)) h
      ∙ ap by_row found
    where
      found_row : Option ControlRun → Result ControlRun
      found_row none = err unknown_run
      found_row (some r) = ok r

      by_row : Option ControlRun → Result ControlRun × ControlStore
      by_row q = elim q [
        | none ↦ (err unknown_run, s)
        | some current ↦ write_changes u now current (assigned c current) s
      ]

  assigned-status : (c : Changes) → (assigned c task).status ≡ chosen c.status task.status
  unfolding assigned
  assigned-status c = refl

  is_empty-status : (c : Changes) → is_empty c ≡ true → chosen c.status task.status ≡ task.status
  unfolding is_empty
  is_empty-status c h = grind arith

  -- A call that was not refused, after which the row has this status.
  abbrev pub Settles : Result (Unit {0}) × ControlStore → Status → Type 0
  Settles out st =
      (out.0 ≡ ok tt) × ((row : ControlRun) × (lookup u out.1.runs ≡ some row) × (row.status ≡ st))

  Written-Settles :
      (out : Result ControlRun × ControlStore) (st : Status)
      → Written out.0 out.1 st
      → Settles (plain out) st
  Written-Settles (r, t) st w =
      (ap (λ x. (plain (x, t)).0) w.returned, (w.row, w.stored, w.has_status))

  applied :
      (c : Changes) (st : Status)
      → lookup u s.runs ≡ some task
      → chosen c.status task.status ≡ st
      → may_follow task.status st ≡ true
      → Settles (if is_empty c then (ok tt, s) else plain (update u c now s)) st
  applied c st found e legal =
      if-elim (λ out. Settles out st) (is_empty c) (ok tt, s) (plain (update u c now s))
        (λ h. (refl, (task, found, sym (is_empty-status c h) ∙ e)))
        (λ h. Written-Settles (update u c now s) st (
          subst (λ out. Written out.0 out.1 st) (sym (update-found c found h))
            (subst (λ x. Written written.0 written.1 x) (assigned-status c ∙ e)
              (write_changes-Written (assigned c task) found (
                subst (λ x. may_follow task.status x ≡ true) (sym (assigned-status c ∙ e))
                  legal)))))
    where
      written : Result ControlRun × ControlStore
      written = write_changes u now task (assigned c task) s

  -- No value of the progress that `_reconcile_task` reads is of a type that `update` refuses.
  pub record Readable (p : Progress) : Type 0 where
    pub detail : p.detail ≢ malformed
    pub completed_units : p.completed_units ≢ malformed
    pub total_units : p.total_units ≢ malformed

  -- A count of units is.
  abbrev pub BadUnits : Progress → Type 0
  BadUnits p = (p.completed_units ≡ malformed) ⊎ (p.total_units ≡ malformed)

  abbrev pub EachProgress : (Progress → Type 0) → Type 0
  EachProgress P = (p : Progress) → o.progress ≡ some p → P p

  not_malformed : {A : Type 0} (f : Field A) → f ≢ malformed → is_malformed f ≡ false
  not_malformed (value v) h = refl
  not_malformed malformed h = absurd (h refl)

  well_typed :
      (q : Option Progress) (c : Changes)
      → ((p : Progress) → q ≡ some p → Readable p)
      → is_ill_typed q c ≡ false
  unfolding is_ill_typed
  well_typed none c h = refl
  well_typed (some p) c h =
      let readable = h p refl in
      ground (
        arith,
        not_malformed p.detail readable.detail,
        not_malformed p.completed_units readable.completed_units,
        not_malformed p.total_units readable.total_units,
      )

  ill_typed :
      (q : Option Progress) (c : Changes) (p : Progress)
      → q ≡ some p
      → BadUnits p
      → is_ill_typed q c ≡ true
  unfolding is_ill_typed
  ill_typed none c p e bad = cc
  ill_typed (some p') c p e (inl bad) = ground (arith, ap is_malformed bad)
  ill_typed (some p') c p e (inr bad) = ground (arith, ap is_malformed bad)

  pub reconcile_task-Settles :
      lookup u s.runs ≡ some task
      → Active task.status
      → (EachProgress Readable → Settles (reconcile_task u task now o s) (next_status task o))
        × ((p : Progress)
            → o.progress ≡ some p
            → BadUnits p
            → reconcile_task u task now o s ≡ (err type_error, s))
  unfolding reconcile_task
  reconcile_task-Settles found active = (
    λ readable.
        if-elim (λ out. Settles out (next_status task o)) (is_ill_typed o.progress changes) _ _
          (λ bad. cc (bad, well_typed o.progress changes readable))
          (λ good. applied changes (next_status task o) found (reconciled-status task now o) (
            Active-may_follow task.status (next_status task o) active
              (next-unqueued task o active))),
    λ p e bad.
        ap
          (λ b.
            if b
            then (err type_error, s)
            else if is_empty changes
            then (ok tt, s)
            else plain (update u changes now s))
          (ill_typed o.progress changes p e bad),
  )
    where
      changes : Changes
      changes = reconciled task now o

  self-allowed : may_follow task.status task.status ≡ true
  unfolding may_follow allowed Status-discrete
  self-allowed = grind arith

  terminal_changes-kept :
      (r : RunRecord)
      → (is_empty (terminal_changes r) ≡ false)
        × (chosen (terminal_changes r).status task.status ≡ task.status)
  unfolding is_empty terminal_changes
  terminal_changes-kept r = (refl, refl)

  -- `_reconcile_terminal_state` is never refused an update, and it does not reopen a run: the row of the
  -- table has the status that it had.
  pub reconcile_terminal_state-Settles :
      (found_record : Option RunRecord)
      → lookup u s.runs ≡ some task
      → Settles (reconcile_terminal_state u task now found_record s) task.status
  unfolding reconcile_terminal_state
  reconcile_terminal_state-Settles none found = (refl, (task, found, refl))
  reconcile_terminal_state-Settles (some r) found =
      if-elim (λ out. Settles out task.status)
        (same_state (infrastructure_of r) task.infrastructure_state) (ok tt, s)
        (plain (update u (terminal_changes r) now s)) (λ h. (refl, (task, found, refl)))
        (λ h.
          subst
            (λ b.
              Settles (if b then (ok tt, s) else plain (update u (terminal_changes r) now s))
                task.status)
            (terminal_changes-kept r).0
            (applied (terminal_changes r) task.status found (terminal_changes-kept r).1
              self-allowed))
