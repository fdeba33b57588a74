-- ===== src/Control/Audit.antt =====
-- The events of a run against its row, for every store that the operations make.
pub mod Steps
use euboulia.Prelude.{
  if-elim, ◌≡◌, refl, sym, ap, subst, ◌∙◌, arith, eq_iff, Bool, true, false, Option, none, some,
  List, [], ◌∷◌, ℕ, suc, String, str_eq, if◌then◌else◌, All, All-implies, Bool-cases, inl, inr,
}
use euboulia.Prelude.Dict.{Dict, lookup, insert, remove, lookup-insert, lookup-remove, has_key}
use euboulia.Control.{
  Result, err, unknown_run, ControlStore, ControlRun, ControlEvent, Changes, Status, queued,
  running, may_follow, allowed, Status-discrete, is_terminal_status,
}
use euboulia.Control.Store.{
  first_of, precedes, is_queued, is_empty, is_failed, is_clean, event_of, write_row, create, update,
  delete_failed, claim_next, new_run, write_changes, assigned, without_run, drop_run, unchanged,
  claimed, oldest, rows,
}

-- The events of a run, the latest first.
unfoldable pub history : String → List ControlEvent → List ControlEvent
history run_uid [] = []
history run_uid (e ∷ es) =
    let rest = history run_uid es in if str_eq e.run_uid run_uid then e ∷ rest else rest

-- From the latest event back to the first, which is that of a queued run, each status may follow the
-- one before.
abbrev pub Trail : List ControlEvent → Type 0
Trail [] = ⊥
Trail (e ∷ []) = e.status ≡ queued
Trail (e ∷ (d ∷ rest)) = (may_follow d.status e.status ≡ true) × Trail (d ∷ rest)

-- The latest event is a copy of the row.
pub record Tracked (run_uid : String) (es : List ControlEvent) (r : ControlRun) : Type 0 where
  pub latest : ControlEvent
  pub earlier : List ControlEvent
  pub recorded : es ≡ latest ∷ earlier
  pub mirrors : latest ≡ event_of latest.sequence run_uid r
  pub legal : Trail (latest ∷ earlier)

abbrev pub Matches : String → Option ControlRun → List ControlEvent → Type 0
Matches run_uid none es = es ≡ []
Matches run_uid (some r) es = Tracked run_uid es r

abbrev pub Audited : ControlStore → Type 0
Audited s = (run_uid : String) → Matches run_uid (lookup run_uid s.runs) (history run_uid s.events)

-- A row that may be written where there was this one, or none.
abbrev pub Follows : Option ControlRun → ControlRun → Type 0
Follows none r' = r'.status ≡ queued
Follows (some r) r' = may_follow r.status r'.status ≡ true

extended :
    (run_uid : String) (sequence : ℕ) (old : Option ControlRun) (r' : ControlRun)
    (es : List ControlEvent)
    → Follows old r'
    → Matches run_uid old es
    → Tracked run_uid (event_of sequence run_uid r' ∷ es) r'
extended run_uid sequence none r' es h e = record {
  latest = event_of sequence run_uid r';
  earlier = [];
  recorded = ap (λ xs. event_of sequence run_uid r' ∷ xs) e;
  mirrors = refl;
  legal = h;
}
extended run_uid sequence (some r) r' es h t = record {
  latest = event_of sequence run_uid r';
  earlier = t.latest ∷ t.earlier;
  recorded = ap (λ xs. event_of sequence run_uid r' ∷ xs) t.recorded;
  mirrors = refl;
  legal = (
    subst (λ st. may_follow st r'.status ≡ true) (sym (ap (λ e. e.status) t.mirrors)) h,
    t.legal,
  );
}

str_eq→eq : (u v : String) → str_eq u v ≡ true → u ≡ v
str_eq→eq u v h = grind (arith, eq_iff u v, h)

pub write_row-Audited :
    (u : String) (r' : ControlRun) (s : ControlStore)
    → Follows (lookup u s.runs) r'
    → Audited s
    → Audited (write_row u r' s)
unfolding write_row history
write_row-Audited u r' s follows audited v =
    subst (λ o. Matches v o (history v (latest ∷ s.events))) (sym (lookup-insert v u r' s.runs))
      (written (str_eq u v) refl)
  where
    latest : ControlEvent
    latest = event_of (suc s.last_sequence) u r'

    written :
        (b : Bool)
        → str_eq u v ≡ b
        → Matches v
            (if b then some r' else lookup v s.runs)
            (if b then latest ∷ history v s.events else history v s.events)
    written true e =
        subst (λ w. Tracked w (latest ∷ history w s.events) r') (str_eq→eq u v e)
          (extended u (suc s.last_sequence) (lookup u s.runs) r' (history u s.events) follows
            (audited u))
    written false e = audited v

without_run-own : (u : String) (es : List ControlEvent) → history u (without_run u es) ≡ []
unfolding history without_run
without_run-own u [] = refl
without_run-own u (e ∷ es) = grind (arith, without_run-own u es)

without_run-other :
    (u v : String) (es : List ControlEvent)
    → str_eq u v ≡ false
    → history v (without_run u es) ≡ history v es
unfolding history without_run
without_run-other u v [] h = refl
without_run-other u v (e ∷ es) h =
    grind (arith, without_run-other u v es h, eq_iff e.run_uid u, eq_iff e.run_uid v, eq_iff u v)

pub terminal-fixed : (d e : Status) → is_terminal_status d ≡ true → may_follow d e ≡ true → e ≡ d
unfolding is_terminal_status may_follow allowed
terminal-fixed Status.queued e h k = cc
terminal-fixed Status.running e h k = cc
terminal-fixed Status.disconnected e h k = cc
terminal-fixed Status.completed e h k = ground arith
terminal-fixed Status.failed e h k = ground arith
terminal-fixed Status.cancelled e h k = ground arith

removed-Audited :
    (u : String) (s : ControlStore)
    → Audited s
    → Audited (record s { runs = remove u s.runs; events = without_run u s.events })
removed-Audited u s audited v =
    subst (λ o. Matches v o (history v (without_run u s.events))) (sym (lookup-remove v u s.runs))
      (gone (str_eq u v) refl)
  where
    gone :
        (b : Bool)
        → str_eq u v ≡ b
        → Matches v (if b then none else lookup v s.runs) (history v (without_run u s.events))
    gone true e =
        subst (λ w. history w (without_run u s.events) ≡ []) (str_eq→eq u v e)
          (without_run-own u s.events)
    gone false e =
        subst (λ es. Matches v (lookup v s.runs) es) (sym (without_run-other u v s.events e))
          (audited v)

absent : (u : String) (s : ControlStore) → has_key s.runs u ≡ false → lookup u s.runs ≡ none
unfolding has_key
absent u s h = grind arith

pub create-Audited : (u now : String) (s : ControlStore) → Audited s → Audited (create u now s).1
unfolding create
create-Audited u now s audited =
    if-elim {A = Result ControlRun × ControlStore} (λ out. Audited out.1) (has_key s.runs u) _ _
      (λ h. audited)
      (λ h.
        write_row-Audited u (new_run now) s
          (subst (λ o. Follows o (new_run now)) (sym (absent u s h)) refl) audited)

write_changes-Audited :
    (u now : String) (current target : ControlRun) (s : ControlStore)
    → lookup u s.runs ≡ some current
    → Audited s
    → Audited (write_changes u now current target s).1
unfolding write_changes
write_changes-Audited u now current target s found audited =
    if-elim {A = Result ControlRun × ControlStore} (λ out. Audited out.1)
      (may_follow current.status target.status) _ _
      (λ legal.
        if-elim {A = Result ControlRun × ControlStore} (λ out. Audited out.1)
          (unchanged current target) _ _ (λ h. audited)
          (λ h.
            write_row-Audited u (record target { updated_at = now }) s
              (subst (λ o. Follows o (record target { updated_at = now })) (sym found) legal)
              audited))
      (λ h. audited)

pub update-Audited :
    (u : String) (c : Changes) (now : String) (s : ControlStore)
    → Audited s
    → Audited (update u c now s).1
unfolding update
update-Audited u c now s audited =
    if-elim {A = Result ControlRun × ControlStore} (λ out. Audited out.1) (is_empty c) _ _
      (λ h. audited) (λ h. by_row (lookup u s.runs) refl)
  where
    by_row :
        (o : Option ControlRun)
        → lookup u s.runs ≡ o
        → Audited
            (elim o as (λ x. Result ControlRun × ControlStore) [
              | none ↦ (err unknown_run, s)
              | some current ↦ write_changes u now current (assigned c current) s
            ]).1
    by_row none e = audited
    by_row (some current) e = write_changes-Audited u now current (assigned c current) s e audited

drop_run-Audited :
    (u : String) (r : ControlRun) (s : ControlStore) → Audited s → Audited (drop_run u r s).1
unfolding drop_run
drop_run-Audited u r s audited =
    if-elim {A = Result (Unit {0}) × ControlStore} (λ out. Audited out.1) (is_failed r.status) _ _
      (λ h.
        if-elim {A = Result (Unit {0}) × ControlStore} (λ out. Audited out.1)
          (is_clean r.infrastructure_state) _ _ (λ k. removed-Audited u s audited) (λ k. audited))
      (λ h. audited)

pub delete_failed-Audited :
    (u : String) (s : ControlStore) → Audited s → Audited (delete_failed u s).1
unfolding delete_failed
delete_failed-Audited u s audited = by_row (lookup u s.runs)
  where
    by_row :
        (o : Option ControlRun)
        → Audited
            (elim o as (λ x. Result (Unit {0}) × ControlStore) [
              | none ↦ (err unknown_run, s)
              | some r ↦ drop_run u r s
            ]).1
    by_row none = audited
    by_row (some r) = drop_run-Audited u r s audited
