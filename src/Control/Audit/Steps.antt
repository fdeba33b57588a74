-- ===== src/Control/Audit/Steps.antt =====
-- The stores that the operations of `ControlStore` make of the empty one.
use euboulia.Prelude.{
  if-elim, ◌≡◌, refl, sym, ap, subst, ◌∙◌, Bool, true, false, Option, none, some, List, [], ◌∷◌,
  String, if◌then◌else◌, All, All-implies,
}
use euboulia.Prelude.Dict.{Dict, lookup}
use euboulia.Control.{
  ControlStore, ControlRun, ControlEvent, Changes, Status, queued, running, may_follow, allowed,
  Status-discrete, is_terminal_status,
}
use euboulia.Control.Store.{
  first_of, precedes, is_queued, write_row, create, update, delete_failed, claim_next, claimed,
  oldest, rows,
}
use euboulia.Control.Audit.{
  Trail, Tracked, Matches, Audited, Follows, history, terminal-fixed, write_row-Audited,
  create-Audited, update-Audited, delete_failed-Audited,
}

queued-running : may_follow queued running ≡ true
unfolding may_follow allowed Status-discrete
queued-running = refl

-- A row of the table.
abbrev pub IsRow : ControlStore → String × ControlRun → Type 0
IsRow s (u, r) = lookup u s.runs ≡ some r

pub rows-IsRow : (s : ControlStore) (ds : Dict ControlRun) → All (IsRow s) (rows s.runs ds)
unfolding rows
rows-IsRow s [] = tt
rows-IsRow s ((u, old) ∷ rest) = by_row (rows-IsRow s rest) (lookup u s.runs) refl
  where
    by_row :
        All (IsRow s) (rows s.runs rest)
        → (o : Option ControlRun) → lookup u s.runs ≡ o
        → All (IsRow s) (elim o as (λ x. List (String × ControlRun)) [
          | none ↦ rows s.runs rest
          | some r ↦ (u, r) ∷ rows s.runs rest
        ])
    by_row later none e = later
    by_row later (some r) e = (e, later)

is_queued→queued : (st : Status) → is_queued st ≡ true → st ≡ queued
is_queued→queued Status.queued h = refl
is_queued→queued Status.running h = cc
is_queued→queued Status.completed h = cc
is_queued→queued Status.failed h = cc
is_queued→queued Status.cancelled h = cc
is_queued→queued Status.disconnected h = cc

-- A queued row of the table, or none.
abbrev pub Claimable : ControlStore → Option (String × ControlRun) → Type 0
Claimable s none = Unit
Claimable s (some x) = IsRow s x × (x.1.status ≡ queued)

module _ (before : String → String → Bool) where
  pub oldest-Claimable :
      (s : ControlStore) (xs : List (String × ControlRun))
      → All (IsRow s) xs
      → Claimable s (oldest before xs)
  unfolding oldest
  oldest-Claimable s [] h = tt
  oldest-Claimable s ((u, r) ∷ rest) (h, hs) =
      step (is_queued r.status) refl (oldest before rest) (oldest-Claimable s rest hs)
    where
      step :
          (b : Bool)
          → is_queued r.status ≡ b
          → (later : Option (String × ControlRun)) → Claimable s later
          → Claimable s (if b then some (first_of before (u, r) later) else later)
      step false e later c = c
      step true e none c = (h, is_queued→queued r.status e)
      step true e (some y) c =
          if-elim (λ z. Claimable s (some z)) (precedes before y (u, r)) y (u, r) (λ k. c)
            (λ k. (h, is_queued→queued r.status e))

  claim_next-Audited :
      (now : String) (s : ControlStore) → Audited s → Audited (claim_next before now s).1
  unfolding claim_next
  claim_next-Audited now s audited =
      by_row (oldest before (rows s.runs s.runs))
        (oldest-Claimable s (rows s.runs s.runs) (rows-IsRow s s.runs))
    where
      by_row :
          (o : Option (String × ControlRun))
          → Claimable s o
          → Audited
              (elim o as (λ x. Option ControlRun × ControlStore) [
                | none ↦ (none, s)
                | some (u, r) ↦ (some (claimed now r), write_row u (claimed now r) s)
              ]).1
      by_row none c = audited
      by_row (some (u, r)) (found, waits) =
          write_row-Audited u (claimed now r) s
            (subst (λ o. Follows o (claimed now r)) (sym found)
              (subst (λ st. may_follow st running ≡ true) (sym waits) queued-running))
            audited

  -- One operation of the store.
  pub data Step : ControlStore → ControlStore → Type 0 where
    creates : (u now : String) (s : ControlStore) → Step s (create u now s).1
    updates :
        (u : String) (c : Changes) (now : String) (s : ControlStore) → Step s (update u c now s).1
    claims : (now : String) (s : ControlStore) → Step s (claim_next before now s).1
    deletes : (u : String) (s : ControlStore) → Step s (delete_failed u s).1

  -- The stores that the operations make of the empty one.
  pub data Reachable : ControlStore → Type 0 where
    empty : Reachable (record { runs = []; events = []; last_sequence = 0 })
    more : {s t : ControlStore} → Reachable s → Step s t → Reachable t

  Step-Audited : {s t : ControlStore} → Step s t → Audited s → Audited t
  Step-Audited (creates u now s) h = create-Audited u now s h
  Step-Audited (updates u c now s) h = update-Audited u c now s h
  Step-Audited (claims now s) h = claim_next-Audited now s h
  Step-Audited (deletes u s) h = delete_failed-Audited u s h

  Reachable-Audited : {s : ControlStore} → Reachable s → Audited s
  unfolding lookup history
  Reachable-Audited empty = λ v. refl
  Reachable-Audited (more r step) = Step-Audited step (Reachable-Audited r)

-- Each event of the list whose status is terminal has this status.
abbrev pub Settled : Status → List ControlEvent → Type 0
Settled st es = All (λ d. is_terminal_status d.status ≡ true → st ≡ d.status) es

Trail-Settled :
    (e : ControlEvent) (es : List ControlEvent) → Trail (e ∷ es) → Settled e.status (e ∷ es)
Trail-Settled e [] h = (λ k. refl, tt)
Trail-Settled e (d ∷ es) (follows, h) = (
  λ k. refl,
  All-implies (d ∷ es)
      (λ x same k.
        terminal-fixed d.status e.status
          (subst (λ st. is_terminal_status st ≡ true) (sym (same k)) k) follows
        ∙ same k)
      (Trail-Settled d es h),
)

Tracked-Settled :
    (u : String) (es : List ControlEvent) (r : ControlRun) → Tracked u es r → Settled r.status es
Tracked-Settled u es r t =
    subst (λ xs. Settled r.status xs) (sym t.recorded)
      (subst (λ st. Settled st (t.latest ∷ t.earlier)) (ap (λ e. e.status) t.mirrors)
        (Trail-Settled t.latest t.earlier t.legal))

module _ (before : String → String → Bool) where
  -- In every store that the operations make of the empty one, the latest event of a run is a copy of
  -- its row, the events of the run start with a queued run and pass by allowed transitions only, and a
  -- run with an event of a terminal status has that status for good.
  pub Reachable-Tracked :
      (s : ControlStore)
      → Reachable before s
      → (run_uid : String) (r : ControlRun) → lookup run_uid s.runs ≡ some r
      → Tracked run_uid (history run_uid s.events) r × Settled r.status (history run_uid s.events)
  Reachable-Tracked s reachable u r found =
      let t : Tracked u (history u s.events) r =
        subst (λ o. Matches u o (history u s.events)) found
          (Reachable-Audited before reachable u) in
      (t, Tracked-Settled u (history u s.events) r t)
