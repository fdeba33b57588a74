-- ===== src/Control/Queue.antt =====
-- Which run `claim_next` takes: SQLite's order of texts is a strict total order.
use euboulia.Prelude.{
  ◌≡◌, refl, arith, eq_iff, Bool, true, false, Option, none, some, List, [], ◌∷◌, String,
  if◌then◌else◌, All, All-implies, if-elim,
}
use euboulia.Prelude.Dict.{lookup}
use euboulia.Control.{ControlStore, ControlRun, queued}
use euboulia.Control.Store.{
  precedes, oldest, first_of, rows, is_queued, claim_next, claimed, write_row,
}
use euboulia.Control.Audit.Steps.{rows-IsRow, Claimable, oldest-Claimable}

pub record TextOrder (before : String → String → Bool) : Type 0 where
  pub irreflexive : (a : String) → before a a ≡ false
  pub transitive : (a b c : String) → before a b ≡ true → before b c ≡ true → before a c ≡ true
  pub total : (a b : String) → before a b ≡ false → before b a ≡ false → a ≡ b

module _ (before : String → String → Bool) (order : TextOrder before) where
  precedes-itself : (x : String × ControlRun) → precedes before x x ≡ false
  unfolding precedes
  precedes-itself (u, r) = grind (arith, order.irreflexive u, order.irreflexive r.submitted_at)

  precedes-asymmetric :
      (x y : String × ControlRun) → precedes before x y ≡ true → precedes before y x ≡ false
  unfolding precedes
  precedes-asymmetric (u, r) (v, q) h = grind (
    arith,
    order.irreflexive u,
    order.irreflexive r.submitted_at,
    order.transitive u v u,
    order.transitive r.submitted_at q.submitted_at r.submitted_at,
    eq_iff r.submitted_at q.submitted_at,
    eq_iff q.submitted_at r.submitted_at,
  )

  -- What comes before the later of two comes before the earlier, or after which it does.
  not_before : (a b c : String) → before a b ≡ false → before b c ≡ false → before a c ≡ false
  not_before a b c h k = grind (arith, order.transitive b a c, order.total a b)

  precedes-chain :
      (x y z : String × ControlRun)
      → precedes before x y ≡ false
      → precedes before y z ≡ false
      → precedes before x z ≡ false
  unfolding precedes
  precedes-chain (u, r) (v, q) (w, p) h k = grind (
    arith,
    not_before r.submitted_at q.submitted_at p.submitted_at,
    not_before u v w,
    order.total r.submitted_at q.submitted_at,
    eq_iff r.submitted_at q.submitted_at,
    eq_iff q.submitted_at p.submitted_at,
    eq_iff r.submitted_at p.submitted_at,
  )

  -- A queued row of the list does not precede this one.
  abbrev pub Waits : String × ControlRun → String × ControlRun → Type 0
  Waits x y = is_queued y.1.status ≡ true → precedes before y x ≡ false

  abbrev pub Foremost : List (String × ControlRun) → Option (String × ControlRun) → Type 0
  Foremost xs none = All (λ y. is_queued y.1.status ≡ false) xs
  Foremost xs (some x) = All (Waits x) xs

  oldest-Foremost : (xs : List (String × ControlRun)) → Foremost xs (oldest before xs)
  unfolding oldest
  oldest-Foremost [] = tt
  oldest-Foremost ((u, r) ∷ rest) =
      step (is_queued r.status) refl (oldest before rest) (oldest-Foremost rest)
    where
      step :
          (b : Bool)
          → is_queued r.status ≡ b
          → (later : Option (String × ControlRun)) → Foremost rest later
          → Foremost ((u, r) ∷ rest) (if b then some (first_of before (u, r) later) else later)
      step false e none h = (e, h)
      step false e (some y) h = (λ k. cc, h)
      step true e none h = (λ k. precedes-itself (u, r), All-implies rest (λ z n k. cc) h)
      step true e (some y) h =
          if-elim (λ x. Foremost ((u, r) ∷ rest) (some x)) (precedes before y (u, r)) y (u, r)
            (λ k. (λ l. precedes-asymmetric y (u, r) k, h))
            (λ k. (
              λ l. precedes-itself (u, r),
              All-implies rest (λ z w l. precedes-chain z y (u, r) (w l) k) h,
            ))

  -- What `claim_next` may return: nothing, of a table without a queued run, which it leaves as it is;
  -- or a run that was queued and that no other queued run precedes, as it is written now.
  abbrev pub Claims : String → ControlStore → Option ControlRun × ControlStore → Type 0
  Claims now s (none, t) = (t ≡ s) × Foremost (rows s.runs s.runs) none
  Claims now s (some row, t) =
      (u : String) × (r : ControlRun) × (lookup u s.runs ≡ some r)
      × (r.status ≡ queued)
      × (row ≡ claimed now r)
      × (t ≡ write_row u row s)
      × Foremost (rows s.runs s.runs) (some (u, r))

  -- If SQLite orders texts by a strict total order, a claim takes a queued run that was submitted
  -- before every other queued run, by time and then by id, and it takes none only if none is queued.
  pub claim_next-Claims : (now : String) (s : ControlStore) → Claims now s (claim_next before now s)
  unfolding claim_next
  claim_next-Claims now s =
      by_row (oldest before (rows s.runs s.runs))
        (oldest-Claimable before s (rows s.runs s.runs) (rows-IsRow s s.runs))
        (oldest-Foremost (rows s.runs s.runs))
    where
      by_row :
          (o : Option (String × ControlRun))
          → Claimable s o
          → Foremost (rows s.runs s.runs) o
          → Claims now s (elim o as (λ x. Option ControlRun × ControlStore) [
            | none ↦ (none, s)
            | some (u, r) ↦ (some (claimed now r), write_row u (claimed now r) s)
          ])
      by_row none c f = (refl, f)
      by_row (some (u, r)) (found, waits) f = (u, r, found, waits, refl, refl, f)
