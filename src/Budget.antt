-- ===== src/Budget.antt =====
-- optimization/budget.py, and the head of the loop in optimization/runner.py that spends the budget.
-- Each call of the clock is an argument: a reading in the order in which the code takes them.
mod Grants
mod Examples
use euboulia.Prelude.{
  ℕ, zero, suc, ◌+◌, String, Bool, true, false, Option, none, some, ltb, leb, if◌then◌else◌, ◌⊎◌,
  inl, inr,
}
use euboulia.Floats.{FloatOps}

-- An argument as Python may be given it; `negative n` is -(n + 1).
pub data Raw (Float : Type 0) : Type 0 where
  boolean : Bool → Raw Float
  natural : ℕ → Raw Float
  negative : ℕ → Raw Float
  float : Float → Raw Float
  other : Raw Float

pub data LimitError : Type 0 where
  not_an_integer not_positive : String → LimitError
  wall_time_not_numeric wall_time_not_positive : LimitError

-- `exhausted_reason`
pub data Reason : Type 0 where
  wall_time_exhausted iterations_exhausted failures_exhausted : Reason

module _ (F : FloatOps) where
  open F use {Float, zero_float, le, sub, larger}

  pub record BudgetLimits : Type 0 where
    pub max_iterations : ℕ
    pub max_failures : ℕ
    pub max_wall_time_seconds : Float

  positive_integer : String → Raw Float → ℕ ⊎ LimitError
  positive_integer name (natural zero) = inr (not_positive name)
  positive_integer name (natural (suc n)) = inl (suc n)
  positive_integer name (negative n) = inr (not_positive name)
  positive_integer name _ = inr (not_an_integer name)

  -- The numeric value of a raw argument, of which `float(int)` is not modelled.
  positive_seconds : (ℕ → Float) → Raw Float → Float ⊎ LimitError
  positive_seconds of_nat (natural zero) = inr wall_time_not_positive
  positive_seconds of_nat (natural (suc n)) = inl (of_nat (suc n))
  positive_seconds of_nat (negative n) = inr wall_time_not_positive
  positive_seconds of_nat (float x) = if le x zero_float then inr wall_time_not_positive else inl x
  positive_seconds of_nat _ = inr wall_time_not_numeric

  pub record BudgetSnapshot : Type 0 where
    pub iterations_started : ℕ
    pub failures : ℕ
    pub elapsed_seconds : Float
    pub exhausted_reason : Option Reason

  pub record BudgetTracker : Type 0 where
    pub limits : BudgetLimits
    pub started_at : Float
    pub iterations_started : ℕ
    pub failures : ℕ

  unfoldable pub exhausted : BudgetSnapshot → Bool
  exhausted s = elim s.exhausted_reason [ none ↦ false | some r ↦ true ]

  checked_limits : ℕ ⊎ LimitError → ℕ ⊎ LimitError → Float ⊎ LimitError → BudgetLimits ⊎ LimitError
  checked_limits (inr e) b c = inr e
  checked_limits (inl i) (inr e) c = inr e
  checked_limits (inl i) (inl f) (inr e) = inr e
  checked_limits (inl i) (inl f) (inl w) =
      inl (record { max_iterations = i; max_failures = f; max_wall_time_seconds = w })

  -- BudgetLimits.__post_init__; `of_nat` is Python's conversion of an int that is compared as a float.
  unfoldable pub new_limits :
      (ℕ → Float) → Raw Float → Raw Float → Raw Float → BudgetLimits ⊎ LimitError
  unfolding checked_limits positive_integer positive_seconds
  new_limits of_nat iterations failures wall =
      checked_limits (positive_integer "max_iterations" iterations)
        (positive_integer "max_failures" failures) (positive_seconds of_nat wall)

  -- BudgetTracker.__init__
  unfoldable pub new_tracker : BudgetLimits → Float → BudgetTracker
  new_tracker limits now = record {
    limits = limits;
    started_at = now;
    iterations_started = 0;
    failures = 0;
  }

  reason_at : BudgetTracker → Float → Option Reason
  reason_at t elapsed =
      if le t.limits.max_wall_time_seconds elapsed
      then some wall_time_exhausted
      else if leb t.limits.max_iterations t.iterations_started
      then some iterations_exhausted
      else if leb t.limits.max_failures t.failures
      then some failures_exhausted
      else none

  unfoldable pub snapshot : BudgetTracker → Float → BudgetSnapshot
  unfolding reason_at
  snapshot t now =
      let elapsed = larger zero_float (sub now t.started_at) in
      record {
        iterations_started = t.iterations_started;
        failures = t.failures;
        elapsed_seconds = elapsed;
        exhausted_reason = reason_at t elapsed;
      }

  -- The clock is read once more after the reservation.
  unfoldable pub reserve_iteration : BudgetTracker → Float → Float → BudgetTracker × BudgetSnapshot
  unfolding snapshot exhausted
  reserve_iteration t now later =
      let first = snapshot t now in
      let t' = record t { iterations_started = t.iterations_started + 1 } in
      if exhausted first then (t, first) else (t', snapshot t' later)

  unfoldable pub record_failure : BudgetTracker → Float → BudgetTracker × BudgetSnapshot
  unfolding snapshot
  record_failure t now = let t' = record t { failures = t.failures + 1 } in (t', snapshot t' now)

  -- `while not budget.snapshot().exhausted: reservation = budget.reserve_iteration(); ...`: the
  -- tracker and the number of the iteration that the body runs, if the loop goes on.
  unfoldable pub loop_head : BudgetTracker → Float → Float → Float → Option (BudgetTracker × ℕ)
  unfolding exhausted
  loop_head t checked reserved later =
      let (t', reservation) = reserve_iteration t reserved later in
      if exhausted (snapshot t checked) then none else some (t', reservation.iterations_started)
