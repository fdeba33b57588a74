-- ===== src/Evaluator/Metrics/Finite.antt =====
-- What `parse_metrics` (optimization/evaluator.py) accepts.
use euboulia.Prelude.{
  subst, ◌≡◌, refl, String, Bool, true, false, Option, none, some, List, [], ◌∷◌, arith, str_eq,
  if◌then◌else◌, Bool-cases, inl, inr,
}
use euboulia.Prelude.Dict.{Dict, insert, lookup}
use euboulia.Floats.{FloatOps}
use euboulia.Evaluator.{
  Json, Fields, null, boolean, text, number, array, object, end, field, Result, ok, err, ◌>>=◌,
  FileText, cannot_read, blank, not_json, document,
}
use euboulia.Evaluator.Metrics.{
  dotted, missing_keys, collect_value, collect_metrics, parse_metrics, nested_metrics,
  other_metrics, nonempty, get_field, benchmark_metrics,
}

module _ (F : FloatOps) where
  open F use {Float, is_finite}

  abbrev pub AllFinite : Dict Float → Type 0
  AllFinite [] = Unit
  AllFinite ((k, x) ∷ m) = (is_finite x ≡ true) × AllFinite m

  insert-AllFinite :
      (k : String) (x : Float) (m : Dict Float)
      → is_finite x ≡ true
      → AllFinite m
      → AllFinite (insert k x m)
  unfolding insert
  insert-AllFinite k x [] f a = (f, tt)
  insert-AllFinite k x ((j, y) ∷ m) f a = elim (Bool-cases (str_eq j k)) [
    | inl same ↦ rw same (f, a.1)
    | inr other ↦ rw other (a.0, insert-AllFinite k x m f a.1)
  ]

  -- Finite values if there is a result at all.
  abbrev Good : Result (Dict Float) → Type 0
  Good (ok m) = AllFinite m
  Good (err e) = Unit

  bind-Good :
      (r : Result (Dict Float)) (f : Dict Float → Result (Dict Float))
      → Good r
      → ((o : Dict Float) → AllFinite o → Good (f o))
      → Good (r >>= f)
  bind-Good (ok o) f g next = next o g
  bind-Good (err e) f g next = tt

  if-Good :
      (b : Bool) (r q : Result (Dict Float))
      → (b ≡ true → Good r)
      → (b ≡ false → Good q)
      → Good (if b then r else q)
  if-Good true r q g h = g refl
  if-Good false r q g h = h refl

  mutual
    unfolding collect_value

    value-Good :
        (j : Json Float) (k : String) (m : Dict Float) → AllFinite m → Good (collect_value F j k m)
    value-Good null k m a = a
    value-Good (boolean b) k m a = a
    value-Good (text s) k m a = a
    value-Good array k m a = a
    value-Good (number x) k m a =
        if-Good (is_finite x) _ _ (λ f. insert-AllFinite k x m f a) (λ f. tt)
    value-Good (object fs) k m a = fields-Good fs k m a

    fields-Good :
        (fs : Fields Float) (k : String) (m : Dict Float)
        → AllFinite m
        → Good (collect_metrics F fs k m)
    fields-Good end k m a = a
    fields-Good (field j v fs) k m a =
        if-Good (str_eq j "") _ _ (λ e. tt)
          (λ e. bind-Good _ _ (value-Good v (dotted k j) m a) (λ o b. fields-Good fs k o b))

  nested-Good : (o : Option (Json Float)) → Good (nested_metrics F o)
  unfolding nested_metrics
  nested-Good (some (object fs)) = fields-Good fs "" [] tt
  nested-Good none = tt
  nested-Good (some null) = tt
  nested-Good (some (boolean b)) = tt
  nested-Good (some (text s)) = tt
  nested-Good (some (number x)) = tt
  nested-Good (some array) = tt

  other-Good : (fs : Fields Float) (m : Dict Float) → AllFinite m → Good (other_metrics F fs m)
  unfolding other_metrics
  other-Good end m a = a
  other-Good (field k v fs) m a =
      if-Good (str_eq k "metrics") _ _ (λ e. other-Good fs m a)
        (λ e.
          if-Good (str_eq k "") _ _ (λ e'. tt)
            (λ e'. bind-Good _ _ (value-Good v k m a) (λ o b. other-Good fs o b)))

  nonempty-Good : (m : Dict Float) → AllFinite m → Good (nonempty F m)
  unfolding nonempty
  nonempty-Good [] a = tt
  nonempty-Good (p ∷ m) a = a

  parse-Good : (contents : FileText Float) → Good (parse_metrics F contents)
  unfolding parse_metrics
  parse-Good (document (object fs)) =
      bind-Good _ _ (nested-Good (get_field F "metrics" fs))
        (λ o a. bind-Good _ _ (other-Good fs o a) (λ q b. nonempty-Good q b))
  parse-Good cannot_read = tt
  parse-Good blank = tt
  parse-Good not_json = tt
  parse-Good (document null) = tt
  parse-Good (document (boolean b)) = tt
  parse-Good (document (text s)) = tt
  parse-Good (document (number x)) = tt
  parse-Good (document array) = tt

  -- Every value of the metrics that `parse_metrics` returns is finite.
  pub parse_metrics-AllFinite :
      (contents : FileText Float) (m : Dict Float) → parse_metrics F contents ≡ ok m → AllFinite m
  parse_metrics-AllFinite contents m h = subst Good h (parse-Good contents)

  lookup-AllFinite :
      (k : String) (x : Float) (m : Dict Float)
      → AllFinite m
      → lookup k m ≡ some x
      → is_finite x ≡ true
  unfolding lookup
  lookup-AllFinite k x [] a h = cc
  lookup-AllFinite k x ((j, y) ∷ m) a h = ground (arith, lookup-AllFinite k x m a.1)

  read_parts :
      (contents : FileText Float) (required : List String) (objective : String) (m : Dict Float)
      (x : Float)
      → benchmark_metrics F contents required objective ≡ ok (m, x)
      → (parse_metrics F contents ≡ ok m)
        × (lookup objective m ≡ some x)
        × (missing_keys F required m ≡ [])
  unfolding benchmark_metrics
  read_parts contents required objective m x h = ground arith

  -- The objective value that the benchmark reads is finite, is the one under its name, and every
  -- required metric is among the metrics that go with it.
  pub benchmark_metrics-ok :
      (contents : FileText Float) (required : List String) (objective : String) (m : Dict Float)
      (x : Float)
      → benchmark_metrics F contents required objective ≡ ok (m, x)
      → (is_finite x ≡ true) × (lookup objective m ≡ some x) × (missing_keys F required m ≡ [])
  benchmark_metrics-ok contents required objective m x h =
      let (parsed, at, complete) = read_parts contents required objective m x h in
      (lookup-AllFinite objective x m (parse_metrics-AllFinite contents m parsed) at, at, complete)
