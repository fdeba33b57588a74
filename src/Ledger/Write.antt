-- ===== src/Ledger/Write.antt =====
-- What an append does to a file, whatever the operating system takes of each write, where none of its
-- calls raises.
use euboulia.Prelude.{
  ◌<◌, zero, suc, ◌++◌, length, ◌≡◌, refl, sym, ap, ◌∙◌, arith, List, ◌⊎◌, inl, inr, ◌≤◌,
}
use mathlib.Core.List.{append-nil, append_assoc}
use euboulia.Ledger.{
  short_write, [], err, ok, suc, ◌∷◌, file, length, write_loop, split_at, ℕ, Format, Node, Result,
  append,
}

split_at-join : (n : ℕ) (xs : List ℕ) → (split_at n xs).0 ++ (split_at n xs).1 ≡ xs
unfolding split_at
split_at-join zero xs = refl
split_at-join (suc n) [] = refl
split_at-join (suc n) (x ∷ xs) = ap (λ ys. x ∷ ys) (split_at-join n xs)

split_at-shrinks : (n : ℕ) (xs : List ℕ) → length (split_at n xs).1 ≤ length xs
unfolding split_at
split_at-shrinks zero xs = omega arith
split_at-shrinks (suc n) [] = omega arith
split_at-shrinks (suc n) (x ∷ xs) = omega (arith, split_at-shrinks n xs)

-- The content that was there is kept, and a first part of the payload follows it: all of it when the
-- call succeeds. The loop's own failure is a write that takes nothing.
pub record Kept (contents payload : List ℕ) (outcome : Result (Unit {0})) (after : List ℕ)
    : Type 0 where
  pub written : List ℕ
  pub left : List ℕ
  pub parts : written ++ left ≡ payload
  pub kept : after ≡ contents ++ written
  pub result : ((outcome ≡ ok tt) × (left ≡ [])) ⊎ (outcome ≡ err short_write)

shrunk : (count c : ℕ) (cs : List ℕ) → 0 < count → length (split_at count (c ∷ cs)).1 ≤ length cs
unfolding split_at
shrunk zero c cs h = absurd (omega (arith, h))
shrunk (suc n) c cs h = split_at-shrinks n cs

whole :
    (contents payload : List ℕ) (out : Result (Unit {0}) × List ℕ)
    → out.0 ≡ ok tt
    → Kept contents payload out.0 out.1
    → (◌≡◌ {A = Result (Unit {0}) × Node} (out.0, file out.1) (ok tt, file (contents ++ payload)))
whole contents payload (outcome, after) e k = elim k.result [
  | inl (done, none_left) ↦
      cc (e, k.kept, k.parts, ap (λ xs. k.written ++ xs) none_left, append-nil k.written)
  | inr short ↦ absurd (ground (arith, sym e ∙ short))
]

module _ (os_write : ℕ → ℕ → ℕ) where
  add_part :
      (contents taken rest payload : List ℕ) (outcome : Result (Unit {0})) (after : List ℕ)
      → taken ++ rest ≡ payload
      → Kept (contents ++ taken) rest outcome after
      → Kept contents payload outcome after
  add_part contents taken rest payload outcome after e k = record {
    written = taken ++ k.written;
    left = k.left;
    parts = append_assoc taken k.written k.left ∙ ap (λ xs. taken ++ xs) k.parts ∙ e;
    kept = k.kept ∙ append_assoc contents taken k.written;
    result = k.result;
  }

  -- One round of the loop, given what the rounds after it do.
  round-Kept :
      (count : ℕ) (c : ℕ) (cs contents : List ℕ)
      (later : List ℕ → List ℕ → Result (Unit {0}) × List ℕ)
      → ((taken rest : List ℕ)
          → length rest ≤ length cs
          → Kept (contents ++ taken) rest (later taken rest).0 (later taken rest).1)
      → let (taken, rest) = split_at count (c ∷ cs) in
        let out : Result (Unit {0}) × List ℕ = elim count [
          | zero ↦ (err short_write, contents)
          | suc n ↦ later taken rest
        ] in
        Kept contents (c ∷ cs) out.0 out.1
  unfolding split_at
  round-Kept zero c cs contents later ih = record {
    written = [];
    left = c ∷ cs;
    parts = refl;
    kept = sym (append-nil contents);
    result = inr refl;
  }
  round-Kept (suc n) c cs contents later ih =
      let (taken, rest) = split_at (suc n) (c ∷ cs) in
      add_part contents taken rest (c ∷ cs) _ _ (split_at-join (suc n) (c ∷ cs))
        (ih taken rest (split_at-shrinks n cs))

  write_loop-Kept :
      (fuel turn : ℕ) (payload contents : List ℕ)
      → length payload ≤ fuel
      → Kept contents payload
          (write_loop os_write fuel turn payload contents).0
          (write_loop os_write fuel turn payload contents).1
  unfolding write_loop
  write_loop-Kept fuel turn [] contents h = record {
    written = [];
    left = [];
    parts = refl;
    kept = sym (append-nil contents);
    result = inl (refl, refl);
  }
  write_loop-Kept zero turn (c ∷ cs) contents h = absurd (omega arith)
  write_loop-Kept (suc fuel) turn (c ∷ cs) contents h =
      round-Kept (os_write turn (length (c ∷ cs))) c cs contents
        (λ taken rest. write_loop os_write fuel (suc turn) rest (contents ++ taken))
        (λ taken rest k.
          write_loop-Kept fuel (suc turn) rest (contents ++ taken) (omega (arith, k, h)))

  module _ (takes : (turn offered : ℕ) → 0 < offered → 0 < os_write turn offered) where
    round-ok :
        (count : ℕ) (contents : List ℕ) (later : Result (Unit {0}) × List ℕ)
        → 0 < count
        → later.0 ≡ ok tt
        → let out : Result (Unit {0}) × List ℕ = elim count [
          | zero ↦ (err short_write, contents)
          | suc n ↦ later
        ] in
          out.0 ≡ ok tt
    round-ok zero contents later h e = absurd (omega (arith, h))
    round-ok (suc n) contents later h e = e

    write_loop-ok :
        (fuel turn : ℕ) (payload contents : List ℕ)
        → length payload ≤ fuel
        → (write_loop os_write fuel turn payload contents).0 ≡ ok tt
    unfolding write_loop split_at
    write_loop-ok fuel turn [] contents h = refl
    write_loop-ok zero turn (c ∷ cs) contents h = absurd (omega arith)
    write_loop-ok (suc fuel) turn (c ∷ cs) contents h =
        let count = os_write turn (length (c ∷ cs)) in
        let (taken, rest) = split_at count (c ∷ cs) in
        round-ok count contents (write_loop os_write fuel (suc turn) rest (contents ++ taken))
          (takes turn (length (c ∷ cs)) (omega arith))
          (write_loop-ok fuel (suc turn) rest (contents ++ taken)
            (omega (arith, h, shrunk count c cs (takes turn (length (c ∷ cs)) (omega arith)))))

    -- When every write takes something, an append adds the record's line.
    pub append-ok :
        {Record : Type 0} (format : Format Record) (r : Record) (contents : List ℕ)
        → append os_write format r (file contents)
          ≡ (ok tt, file (contents ++ (format.encode r ++ (10 ∷ []))))
    unfolding append
    append-ok format r contents =
        let payload = format.encode r ++ (10 ∷ []) in
        whole contents payload _ (write_loop-ok (length payload) 0 payload contents (omega arith))
          (write_loop-Kept (length payload) 0 payload contents (omega arith))
