-- ===== src/Bridge/Events.antt =====
-- The queue keeps critical events in order, or fails closed.
use roammand.Base.{
  ◌≤◌, ◌≡◌, ◌≢◌, ◌⊎◌, refl, ap, sym, ◌∙◌, inl, inr, true, false, Option, none, some, List, [], ◌∷◌,
  ◌++◌, append-nil, append_assoc, length, length-append, ok, err, Bool-cases, arith,
}
use roammand.Bridge.{
  EventQueue, max_critical_events, push_critical, push_fast, pop_critical, pop_fast, pop_front,
}

pub data Operation (A : Type 0) : Type 0 where
  pushes pushes_fast : A → Operation A
  pops pops_fast : Operation A

not_both : true ≢ false
not_both h = cc

module _ {A : Type 0} where
  unfoldable pub step : EventQueue A → Operation A → EventQueue A
  step q (pushes x) = (push_critical q x).0
  step q (pushes_fast x) = (push_fast q x).0
  step q pops = (pop_critical q).0
  step q pops_fast = (pop_fast q).0

  unfoldable pub run : EventQueue A → List (Operation A) → EventQueue A
  run q [] = q
  run q (o ∷ os) = run (step q o) os

  -- The critical events that the history pushes.
  abbrev pub pushed : List (Operation A) → List A
  pushed [] = []
  pushed (pushes x ∷ os) = x ∷ pushed os
  pushed (pushes_fast x ∷ os) = pushed os
  pushed (pops ∷ os) = pushed os
  pushed (pops_fast ∷ os) = pushed os

  -- What a call of `pop_critical` gave.
  abbrev given : Option A → List A
  given none = []
  given (some x) = x ∷ []

  abbrev popped_by : EventQueue A → Operation A → List A
  popped_by q pops = elim (pop_critical q).1 [ ok r ↦ given r | err e ↦ [] ]
  popped_by q _ = []

  -- The critical events that the history pops, in order.
  unfoldable pub popped : EventQueue A → List (Operation A) → List A
  popped q [] = []
  popped q (o ∷ os) = popped_by q o ++ popped (step q o) os

  -- A queue that has failed holds nothing, and the other never more than 256 critical events.
  pub record IsBounded (q : EventQueue A) : Type 0 where
    pub few : length q.critical ≤ max_critical_events
    pub emptied : (q.failed ≡ false) ⊎ ((q.critical ≡ []) × (q.fast ≡ none))

  step-IsBounded : (q : EventQueue A) (o : Operation A) → IsBounded q → IsBounded (step q o)
  unfolding step push_critical push_fast pop_critical pop_fast pop_front
  step-IsBounded q (pushes x) b = ground (arith, length-append q.critical (x ∷ []))
  step-IsBounded q (pushes_fast x) b = ground arith
  step-IsBounded q pops b = ground arith
  step-IsBounded q pops_fast b = ground arith

  -- From a queue in which at most 256 critical events wait, and which holds no event if it has
  -- failed, any history of calls leads to another such queue.
  pub events-IsBounded :
      (os : List (Operation A)) (q : EventQueue A) → IsBounded q → IsBounded (run q os)
  unfolding run
  events-IsBounded [] q b = b
  events-IsBounded (o ∷ os) q b = events-IsBounded os (step q o) (step-IsBounded q o b)

  -- A failed queue stays failed.
  step-failed : (q : EventQueue A) (o : Operation A) → q.failed ≡ true → step q o ≡ q
  unfolding step push_critical push_fast pop_critical pop_fast
  step-failed q (pushes x) f = rw f refl
  step-failed q (pushes_fast x) f = rw f refl
  step-failed q pops f = rw f refl
  step-failed q pops_fast f = rw f refl

  run-failed :
      (q : EventQueue A) (os : List (Operation A)) → q.failed ≡ true → (run q os).failed ≡ true
  unfolding run
  run-failed q [] f = f
  run-failed q (o ∷ os) f = run-failed (step q o) os (ap (λ r. r.failed) (step-failed q o f) ∙ f)

  pop_front-given : (xs : List A) → xs ++ [] ≡ given (pop_front xs).1 ++ (pop_front xs).0
  unfolding pop_front
  pop_front-given [] = refl
  pop_front-given (x ∷ xs) = append-nil (x ∷ xs)

  -- One call, on a queue that does not fail by it.
  step-order :
      (q : EventQueue A) (o : Operation A)
      → (step q o).failed ≡ false
      → q.critical ++ pushed (o ∷ []) ≡ popped_by q o ++ (step q o).critical
  unfolding step push_critical push_fast pop_critical pop_fast pop_front
  step-order q (pushes x) h = ground arith
  step-order q (pushes_fast x) h = ground (arith, append-nil q.critical)
  step-order q pops h = ground (arith, pop_front-given q.critical)
  step-order q pops_fast h = ground (arith, append-nil q.critical)

  pushed-cons :
      (o : Operation A) (os : List (Operation A)) → pushed (o ∷ os) ≡ pushed (o ∷ []) ++ pushed os
  pushed-cons (pushes x) os = refl
  pushed-cons (pushes_fast x) os = refl
  pushed-cons pops os = refl
  pushed-cons pops_fast os = refl

  -- First in, first out: as long as the queue has not failed, the critical events that were
  -- waiting, and then those that a history of calls pushes, are the ones that it pops, in order,
  -- and then those that still wait; none is lost, repeated or reordered.
  pub popped-pushed :
      (q : EventQueue A) (os : List (Operation A))
      → (run q os).failed ≡ false
      → q.critical ++ pushed os ≡ popped q os ++ (run q os).critical
  unfolding popped run
  popped-pushed q [] h = append-nil q.critical
  popped-pushed q (o ∷ os) h =
      let next : EventQueue A = step q o in
      elim (Bool-cases next.failed) [
        | inl f ↦ absurd (not_both (sym (run-failed next os f) ∙ h))
        | inr f ↦
            ap (λ xs. q.critical ++ xs) (pushed-cons o os)
            ∙ sym (append_assoc q.critical (pushed (o ∷ [])) (pushed os))
            ∙ ap (λ xs. xs ++ pushed os) (step-order q o f)
            ∙ append_assoc (popped_by q o) next.critical (pushed os)
            ∙ ap (λ xs. popped_by q o ++ xs) (popped-pushed next os h)
            ∙ sym (append_assoc (popped_by q o) (popped next os) (run next os).critical)
      ]
