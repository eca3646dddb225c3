-- ===== src/Bridge/Requests.antt =====
-- The requests that wait for a response.
use roammand.Base.{
  ◌≤◌, ◌≡◌, refl, true, false, List, [], ◌∷◌, Text, text_len, is_empty, bytes_eq, bytes_eq_iff,
  bytes_eq_refl, length, ltb, ok, err, arith,
}
use roammand.Bridge.{
  RequestTracker, duplicate_request, stale_response, begin, complete, contains, remove,
  max_pending_requests, max_request_id_utf8_bytes, pending_count,
}

pub data Operation : Type 0 where
  begins completes : Text → Operation

unfoldable pub step : RequestTracker → Operation → RequestTracker
step t (begins id) = (begin t id).0
step t (completes id) = (complete t id).0

unfoldable pub run : RequestTracker → List Operation → RequestTracker
run t [] = t
run t (o ∷ os) = run (step t o) os

length-remove : (id : Text) (ids : List Text) → length (remove id ids) ≤ length ids
unfolding remove
length-remove id [] = omega arith
length-remove id (i ∷ ids) = ground (arith, length-remove id ids)

step-pending :
    (t : RequestTracker) (o : Operation)
    → length t.pending ≤ max_pending_requests
    → length (step t o).pending ≤ max_pending_requests
unfolding step begin complete
step-pending t (begins id) h = ground arith
step-pending t (completes id) h = ground (arith, length-remove id t.pending)

-- From at most 32 pending requests, any history of calls leads to at most 32.
pub run-pending :
    (t : RequestTracker) (os : List Operation)
    → pending_count t ≤ max_pending_requests
    → pending_count (run t os) ≤ max_pending_requests
unfolding run pending_count
run-pending t [] h = h
run-pending t (o ∷ os) h = unfold pending_count in run-pending (step t o) os (step-pending t o h)

remove_absent : (id : Text) (ids : List Text) → contains id ids ≡ false → remove id ids ≡ ids
unfolding remove contains
remove_absent id [] h = refl
remove_absent id (i ∷ ids) h = ground (arith, remove_absent id ids)

contains-remove : (id : Text) (ids : List Text) → contains id (remove id ids) ≡ false
unfolding remove contains
contains-remove id [] = refl
contains-remove id (i ∷ ids) = ground (arith, contains-remove id ids)

-- Of the others, removing an identifier keeps each.
contains-remove_other :
    (id other : Text) (ids : List Text)
    → bytes_eq other id ≡ false
    → contains other (remove id ids) ≡ contains other ids
unfolding remove contains
contains-remove_other id other [] n = refl
contains-remove_other id other (i ∷ ids) n =
    ground (arith, contains-remove_other id other ids n, bytes_eq_iff id i)

begin_ok :
    (t : RequestTracker) (id : Text)
    → (begin t id).1 ≡ ok tt
    → ((begin t id).0 ≡ record { pending = id ∷ t.pending })
      × (is_empty id ≡ false)
      × (ltb max_request_id_utf8_bytes (text_len id) ≡ false)
      × (contains id t.pending ≡ false)
unfolding begin
begin_ok t id h = ground arith

contains-cons : (id : Text) (ids : List Text) → contains id (id ∷ ids) ≡ true
unfolding contains
contains-cons id ids = ground (arith, bytes_eq_refl id)

remove-cons : (id : Text) (ids : List Text) → contains id ids ≡ false → remove id (id ∷ ids) ≡ ids
unfolding remove
remove-cons id ids h = ground (arith, bytes_eq_refl id, remove_absent id ids h)

-- A request that begins was not pending, so that a response to it would have been stale; it cannot
-- begin again while it is pending, and its response ends it and leaves the others as they were.
pub begin-complete :
    (t : RequestTracker) (id : Text)
    → (begin t id).1 ≡ ok tt
    → let t' = (begin t id).0 in
      (complete t id ≡ (t, err stale_response))
      × (begin t' id ≡ (t', err duplicate_request))
      × (complete t' id ≡ (t, ok tt))
unfolding begin complete
begin-complete t id h =
    let (after, filled, short, absent) = begin_ok t id h in
    rw after (
      ground arith,
      ground (arith, contains-cons id t.pending),
      ground (arith, contains-cons id t.pending, remove-cons id t.pending absent),
    )

-- A response that is taken ends its request, so that a second one is stale, and every other
-- request is pending as before.
pub complete_once :
    (t : RequestTracker) (id other : Text)
    → (complete t id).1 ≡ ok tt
    → bytes_eq other id ≡ false
    → let t' = (complete t id).0 in
      (complete t' id ≡ (t', err stale_response))
      × (contains other t'.pending ≡ contains other t.pending)
unfolding complete
complete_once t id other h n =
    ground (arith, contains-remove id t.pending, contains-remove_other id other t.pending n)
