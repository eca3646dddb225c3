-- ===== src/Tests/Bridges.antt =====
-- A frame, two requests and a queue.
use roammand.Base.{
  ℕ, ◌≡◌, ◌≤◌, refl, inl, false, List, [], ◌∷◌, ◌++◌, Text, bytes_eq, text_len, ok, arith,
}
use roammand.Frame.{encode_frame_with_limit, to_be_bytes}
use roammand.Bridge.{
  encode_bridge_frame, RequestTracker, begin, complete, contains, pending_count, no_events,
  push_critical, pop_fast, pop_critical, push_fast,
}
use roammand.Bridge.Requests
use roammand.Bridge.Requests.{begins, completes, run-pending, begin-complete, complete_once}
use roammand.Bridge.Events.{
  Operation, pushes, pushes_fast, pops, pops_fast, run, pushed, popped, IsBounded, events-IsBounded,
  popped-pushed, step,
}

encoded : encode_bridge_frame (42 ∷ 7 ∷ []) ≡ ok (0 ∷ 0 ∷ 0 ∷ 2 ∷ 42 ∷ 7 ∷ [])
unfolding encode_bridge_frame encode_frame_with_limit to_be_bytes
encoded = refl

abbrev first : Text
first = b'a' ∷ []

abbrev second : Text
second = b'b' ∷ []

abbrev waiting : RequestTracker
waiting = record { pending = first ∷ [] }

calls : List Requests.Operation
calls = begins first ∷ begins second ∷ begins first ∷ completes second ∷ []

counted : pending_count waiting ≤ 32
unfolding pending_count
counted = omega arith

begun : (begin waiting second).1 ≡ ok tt
unfolding begin text_len contains bytes_eq
begun = refl

abbrev both_waiting : RequestTracker
both_waiting = record { pending = second ∷ first ∷ [] }

completed : (complete both_waiting second).1 ≡ ok tt
unfolding complete contains bytes_eq
completed = refl

others : bytes_eq first second ≡ false
unfolding bytes_eq
others = refl

abbrev history : List (Operation ℕ)
history = pushes 1 ∷ pushes_fast 9 ∷ pushes 2 ∷ pops ∷ pops_fast ∷ pushes 3 ∷ []

events-IsBounded_example : IsBounded (run no_events history)
events-IsBounded_example =
    events-IsBounded history no_events (record { few = omega arith; emptied = inl refl })

alive : (run no_events history).failed ≡ false
unfolding run step push_critical pop_fast pop_critical push_fast
alive = refl

popped-pushed_example :
    pushed history ≡ popped no_events history ++ (run no_events history).critical
popped-pushed_example = popped-pushed no_events history alive
