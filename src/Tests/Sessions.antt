-- ===== src/Tests/Sessions.antt =====
-- Two controllers with a session each, and the grant of one of them is revoked.
use roammand.Base.{◌≡◌, ◌≢◌, ◌⊎◌, refl, none, some, [], ◌∷◌, bytes_eq}
use roammand.Grants.Maps.{get, insert, bytes_lt}
use roammand.Sessions.{SessionRegistry, register, new, terminate_controller}
use roammand.Sessions.Ended.{get-terminate_controller}
use roammand.Tests.Transcripts.{repeat}

abbrev active : SessionRegistry
active = (register (register new (repeat 1 16) (repeat 7 32)).0 (repeat 2 16) (repeat 8 32)).0

registered : active.sessions ≡ (repeat 1 16, repeat 7 32) ∷ (repeat 2 16, repeat 8 32) ∷ []
unfolding register get new insert bytes_eq bytes_lt
registered = refl

get-terminate_controller_example :
    let after = (terminate_controller active (repeat 7 32)).0.sessions in
    ((get (repeat 1 16) active.sessions ≡ some (repeat 7 32)) × (get (repeat 1 16) after ≡ none))
    ⊎ ((get (repeat 1 16) active.sessions ≢ some (repeat 7 32))
        × (get (repeat 1 16) after ≡ get (repeat 1 16) active.sessions))
unfolding register get new insert bytes_eq bytes_lt
get-terminate_controller_example =
    get-terminate_controller active (repeat 7 32) (repeat 1 16) ((refl, tt), (tt, tt))
