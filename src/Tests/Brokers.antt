-- ===== src/Tests/Brokers.antt =====
-- A broker whose Helper accepts every request, and counts them.
use roammand.Base.{ℕ, ◌+◌, ◌≡◌, ◌⊎◌, refl, true, none, some, [], ◌∷◌, bytes_eq, ok, arith}
use roammand.Messages.{
  LeaseRef, close_peer, PrivilegedBridgeClientFrame, command_accepted, PrivilegedBridgeServerFrame,
}
use roammand.Lease.{authorize_command}
use roammand.Broker.Core
use roammand.Broker.Core.{BrokerCore}
use roammand.Broker.Routing.{
  request_route, response_frame, response_route, route_eq, request_controller_display_name,
}
use roammand.Broker.Session.{
  BrokerHelper, HostBrokerSession, forward, forward_authorized, name_check, may_control,
}
use roammand.Broker.Handle.{handle}
use roammand.Broker.Sync.{IsConsistent, handle-IsConsistent}
use roammand.Broker.Guard.{MayAsk, handle_guard}
use roammand.Broker.Forwarding.{booked}
use roammand.Broker.Progress.{handle_progress}
use roammand.Tests.Leases.{lease_id, leased, holding}
use roammand.Tests.Routes.{controlled}

abbrev pub held : LeaseRef
held = record { lease_id = lease_id; generation = 7 }

abbrev pub request : PrivilegedBridgeClientFrame
request = record {
  protocol_version = none;
  request_id = b'r' ∷ [];
  sequence = 3;
  payload = some (close_peer held);
}

abbrev pub accepting : BrokerHelper ℕ
accepting = record {
  exchange = λ count request. (count + 1, ok (response_frame request (command_accepted held)));
  try_event = λ count. (count, ok none);
  fail_closed = λ count. 0;
}

abbrev pub session_with : {H : Type 0} → H → HostBrokerSession H
session_with helper = record {
  broker = record { leases = holding; routes = controlled };
  helper = helper;
  permissions = 1 ∷ 2 ∷ [];
  operation_sequence = 0;
  secure_attention_allowed = true;
}

abbrev session : HostBrokerSession ℕ
session = session_with 4

abbrev response : PrivilegedBridgeServerFrame
response = response_frame request (command_accepted held)

handled : (handle accepting session request 2000 none).1 ≡ ok response
unfolding handle forward_authorized request_controller_display_name request_route
    Core.authorize_command authorize_command bytes_eq forward response_frame response_route route_eq
handled = refl

session-IsConsistent : IsConsistent session
unfolding may_control
session-IsConsistent = record {
  counted = refl;
  permitted = refl;
  controlled = refl;
  enabled = refl;
  routed = refl;
  same_route = refl;
}

routed : request_route request ≡ ok (record { lease_id = lease_id; generation = 7 })
unfolding request_route
routed = refl

named : name_check accepting session request ≡ ok tt
unfolding name_check request_controller_display_name
named = refl

handle-IsConsistent_example : IsConsistent (handle accepting session request 2000 none).0
handle-IsConsistent_example =
    handle-IsConsistent accepting session request 2000 none response session-IsConsistent handled

handle_guard_example :
    ((handle accepting session request 2000 none).0.helper ≡ 4)
    ⊎ MayAsk accepting session request 2000 (some (close_peer held))
handle_guard_example = handle_guard accepting session request 2000 none

handle_progress_example :
    handle accepting session request 2000 none
    ≡ forward accepting
        (booked accepting session leased)
        request
        (record { lease_id = lease_id; generation = 7 })
handle_progress_example =
    handle_progress accepting session request 2000 none (close_peer held) leased
      session-IsConsistent refl refl tt routed named (omega arith) (omega arith)
