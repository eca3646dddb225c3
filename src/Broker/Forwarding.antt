-- ===== src/Broker/Forwarding.antt =====
-- What reaches the Helper, and what comes back from it.
use roammand.Base.{
  ℕ, ◌+◌, ◌≡◌, ap, ◌∙◌, inl, inr, some, bytes_eq_iff, checked_add, ok, and_then, Result-cases,
  and_then-ok, arith, ◌>>◌, >>-ok,
}
use roammand.Lease
use roammand.Lease.{Lease, LeaseId}
use roammand.Lease.Sequence.{Authorizes, authorize_command_sound, authorize_command_complete}
use roammand.Messages.{PrivilegedBridgeClientFrame, PrivilegedBridgeServerFrame}
use roammand.Broker.Core
use roammand.Broker.Core.{BrokerCore}
use roammand.Broker.Routing.{ProxyRoute, request_route, response_route, route_eq_iff}
use roammand.Broker.Session.{
  BrokerHelper, HostBrokerSession, Reply, check_response, forward, next_operation,
  forward_authorized, name_check,
}

-- A response carries the request's id and number.
abbrev pub Echoes : PrivilegedBridgeClientFrame → PrivilegedBridgeServerFrame → Type 0
Echoes request response =
    (response.request_id ≡ request.request_id) × (response.sequence ≡ request.sequence)

module _ {H : Type 0} (api : BrokerHelper H) where
  check_response_ok :
      (s : HostBrokerSession H) (request : PrivilegedBridgeClientFrame) (route : ProxyRoute)
      (response kept : PrivilegedBridgeServerFrame)
      → (check_response api s request route response).1 ≡ ok kept
      → Echoes request kept × (response_route kept ≡ ok route)
  unfolding check_response
  check_response_ok s request route response kept h =
      elim (Result-cases (response_route response)) [
        | inl (actual, e) ↦
            ground (
              arith,
              route_eq_iff actual route,
              bytes_eq_iff response.request_id request.request_id,
            )
        | inr (x, e) ↦ ground arith
      ]

  abbrev pub answered : HostBrokerSession H → PrivilegedBridgeClientFrame → Reply api
  answered s request = let (h, r) = api.exchange s.helper request in (record s { helper = h }, r)

  pub forward_ok :
      (s : HostBrokerSession H) (request : PrivilegedBridgeClientFrame) (route : ProxyRoute)
      (response : PrivilegedBridgeServerFrame)
      → (forward api s request route).1 ≡ ok response
      → Echoes request response × (response_route response ≡ ok route)
  unfolding forward
  forward_ok s request route response h =
      let (kept, _, k, _) =
        and_then-ok (answered s request) (λ s' r. check_response api s' request route r) h in
      check_response_ok _ request route kept response k

  -- Whatever the Helper does, forwarding changes nothing but the Helper.
  pub forward_keeps :
      (s : HostBrokerSession H) (request : PrivilegedBridgeClientFrame) (route : ProxyRoute)
      → forward api s request route ≡ (
        record s { helper = (forward api s request route).0.helper },
        (forward api s request route).1,
      )
  unfolding forward
  forward_keeps s request route = ground arith

  pub next_operation_ok :
      (s : HostBrokerSession H) (route : ProxyRoute) (now_ms : ℕ) (u : Unit {0})
      → let c = next_operation api s route (checked_add s.operation_sequence 1) now_ms in
        c.1 ≡ ok u
        → (l : Lease) × Authorizes s.broker.leases route.lease_id route.generation
            (s.operation_sequence + 1)
            now_ms
            l
          × (c.0 ≡ record s {
            operation_sequence = s.operation_sequence + 1;
            broker = record s.broker {
              leases = record s.broker.leases {
                active = some (record l { last_command_sequence = s.operation_sequence + 1 });
              };
            };
          })
  unfolding next_operation Core.authorize_command
  next_operation_ok s route now_ms u h =
      let leases = s.broker.leases in
      let operation = s.operation_sequence + 1 in
      let call = Lease.authorize_command leases route.lease_id route.generation operation now_ms in
      elim (Result-cases call.1) [
        | inl (w, e) ↦
            let (l, a) =
              authorize_command_sound leases route.lease_id route.generation operation now_ms e in
            (
              l,
              a,
              ground (
                arith,
                authorize_command_complete leases route.lease_id route.generation operation now_ms l
                    a,
              ),
            )
        | inr (x, e) ↦ absurd (ground arith)
      ]

  -- The state in which the Helper is asked: operation `operation` of lease `l` is booked.
  abbrev pub booked : HostBrokerSession H → Lease → HostBrokerSession H
  booked s l = record s {
    operation_sequence = s.operation_sequence + 1;
    broker = record s.broker {
      leases = record s.broker.leases {
        active = some (record l { last_command_sequence = s.operation_sequence + 1 });
      };
    };
  }

  -- What a forwarded operation that succeeds went through.
  pub record Forwarded (s : HostBrokerSession H) (request : PrivilegedBridgeClientFrame)
      (now_ms : ℕ) (response : PrivilegedBridgeServerFrame) (after : HostBrokerSession H)
      (route : ProxyRoute) (l : Lease) : Type 0 where
    pub named : request_route request ≡ ok route
    pub authorizes :
        Authorizes s.broker.leases route.lease_id route.generation
          (s.operation_sequence + 1)
          now_ms
          l
    pub echoes : Echoes request response
    pub same_route : response_route response ≡ ok route
    pub books : after ≡ record (booked s l) { helper = after.helper }

  pub forward_authorized_ok :
      (s : HostBrokerSession H) (request : PrivilegedBridgeClientFrame) (now_ms : ℕ)
      (response : PrivilegedBridgeServerFrame)
      → (forward_authorized api s request now_ms).1 ≡ ok response
      → (route : ProxyRoute) × (l : Lease) × Forwarded s request now_ms response
          (forward_authorized api s request now_ms).0
          route
          l
  unfolding forward_authorized
  forward_authorized_ok s request now_ms response h =
      let checks = name_check api s request >> request_route request in
      let ask = λ (route : ProxyRoute) (t : HostBrokerSession H) (u : Unit {0}).
        forward api t request route in
      let book = λ (t : HostBrokerSession H) (route : ProxyRoute).
        next_operation api t route (checked_add t.operation_sequence 1) now_ms in
      let (route, routed, h', e) =
        and_then-ok (s, checks) (λ t route. and_then (book t route) (ask route)) h in
      let (u, booking, h'', e') = and_then-ok (book s route) (ask route) h' in
      let (l, a, reached) = next_operation_ok s route now_ms u booking in
      let (echo, same) = forward_ok (book s route).0 request route response h'' in
      let kept = forward_keeps (book s route).0 request route in
      (
        route,
        l,
        record {
          named = (>>-ok (name_check api s request) (request_route request) routed).1;
          authorizes = a;
          echoes = echo;
          same_route = same;
          books = rw (ap (λ c. c.0) (e ∙ e')) (
              ap (λ c. c.0) kept
              ∙ ap
                  (λ (t : HostBrokerSession H). record t {
                    helper = (forward api (book s route).0 request route).0.helper;
                  })
                  reached);
        },
      )
