-- ===== src/Tests/Leases.antt =====
-- One lease: acquired at 1 s for the host of generation 7.
use roammand.Base.{
  text_len, is_control, bytes_eq, text_len, is_control, bytes_eq, ◌≡◌, ◌↔◌, refl, true, false, none,
  some, List, [], ◌∷◌, Bytes, ok, err, is_ok, length, arith,
}
use roammand.Lease.{
  LeaseId, AcquireLease, Lease, LeaseManager, lease_expired, lease_not_active, new, acquire, renew,
  authorize_command, release,
}
use roammand.Lease.Trace.{
  step, Operation, connects, acquires, renews, commands, expires, run, accepted,
}
use roammand.Lease.Invariant.{IsValid, history-IsValid}
use roammand.Lease.Sequence.{Authorizes, authorize_command-ok_iff, acquire-accepted, count_from}
use roammand.Lease.Terms.{
  Grantable, fresh_lease, acquire-ok_iff, expired_lease_is_dead, release_is_final, renewals,
  renewed_until, renewals_keep_lease,
}

abbrev pub lease_id : LeaseId
lease_id = 9 ∷ 1 ∷ 2 ∷ 3 ∷ 4 ∷ 5 ∷ 6 ∷ 7 ∷ 8 ∷ 9 ∷ 10 ∷ 11 ∷ 12 ∷ 13 ∷ 14 ∷ 15 ∷ []

abbrev instance_id : Bytes
instance_id = 1 ∷ 2 ∷ []

abbrev pub request : AcquireLease
request = record {
  session_id = 5 ∷ 1 ∷ 2 ∷ 3 ∷ 4 ∷ 5 ∷ 6 ∷ 7 ∷ 8 ∷ 9 ∷ 10 ∷ 11 ∷ 12 ∷ 13 ∷ 14 ∷ 15 ∷ [];
  generation = 7;
  controller_display_name = b'A' ∷ b'd' ∷ b'a' ∷ [];
  may_control_input = true;
}

-- The manager before and after it grants the lease.
abbrev pub idle : LeaseManager
idle = record {
  broker_instance_id = instance_id;
  host_generation = some 7;
  active = none;
  last_released = none;
}

abbrev pub leased : Lease
leased = fresh_lease request 1000 lease_id

abbrev pub holding : LeaseManager
holding = record {
  broker_instance_id = instance_id;
  host_generation = some 7;
  active = some leased;
  last_released = none;
}

abbrev history : List Operation
history =
    connects 7
    ∷ acquires request 1000 (some lease_id)
    ∷ commands lease_id 7 1 2000
    ∷ renews lease_id 7 6000
    ∷ expires 30000
    ∷ []

history-IsValid_example : IsValid (run (new instance_id) history)
history-IsValid_example = history-IsValid instance_id history

authorize_command-ok_iff_example :
    ((authorize_command holding lease_id 7 1 2000).1 ≡ ok tt)
    ↔ ((l : Lease) × Authorizes holding lease_id 7 1 2000 l)
authorize_command-ok_iff_example = authorize_command-ok_iff holding lease_id 7 1 2000

acquired : acquire idle request 1000 (some lease_id) ≡ (holding, ok leased)
unfolding acquire text_len is_control bytes_eq
acquired = refl

abbrev later : List Operation
later =
    commands lease_id 7 1 2000
    ∷ commands lease_id 7 1 2500
    ∷ commands lease_id 7 2 3000
    ∷ renews lease_id 7 6000
    ∷ commands lease_id 7 3 7000
    ∷ []

later-accepted : accepted holding later ≡ 1 ∷ 2 ∷ 3 ∷ []
unfolding accepted step authorize_command renew bytes_eq
later-accepted = refl

acquire-accepted_example : accepted holding later ≡ count_from 1 (length (accepted holding later))
acquire-accepted_example =
    acquire-accepted idle holding request 1000 (some lease_id) leased acquired later
      (refl, (refl, (refl, (refl, (refl, tt)))))

acquire-ok_iff_example :
    ((acquire idle request 1000 (some lease_id)).1 ≡ ok leased)
    ↔ (Grantable idle request 1000 (some lease_id) lease_id × (leased ≡ leased))
acquire-ok_iff_example = acquire-ok_iff idle request 1000 (some lease_id) leased

expired_lease_is_dead_example :
    let frozen : LeaseManager = record holding {
      active = none;
      last_released = some (lease_id, 7);
    } in
    (is_ok (authorize_command holding [] 7 1 16000).1 ≡ false)
    × (is_ok (renew holding [] 7 16000).1 ≡ false)
    × (authorize_command holding lease_id 7 1 16000 ≡ (frozen, err lease_expired))
    × (renew holding lease_id 7 16000 ≡ (frozen, err lease_expired))
expired_lease_is_dead_example = expired_lease_is_dead holding [] 7 16000 leased 1 refl (omega arith)

abbrev released : LeaseManager
released = (release holding lease_id 7).0

released_ok : (release holding lease_id 7).1 ≡ ok true
unfolding release bytes_eq
released_ok = refl

release_is_final_example :
    (authorize_command released lease_id 7 1 2000 ≡ (released, err lease_not_active))
    × (renew released lease_id 7 2000 ≡ (released, err lease_not_active))
    × (release released lease_id 7 ≡ (released, ok false))
release_is_final_example = release_is_final holding lease_id 7 2000 true 1 released_ok

renewals_keep_lease_example :
    (run holding (renewals lease_id 7 (6000 ∷ 12000 ∷ []))).active
    ≡ some (renewed_until leased (6000 ∷ 12000 ∷ []))
renewals_keep_lease_example =
    renewals_keep_lease holding leased (6000 ∷ 12000 ∷ []) refl refl
      (omega arith, omega arith, omega arith, (omega arith, omega arith, omega arith, tt))
