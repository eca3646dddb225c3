-- ===== src/Peer/Gate.antt =====
-- `SessionGate` of session.rs: the one inbound session that the Host takes at a time.
use roammand.Base.{
  ℕ, ◌⊎◌, ◌≡◌, ◌↔◌, refl, ap, sym, inl, inr, Bool, true, false, not, ◌&&◌, Option, none, some,
  Bytes, bytes_eq, bytes_eq_iff, length, ◌==◌, is_some, saturating_add, saturating_add-IsNext,
  IsNext, Bool-cases, is_ok, ok, err, Call, if◌then◌else◌, arith,
}
use roammand.Peer.Types.{HostWebRtcError, invalid_session, device_busy, invalid_lease}
use roammand.Peer.Session.{session_id_bytes}

pub record SessionLease : Type 0 where
  pub session_id : Bytes
  pub generation : ℕ

pub record SessionGate : Type 0 where
  pub active : Option SessionLease
  pub generation : ℕ

abbrev pub new : SessionGate
new = record { active = none; generation = 0 }

-- The derived `PartialEq` of a lease and of an optional one
unfoldable lease_eq : SessionLease → SessionLease → Bool
lease_eq l m = bytes_eq l.session_id m.session_id && l.generation == m.generation

unfoldable held_eq : Option SessionLease → SessionLease → Bool
unfolding lease_eq
held_eq none m = false
held_eq (some l) m = lease_eq l m

unfoldable pub acquire : SessionGate → Bytes → Call SessionGate HostWebRtcError SessionLease
acquire g session_id =
    if not (length session_id == session_id_bytes)
    then (g, err invalid_session)
    else if is_some g.active
    then (g, err device_busy)
    else let generation = saturating_add g.generation 1 in
      let lease : SessionLease = record { session_id = session_id; generation = generation } in
      (record { active = some lease; generation = generation }, ok lease)

unfoldable pub release : SessionGate → SessionLease → Call SessionGate HostWebRtcError (Unit {0})
unfolding held_eq
release g lease =
    if not (held_eq g.active lease)
    then (g, err invalid_lease)
    else (record g { active = none }, ok tt)

-- A lease is known by its fields.
lease_eq_iff : (l m : SessionLease) → (lease_eq l m ≡ true) ↔ (l ≡ m)
unfolding lease_eq
lease_eq_iff l m = ground (arith, bytes_eq_iff l.session_id m.session_id)

release_held :
    (generation : ℕ) (l m : SessionLease)
    → ((release (record { active = some l; generation = generation }) m).1 ≡ ok tt) ↔ (m ≡ l)
unfolding release
release_held generation l m = elim (Bool-cases (lease_eq l m)) [
  | inl e ↦ ((λ _. sym ((lease_eq_iff l m).0 e)), (λ _. rw e refl))
  | inr e ↦ ((λ h. absurd (ground arith)), (λ h. absurd (ground (arith, lease_eq_iff l m, sym h))))
]

-- A lease that is not the one held is refused, and the gate stays as it is.
release_other :
    (generation : ℕ) (l m : SessionLease)
    → let g : SessionGate = record { active = some l; generation = generation } in
      (m ≡ l) ⊎ (release g m ≡ (g, err invalid_lease))
unfolding release
release_other generation l m = elim (Bool-cases (lease_eq l m)) [
  | inl e ↦ inl (sym ((lease_eq_iff l m).0 e))
  | inr e ↦ inr (rw e refl)
]

abbrev pub lease_of : SessionGate → Bytes → SessionLease
lease_of g session_id = record {
  session_id = session_id;
  generation = saturating_add g.generation 1;
}

abbrev holding : SessionLease → SessionGate
holding l = record { active = some l; generation = l.generation }

acquire_free :
    (g : SessionGate) (session_id : Bytes) (lease : SessionLease)
    → (acquire g session_id).1 ≡ ok lease
    → (acquire g session_id ≡ (holding lease, ok lease)) × (lease ≡ lease_of g session_id)
unfolding acquire
acquire_free g session_id lease h = ground arith

acquire_held :
    (l : SessionLease) (other : Bytes)
    → ((acquire (holding l) other).0 ≡ holding l) × (is_ok (acquire (holding l) other).1 ≡ false)
unfolding acquire
acquire_held l other = ground arith

release_frees : (l : SessionLease) → (release (holding l) l).0.active ≡ none
unfolding release
release_frees l = rw ((lease_eq_iff l l).1 refl) refl

-- When the gate grants a lease, the slot was free, the identifier has the length of one and is the
-- lease's, and the lease has the generation after the last one, or the last number of a u64 where
-- none is after it; until it is released every further attempt fails and changes nothing, exactly
-- this lease can be released, the release of any other is an invalid lease and changes nothing,
-- and its own release frees the slot.
pub acquire_grants :
    (g : SessionGate) (session_id : Bytes) (lease : SessionLease) (other : Bytes) (m : SessionLease)
    → (acquire g session_id).1 ≡ ok lease
    → let held = (acquire g session_id).0 in
      (g.active ≡ none)
      × (length session_id ≡ session_id_bytes)
      × (lease.session_id ≡ session_id)
      × IsNext g.generation lease.generation
      × ((acquire held other).0 ≡ held)
      × (is_ok (acquire held other).1 ≡ false)
      × (((release held m).1 ≡ ok tt) ↔ (m ≡ lease))
      × ((m ≡ lease) ⊎ (release held m ≡ (held, err invalid_lease)))
      × ((release held lease).0.active ≡ none)
unfolding acquire
acquire_grants g session_id lease other m h =
    let (whole, named) = acquire_free g session_id lease h in
    let state : (acquire g session_id).0 ≡ holding lease = ap (λ c. c.0) whole in
    (
      ground arith,
      ground arith,
      ap (λ l. l.session_id) named,
      rw named (saturating_add-IsNext g.generation),
      rw state ((acquire_held lease other).0),
      rw state ((acquire_held lease other).1),
      rw state (release_held lease.generation lease m),
      rw state (release_other lease.generation lease m),
      rw state (release_frees lease),
    )
