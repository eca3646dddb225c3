-- ===== src/Lease/Terms.antt =====
-- How a lease begins, is renewed and ends.
use roammand.Base.{
  ℕ, ◌+◌, ◌≤◌, ◌<◌, ◌≡◌, ◌↔◌, ◌∙◌, sym, refl, ap, List, [], ◌∷◌, is_ok, Bool, false, Option, none,
  some, Option-cases, bytes_eq, bytes_eq_iff, bytes_eq_refl, u64_size, ok, err, inl, inr, arith,
}
use roammand.Lease.{
  LeaseId, AcquireLease, Lease, LeaseManager, lease_not_active, acquire, renew, authorize_command,
  release, validate_controller_name, renew_interval_ms, lease_duration_ms, zero_id, lease_expired,
}
use roammand.Lease.Trace.{Operation, renews, step, run}

-- What `acquire` asks for: a connected host of the requested generation, no active lease, a valid
-- name, a nonzero random identifier and an expiry that fits a u64.
pub record Grantable (m : LeaseManager) (r : AcquireLease) (now_ms : ℕ) (drawn : Option LeaseId)
    (id : LeaseId) : Type 0 where
  pub connected : m.host_generation ≡ some r.generation
  pub idle : m.active ≡ none
  pub named : validate_controller_name r.controller_display_name ≡ ok tt
  pub random : drawn ≡ some id
  pub nonzero : bytes_eq id zero_id ≡ false
  pub fits : now_ms + lease_duration_ms < u64_size

abbrev pub fresh_lease : AcquireLease → ℕ → LeaseId → Lease
fresh_lease r now_ms id = record {
  id = id;
  session_id = r.session_id;
  generation = r.generation;
  issued_at_ms = now_ms;
  expires_at_ms = now_ms + lease_duration_ms;
  last_renewed_at_ms = now_ms;
  last_command_sequence = 0;
  controller_display_name = r.controller_display_name;
  may_control_input = r.may_control_input;
}

module _ (m : LeaseManager) (r : AcquireLease) (now_ms : ℕ) (drawn : Option LeaseId) where
  acquire_complete :
      (id : LeaseId)
      → Grantable m r now_ms drawn id
      → acquire m r now_ms drawn ≡ (
        record m { active = some (fresh_lease r now_ms id); last_released = none },
        ok (fresh_lease r now_ms id),
      )
  unfolding acquire
  acquire_complete id g = ground arith

  acquire_sound :
      (l : Lease)
      → (acquire m r now_ms drawn).1 ≡ ok l
      → Grantable m r now_ms drawn l.id × (l ≡ fresh_lease r now_ms l.id)
  unfolding acquire
  acquire_sound l h = ground arith

  -- A lease is acquired exactly when the Host is connected at the requested generation, no lease
  -- is active, the name is valid, the random identifier is there and not zero, and the expiry fits
  -- a u64; it then starts at now for one term, at command number 0.
  pub acquire-ok_iff :
      (l : Lease)
      → ((acquire m r now_ms drawn).1 ≡ ok l)
        ↔ (Grantable m r now_ms drawn l.id × (l ≡ fresh_lease r now_ms l.id))
  acquire-ok_iff l =
      (acquire_sound l, λ (g, e). ap (λ c. c.1) (acquire_complete l.id g) ∙ ap ok (sym e))

-- What `renew` asks for: the exact active lease, unexpired, at least 5 s after its last renewal.
pub record Renewable (m : LeaseManager) (id : LeaseId) (generation now_ms : ℕ) (l : Lease)
    : Type 0 where
  pub is_active : m.active ≡ some l
  pub same_id : id ≡ l.id
  pub same_generation : generation ≡ l.generation
  pub unexpired : now_ms < l.expires_at_ms
  pub due : l.last_renewed_at_ms + renew_interval_ms ≤ now_ms
  pub fits : now_ms + lease_duration_ms < u64_size

abbrev pub renewed_at : Lease → ℕ → Lease
renewed_at l now_ms = record l {
  last_renewed_at_ms = now_ms;
  expires_at_ms = now_ms + lease_duration_ms;
}

module _ (m : LeaseManager) (id : LeaseId) (generation now_ms : ℕ) where
  renew_complete :
      (l : Lease)
      → Renewable m id generation now_ms l
      → renew m id generation now_ms
        ≡ (record m { active = some (renewed_at l now_ms) }, ok (renewed_at l now_ms))
  unfolding renew
  renew_complete l w = ground (arith, bytes_eq_iff id l.id)

  renew_active_sound :
      (l k : Lease)
      → m.active ≡ some l
      → (renew m id generation now_ms).1 ≡ ok k
      → Renewable m id generation now_ms l × (k ≡ renewed_at l now_ms)
  unfolding renew
  renew_active_sound l k e h = ground (arith, bytes_eq_iff id l.id)

  renew_sound :
      (k : Lease)
      → (renew m id generation now_ms).1 ≡ ok k
      → (l : Lease) × Renewable m id generation now_ms l × (k ≡ renewed_at l now_ms)
  unfolding renew
  renew_sound k h = elim (Option-cases m.active) [
    | inl e ↦ absurd (ground arith)
    | inr (l, e) ↦ let (w, same) = renew_active_sound l k e h in (l, w, same)
  ]

  -- A renewal succeeds exactly when it names the active lease, comes before its expiry and at
  -- least 5 s after the last one, and the new expiry fits a u64; it moves the expiry to 15 s from
  -- now and changes nothing else of the lease but its renewal time.
  pub renew-ok_iff :
      (k : Lease)
      → ((renew m id generation now_ms).1 ≡ ok k)
        ↔ ((l : Lease) × Renewable m id generation now_ms l × (k ≡ renewed_at l now_ms))
  renew-ok_iff k = (renew_sound k, λ (l, w, e). ap (λ c. c.1) (renew_complete l w) ∙ ap ok (sym e))

  -- At or after its expiry the active lease neither authorizes a command nor is renewed, whatever
  -- the caller names; a caller that names it exactly freezes it: no lease is active then, and this
  -- one is remembered.
  pub expired_lease_is_dead :
      (l : Lease) (sequence : ℕ)
      → m.active ≡ some l
      → l.expires_at_ms ≤ now_ms
      → let frozen : LeaseManager = record m {
        active = none;
        last_released = some (l.id, l.generation);
      } in
        (is_ok (authorize_command m id generation sequence now_ms).1 ≡ false)
        × (is_ok (renew m id generation now_ms).1 ≡ false)
        × (authorize_command m l.id l.generation sequence now_ms ≡ (frozen, err lease_expired))
        × (renew m l.id l.generation now_ms ≡ (frozen, err lease_expired))
  unfolding authorize_command renew
  expired_lease_is_dead l sequence e h = ground (arith, bytes_eq_iff id l.id, bytes_eq_refl l.id)

  -- A release that succeeds leaves no active lease, so that commands and renewals fail, and the
  -- same release once more reports false and changes nothing.
  pub release_is_final :
      (b : Bool) (sequence : ℕ)
      → (release m id generation).1 ≡ ok b
      → let m' = (release m id generation).0 in
        (authorize_command m' id generation sequence now_ms ≡ (m', err lease_not_active))
        × (renew m' id generation now_ms ≡ (m', err lease_not_active))
        × (release m' id generation ≡ (m', ok false))
  unfolding authorize_command renew release
  release_is_final b sequence h = elim (Option-cases m.active) [
    | inl e ↦ ground arith
    | inr (l, e) ↦ ground (arith, bytes_eq_iff id l.id, bytes_eq_refl id)
  ]

-- Renewal times that keep the cadence: each at least 5 s and less than 15 s after the one before.
abbrev pub Cadence : ℕ → List ℕ → Type 0
Cadence t [] = Unit {0}
Cadence t (u ∷ us) =
    (t + renew_interval_ms ≤ u)
    × (u < t + lease_duration_ms)
    × (u + lease_duration_ms < u64_size)
    × Cadence u us

abbrev pub renewals : LeaseId → ℕ → List ℕ → List Operation
renewals id generation [] = []
renewals id generation (u ∷ us) = renews id generation u ∷ renewals id generation us

abbrev pub renewed_until : Lease → List ℕ → Lease
renewed_until l [] = l
renewed_until l (u ∷ us) = renewed_until (renewed_at l u) us

-- A lease that runs for one term from its last renewal stays active under any number of renewals
-- that keep the cadence, each at least 5 s and less than 15 s after the one before and within a
-- u64.
pub renewals_keep_lease :
    (m : LeaseManager) (l : Lease) (us : List ℕ)
    → m.active ≡ some l
    → l.expires_at_ms ≡ l.last_renewed_at_ms + lease_duration_ms
    → Cadence l.last_renewed_at_ms us
    → (run m (renewals l.id l.generation us)).active ≡ some (renewed_until l us)
unfolding run step
renewals_keep_lease m l [] e full c = e
renewals_keep_lease m l (u ∷ us) e full c =
    let due : Renewable m l.id l.generation u l = record {
      is_active = e;
      same_id = refl;
      same_generation = refl;
      unexpired = omega arith;
      due = c.0;
      fits = c.2;
    } in
    rw (run, step, ap (λ c. c.0) (renew_complete m l.id l.generation u l due))
      (renewals_keep_lease (record m { active = some (renewed_at l u) }) (renewed_at l u) us refl
        refl c.3)
