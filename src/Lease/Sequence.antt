-- ===== src/Lease/Sequence.antt =====
-- `authorize_command`: each command of a lease once, in order.
use roammand.Base.{
  ℕ, zero, suc, ◌+◌, ◌<◌, ◌≡◌, ◌↔◌, refl, ap, true, false, Option, none, some, Option-cases, List,
  [], ◌∷◌, bytes_eq_iff, u64_size, ok, is_ok, length, Bool-cases, inl, inr, arith,
}
use roammand.Lease.{
  LeaseId, AcquireLease, Lease, LeaseManager, connect_host, disconnect_host, acquire, renew,
  authorize_command, release, close, expire,
}
use roammand.Lease.Trace.{Operation, acquires, commands, is_acquire, is_command, step, accepted}

-- The lease that authorizes a command: active, named exactly, unexpired, at the number before.
pub record Authorizes (m : LeaseManager) (id : LeaseId) (generation sequence now_ms : ℕ) (l : Lease)
    : Type 0 where
  pub is_active : m.active ≡ some l
  pub same_id : id ≡ l.id
  pub same_generation : generation ≡ l.generation
  pub unexpired : now_ms < l.expires_at_ms
  pub next_sequence : sequence ≡ l.last_command_sequence + 1
  pub fits : sequence < u64_size

module _ (m : LeaseManager) (id : LeaseId) (generation sequence now_ms : ℕ) where
  authorize_command_active :
      (l : Lease)
      → m.active ≡ some l
      → (authorize_command m id generation sequence now_ms).1 ≡ ok tt
      → Authorizes m id generation sequence now_ms l
  unfolding authorize_command
  authorize_command_active l e h = ground (arith, bytes_eq_iff id l.id)

  pub authorize_command_sound :
      (authorize_command m id generation sequence now_ms).1 ≡ ok tt
      → (l : Lease) × Authorizes m id generation sequence now_ms l
  unfolding authorize_command
  authorize_command_sound h = elim (Option-cases m.active) [
    | inl e ↦ absurd (ground arith)
    | inr (l, e) ↦ (l, authorize_command_active l e h)
  ]

  pub authorize_command_complete :
      (l : Lease)
      → Authorizes m id generation sequence now_ms l
      → authorize_command m id generation sequence now_ms
        ≡ (record m { active = some (record l { last_command_sequence = sequence }) }, ok tt)
  unfolding authorize_command
  authorize_command_complete l a = ground (arith, bytes_eq_iff id l.id)

  -- A command is authorized exactly when a lease is active whose identifier and generation it
  -- names, which has not expired, and whose last command has the number before, within a u64.
  pub authorize_command-ok_iff :
      ((authorize_command m id generation sequence now_ms).1 ≡ ok tt)
      ↔ ((l : Lease) × Authorizes m id generation sequence now_ms l)
  authorize_command-ok_iff =
      (authorize_command_sound, λ (l, a). ap (λ c. c.1) (authorize_command_complete l a))

-- The active lease, if there is one, has authorized `n` commands.
abbrev pub SequenceAt : ℕ → Option Lease → Type 0
SequenceAt n none = Unit {0}
SequenceAt n (some l) = l.last_command_sequence ≡ n

step-SequenceAt :
    (m : LeaseManager) (o : Operation) (n : ℕ)
    → is_acquire o ≡ false
    → is_command o ≡ false
    → SequenceAt n m.active
    → SequenceAt n (step m o).active
unfolding step connect_host disconnect_host renew release close expire
step-SequenceAt m (acquires request now_ms drawn) n a c s = cc
step-SequenceAt m (commands id generation sequence now_ms) n a c s = cc
step-SequenceAt m _ n a c s = ground arith

command-SequenceAt :
    (m : LeaseManager) (id : LeaseId) (generation sequence now_ms n : ℕ)
    → SequenceAt n m.active
    → let r = authorize_command m id generation sequence now_ms in
      (is_ok r.1 ≡ true → (sequence ≡ n + 1) × SequenceAt (n + 1) r.0.active)
      × (is_ok r.1 ≡ false → SequenceAt n r.0.active)
unfolding authorize_command
command-SequenceAt m id generation sequence now_ms n s = ground arith

acquire-SequenceAt :
    (m m' : LeaseManager) (r : AcquireLease) (now_ms : ℕ) (drawn : Option LeaseId) (l : Lease)
    → acquire m r now_ms drawn ≡ (m', ok l)
    → SequenceAt 0 m'.active
unfolding acquire
acquire-SequenceAt m m' r now_ms drawn l e = ground arith

-- n, n + 1, …: k numbers.
abbrev pub count_from : ℕ → ℕ → List ℕ
count_from n zero = []
count_from n (suc k) = n ∷ count_from (n + 1) k

abbrev pub NoAcquire : List Operation → Type 0
NoAcquire [] = Unit {0}
NoAcquire (o ∷ os) = (is_acquire o ≡ false) × NoAcquire os

accepted-count_from :
    (m : LeaseManager) (os : List Operation) (n : ℕ)
    → NoAcquire os
    → SequenceAt n m.active
    → accepted m os ≡ count_from (n + 1) (length (accepted m os))
unfolding accepted
accepted-count_from m [] n free s = refl
accepted-count_from m (commands id generation sequence now_ms ∷ os) n free s =
    let (took, left) = command-SequenceAt m id generation sequence now_ms n s in
    elim (Bool-cases (is_ok (authorize_command m id generation sequence now_ms).1)) [
      | inl e ↦
          let m' = step m (commands id generation sequence now_ms) in
          rw e
            (cc ((took e).0, accepted-count_from m' os (n + 1) free.1 (unfold step in (took e).1)))
      | inr e ↦ rw e (
          accepted-count_from (step m (commands id generation sequence now_ms)) os n free.1
            (unfold step in left e))
    ]
accepted-count_from m (o ∷ os) n free s =
    accepted-count_from (step m o) os n free.1 (step-SequenceAt m o n free.0 refl s)

-- The commands authorized under a lease, in any history of calls up to the next acquire, have the
-- sequence numbers 1, 2, 3, and so on: none is skipped, repeated or reordered.
pub acquire-accepted :
    (m m' : LeaseManager) (r : AcquireLease) (now_ms : ℕ) (drawn : Option LeaseId) (l : Lease)
    → acquire m r now_ms drawn ≡ (m', ok l)
    → (os : List Operation) → NoAcquire os
    → accepted m' os ≡ count_from 1 (length (accepted m' os))
acquire-accepted m m' r now_ms drawn l e os free =
    accepted-count_from m' os 0 free (acquire-SequenceAt m m' r now_ms drawn l e)
