-- ===== src/Peer/Sequences.antt =====
-- The order of input: reliable envelopes by consecutive numbers, pointer envelopes by rising ones.
use roammand.Base.{
  ℕ, ◌≤◌, ◌<◌, ◌≡◌, ◌≢◌, ◌⊎◌, refl, ap, ◌∙◌, inl, inr, Bool, true, false, Option, none, some, Bytes,
  bytes_eq_iff, saturating_add-IsNext, IsNext, leb, ok_or, ok, err, and_then, and_then-ok,
  Result-cases, Bool-cases, arith,
}
use roammand.Peer.Types.{
  HostWebRtcError, invalid_input_envelope, is_input_failure, ReliableEvent, ReliableInputEnvelope,
  PointerEvent, PointerFastEnvelope, PeerBackend, RemoteInputSink,
}
use roammand.Peer.Session.{
  connected, closed, HostPeerSession, Reply, release_all, close, close_with,
}
use roammand.Peer.Input.{
  InputDisposition, PointerDisposition, dropped_stale, apply_reliable_event, fail_input,
  finish_reliable, admit_reliable, handle_reliable, apply_pointer_event, finish_pointer,
  admit_pointer, apply_newer, handle_pointer_fast,
}

-- The session takes input from an envelope of this session id.
pub record TakesInput {P I : Type 0} (s : HostPeerSession P I) (session_id : Bytes) : Type 0 where
  pub is_connected : s.state ≡ connected
  pub allowed : s.input_allowed ≡ true
  pub same_session : session_id ≡ s.session_id

module _ {P I : Type 0} (peers : PeerBackend P) (inputs : RemoteInputSink I) where
  -- What an admitted reliable envelope is.
  pub record Admitted (s : HostPeerSession P I) (decoded : Option ReliableInputEnvelope)
      (sequence : ℕ) (event : ReliableEvent) : Type 0 where
    pub envelope : ReliableInputEnvelope
    pub is_decoded : decoded ≡ some envelope
    pub takes : TakesInput s envelope.session_id
    pub named : envelope.sequence ≡ sequence
    pub next : IsNext s.last_reliable_sequence sequence
    pub holds : envelope.event ≡ some event

  admit_reliable_ok :
      (s : HostPeerSession P I) (decoded : Option ReliableInputEnvelope) (sequence : ℕ)
      (event : ReliableEvent)
      → admit_reliable peers inputs s decoded ≡ ok (sequence, event)
      → Admitted s decoded sequence event
  unfolding admit_reliable
  admit_reliable_ok s none sequence event h = absurd (ground arith)
  admit_reliable_ok s (some envelope) sequence event h = record {
    envelope = envelope;
    is_decoded = refl;
    takes = record {
      is_connected = ground arith;
      allowed = ground arith;
      same_session = ground (arith, bytes_eq_iff envelope.session_id s.session_id);
    };
    named = ground arith;
    next = ground (arith, saturating_add-IsNext s.last_reliable_sequence);
    holds = ground arith;
  }

  -- Injecting an event moves neither sequence number.
  apply-last_reliable :
      (s : HostPeerSession P I) (event : ReliableEvent)
      → (apply_reliable_event peers inputs s event).0.last_reliable_sequence
        ≡ s.last_reliable_sequence
  unfolding apply_reliable_event release_all
  apply-last_reliable s event = ground arith

  close-last_reliable :
      (s : HostPeerSession P I)
      → (close peers inputs s).0.last_reliable_sequence ≡ s.last_reliable_sequence
  unfolding close
  close-last_reliable s = ground arith

  -- A failed event is never a success.
  fail_input_err :
      {A : Type 0} (s : HostPeerSession P I) (e : HostWebRtcError) {a : A}
      → (fail_input peers inputs {A = A} s e).1 ≢ ok a
  unfolding fail_input close_with
  fail_input_err s e h = elim (Bool-cases (is_input_failure e)) [
    | inl q ↦ absurd (ground arith)
    | inr q ↦ absurd (ground arith)
  ]

  finish_reliable_ok :
      (sequence : ℕ) (r : Reply peers inputs Bool) (d : InputDisposition)
      → (finish_reliable peers inputs sequence r).1 ≡ ok d
      → (finish_reliable peers inputs sequence r).0.last_reliable_sequence ≡ sequence
  unfolding finish_reliable
  finish_reliable_ok sequence (s, err e) d h = absurd (fail_input_err s e h)
  finish_reliable_ok sequence (s, ok false) d h = refl
  finish_reliable_ok sequence (s, ok true) d h =
      ground (arith, close-last_reliable (record s { last_reliable_sequence = sequence }))

  finish_reliable_err :
      (sequence : ℕ) (r : Reply peers inputs Bool) (e : HostWebRtcError)
      → (finish_reliable peers inputs sequence r).1 ≡ err e
      → ((finish_reliable peers inputs sequence r).0.last_reliable_sequence
          ≡ r.0.last_reliable_sequence)
        ⊎ ((finish_reliable peers inputs sequence r).0.state ≡ closed)
  unfolding finish_reliable close_with close
  finish_reliable_err sequence (s, err x) e h = elim (Bool-cases (is_input_failure x)) [
    | inl q ↦ inl (rw q (close-last_reliable s))
    | inr q ↦ inl (rw q refl)
  ]
  finish_reliable_err sequence (s, ok false) e h = absurd (ground arith)
  finish_reliable_err sequence (s, ok true) e h = inr (unfold close in ground arith)

  -- A reliable envelope that succeeds came to a connected session that allows input, decodes, is
  -- of this session, holds an event, and has the number after the last one, or the last number of
  -- a u64 where that is the last one already; its number becomes the last one.
  pub handle_reliable_ok :
      (decode : Bytes → Option ReliableInputEnvelope) (s : HostPeerSession P I) (encoded : Bytes)
      (d : InputDisposition)
      → (handle_reliable peers inputs decode s encoded).1 ≡ ok d
      → (sequence : ℕ) × (event : ReliableEvent) × Admitted s (decode encoded) sequence event
        × ((handle_reliable peers inputs decode s encoded).0.last_reliable_sequence ≡ sequence)
  unfolding handle_reliable
  handle_reliable_ok decode s encoded d h =
      let (admitted, a, h', whole) =
        and_then-ok (s, admit_reliable peers inputs s (decode encoded))
          (λ t p. finish_reliable peers inputs p.0 (apply_reliable_event peers inputs t p.1)) h in
      (
        admitted.0,
        admitted.1,
        admit_reliable_ok s (decode encoded) admitted.0 admitted.1 a,
        ap (λ c. c.0.last_reliable_sequence) whole
            ∙ finish_reliable_ok admitted.0 (apply_reliable_event peers inputs s admitted.1) d h',
      )

  -- A reliable envelope that fails leaves the number of the last one as it was, or the session
  -- closed.
  pub handle_reliable_err :
      (decode : Bytes → Option ReliableInputEnvelope) (s : HostPeerSession P I) (encoded : Bytes)
      (e : HostWebRtcError)
      → let r = handle_reliable peers inputs decode s encoded in
        r.1 ≡ err e → (r.0.last_reliable_sequence ≡ s.last_reliable_sequence) ⊎ (r.0.state ≡ closed)
  unfolding handle_reliable
  handle_reliable_err decode s encoded e h =
      elim (Result-cases (admit_reliable peers inputs s (decode encoded))) [
        | inr (x, a) ↦ inl (ground arith)
        | inl (admitted, a) ↦ ground (
          arith,
          finish_reliable_err admitted.0 (apply_reliable_event peers inputs s admitted.1) e,
          apply-last_reliable s admitted.1,
        )
      ]

  admit_pointer_ok :
      (s : HostPeerSession P I) (decoded : Option PointerFastEnvelope)
      (envelope : PointerFastEnvelope)
      → admit_pointer peers inputs s decoded ≡ ok envelope
      → (decoded ≡ some envelope) × TakesInput s envelope.session_id
  unfolding admit_pointer
  admit_pointer_ok s none envelope h = absurd (ground arith)
  admit_pointer_ok s (some held) envelope h =
      ground (arith, bytes_eq_iff held.session_id s.session_id)

  -- What `apply_newer` does to the number of the last pointer envelope.
  abbrev pub PointerOutcome :
      HostPeerSession P I → ℕ → Reply peers inputs PointerDisposition → Type 0
  PointerOutcome s sequence (after, ok PointerDisposition.applied) =
      (s.last_pointer_sequence < sequence) × (after.last_pointer_sequence ≡ sequence)
  PointerOutcome s sequence (after, ok dropped_stale) =
      (sequence ≤ s.last_pointer_sequence) × (after ≡ s)
  PointerOutcome s sequence (after, err e) = after.last_pointer_sequence ≡ s.last_pointer_sequence

  close-last_pointer :
      (s : HostPeerSession P I)
      → (close peers inputs s).0.last_pointer_sequence ≡ s.last_pointer_sequence
  unfolding close
  close-last_pointer s = ground arith

  apply-last_pointer :
      (s : HostPeerSession P I) (event : PointerEvent)
      → (apply_pointer_event peers inputs s event).0.last_pointer_sequence ≡ s.last_pointer_sequence
  unfolding apply_pointer_event
  apply-last_pointer s event = ground arith

  finish_pointer-PointerOutcome :
      (s : HostPeerSession P I) (sequence : ℕ) (r : Reply peers inputs (Unit {0}))
      → s.last_pointer_sequence < sequence
      → r.0.last_pointer_sequence ≡ s.last_pointer_sequence
      → PointerOutcome s sequence (finish_pointer peers inputs sequence r)
  unfolding finish_pointer close_with
  finish_pointer-PointerOutcome s sequence (t, err e) h k = elim (Bool-cases (is_input_failure e)) [
    | inl q ↦ rw q (close-last_pointer t ∙ k)
    | inr q ↦ rw q k
  ]
  finish_pointer-PointerOutcome s sequence (t, ok u) h k = (h, refl)

  apply_event-PointerOutcome :
      (s : HostPeerSession P I) (sequence : ℕ)
      → s.last_pointer_sequence < sequence
      → (held : Option PointerEvent)
      → PointerOutcome s sequence (
          and_then
            (s, ok_or held invalid_input_envelope)
            λ s event.
              finish_pointer peers inputs sequence (apply_pointer_event peers inputs s event))
  apply_event-PointerOutcome s sequence h none = refl
  apply_event-PointerOutcome s sequence h (some event) =
      finish_pointer-PointerOutcome s sequence (apply_pointer_event peers inputs s event) h
        (apply-last_pointer s event)

  apply_newer-PointerOutcome :
      (s : HostPeerSession P I) (envelope : PointerFastEnvelope)
      → PointerOutcome s envelope.sequence (apply_newer peers inputs s envelope)
  unfolding apply_newer
  apply_newer-PointerOutcome s envelope =
      elim (Bool-cases (leb envelope.sequence s.last_pointer_sequence)) [
        | inl old ↦ rw old (ground arith, refl)
        | inr newer ↦
            rw newer (apply_event-PointerOutcome s envelope.sequence (ground arith) envelope.event)
      ]

  -- Pointer envelopes come by rising numbers: one that succeeds came to a connected session that
  -- allows input, decodes and is of this session; if its number is above the last one, that
  -- becomes the last one, and if not, the envelope is dropped and the session is as it was; one
  -- that fails leaves the number of the last one as it was.
  pub handle_pointer_fast_order :
      (decode : Bytes → Option PointerFastEnvelope) (s : HostPeerSession P I) (encoded : Bytes)
      → let r = handle_pointer_fast peers inputs decode s encoded in
        ((envelope : PointerFastEnvelope) × (decode encoded ≡ some envelope)
          × TakesInput s envelope.session_id
          × PointerOutcome s envelope.sequence r)
        ⊎ ((e : HostWebRtcError) × (r ≡ (s, err e)))
  unfolding handle_pointer_fast
  handle_pointer_fast_order decode s encoded =
      elim (Result-cases (admit_pointer peers inputs s (decode encoded))) [
        | inr (e, a) ↦ inr (e, rw a refl)
        | inl (envelope, a) ↦
            let (decoded, takes) = admit_pointer_ok s (decode encoded) envelope a in
            inl (envelope, decoded, takes, rw a (apply_newer-PointerOutcome s envelope))
      ]
