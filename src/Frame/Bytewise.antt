-- ===== src/Frame/Bytewise.antt =====
-- The loop of `push` with a piece of one byte in every turn, and bulk copies against it. This is a
-- step of the proofs: it shares `turn` with the decoder. The specification is Frame/Reading.
use mathlib.Core.Path.{fun_ext, ap₂}
use roammand.Base.{
  ℕ, zero, suc, ◌+◌, ◌≤◌, ◌<◌, ◌≡◌, refl, sym, ap, ◌∙◌, Bool, none, some, List, [], ◌∷◌, ◌++◌,
  append-nil, append_assoc, Bytes, length, length-append, ok, Call, and_then, arith, and_then_assoc,
  and_then_pure,
}
use roammand.Frame.{FrameError, FrameDecoder, overwrite, settle_payload, settle_header, turn}

-- One byte is a turn of the loop on a piece of length one.
unfoldable pub accept :
    FrameDecoder → List Bytes → Bytes → Call FrameDecoder FrameError (List Bytes)
accept d frames [] = (d, ok frames)
accept d frames (b ∷ bs) = and_then (turn d frames (b ∷ [])) λ d' frames'. accept d' frames' bs

pub accept-append :
    (d : FrameDecoder) (frames : List Bytes) (xs ys : Bytes)
    → accept d frames (xs ++ ys) ≡ and_then (accept d frames xs) λ d' frames'. accept d' frames' ys
unfolding accept
accept-append d frames [] ys = refl
accept-append d frames (x ∷ xs) ys =
    ap (and_then (turn d frames (x ∷ [])))
      (fun_ext λ d'. fun_ext λ frames'. accept-append d' frames' xs ys)
    ∙ sym (
        and_then_assoc (turn d frames (x ∷ [])) (λ d' frames'. accept d' frames' xs)
          (λ d' frames'. accept d' frames' ys))

-- Between two frames, or in the header of one.
abbrev pub in_header : Bytes → ℕ → Bool → ℕ → FrameDecoder
in_header header n failed maximum = record {
  header = header;
  header_length = n;
  expected_payload_length = none;
  payload = [];
  failed = failed;
  maximum = maximum;
}

-- In the payload of a frame of `expected` bytes.
abbrev pub in_payload : Bytes → ℕ → Bytes → Bool → ℕ → FrameDecoder
in_payload header expected payload failed maximum = record {
  header = header;
  header_length = 0;
  expected_payload_length = some expected;
  payload = payload;
  failed = failed;
  maximum = maximum;
}

module _ (header : Bytes) (failed : Bool) (maximum : ℕ) where
  settle_payload_waits :
      (frames : List Bytes) (expected : ℕ) (payload : Bytes)
      → length payload < expected
      → settle_payload (in_payload header expected payload failed maximum) frames expected
        ≡ (in_payload header expected payload failed maximum, ok frames)
  unfolding settle_payload
  settle_payload_waits frames expected payload h = ground arith

  -- A piece that fits the payload.
  pub accept-payload :
      (frames : List Bytes) (expected : ℕ) (payload xs : Bytes)
      → length payload < expected
      → length payload + length xs ≤ expected
      → accept (in_payload header expected payload failed maximum) frames xs
        ≡ settle_payload (in_payload header expected (payload ++ xs) failed maximum) frames expected
  unfolding accept turn settle_payload
  accept-payload frames expected payload [] h k = ground (arith, append-nil payload)
  accept-payload frames expected payload (x ∷ []) h k = and_then_pure (
      settle_payload (in_payload header expected (payload ++ x ∷ []) failed maximum) frames
        expected)
  accept-payload frames expected payload (x ∷ y ∷ ys) h k =
      let room = length-append payload (x ∷ []) in
      ap (λ c. and_then c λ d' frames'. accept d' frames' (y ∷ ys))
        (settle_payload_waits frames expected (payload ++ x ∷ []) (omega (arith, room)))
      ∙ accept-payload frames expected (payload ++ x ∷ []) (y ∷ ys) (omega (arith, room))
          (omega (arith, room))
      ∙ ap (λ p. settle_payload (in_payload header expected p failed maximum) frames expected)
          (append_assoc payload (x ∷ []) (y ∷ ys))

  settle_header_waits :
      (frames : List Bytes) (h : Bytes) (n : ℕ)
      → n < 4
      → settle_header (in_header h n failed maximum) frames
        ≡ (in_header h n failed maximum, ok frames)
  unfolding settle_header
  settle_header_waits frames h n k = ground arith

overwrite-nil : (hs : Bytes) (i : ℕ) → overwrite hs i [] ≡ hs
unfolding overwrite
overwrite-nil [] i = refl
overwrite-nil (h ∷ hs) zero = refl
overwrite-nil (h ∷ hs) (suc i) = ap (λ t. h ∷ t) (overwrite-nil hs i)

overwrite-overwrite :
    (hs : Bytes) (i : ℕ) (x : ℕ) (xs : Bytes)
    → overwrite (overwrite hs i (x ∷ [])) (i + 1) xs ≡ overwrite hs i (x ∷ xs)
unfolding overwrite
overwrite-overwrite [] i x xs = refl
overwrite-overwrite (h ∷ hs) zero x xs = ap (λ t. x ∷ overwrite t zero xs) (overwrite-nil hs zero)
overwrite-overwrite (h ∷ hs) (suc i) x xs =
    let e : suc i + 1 ≡ suc (i + 1) = omega arith in
    rw e (ap (λ t. h ∷ t) (overwrite-overwrite hs i x xs))

module _ (failed : Bool) (maximum : ℕ) where
  -- A piece that fits the header.
  pub accept-header :
      (frames : List Bytes) (header : Bytes) (n : ℕ) (xs : Bytes)
      → n < 4
      → n + length xs ≤ 4
      → accept (in_header header n failed maximum) frames xs
        ≡ settle_header (in_header (overwrite header n xs) (n + length xs) failed maximum) frames
  unfolding accept turn
  accept-header frames header n [] h k = sym (
      ap₂ (λ hs k. settle_header (in_header hs k failed maximum) frames) (overwrite-nil header n)
        (omega arith)
      ∙ settle_header_waits header failed maximum frames header n h)
  accept-header frames header n (x ∷ []) h k =
      and_then_pure
        (settle_header (in_header (overwrite header n (x ∷ [])) (n + 1) failed maximum) frames)
  accept-header frames header n (x ∷ y ∷ ys) h k =
      ap (λ c. and_then c λ d' frames'. accept d' frames' (y ∷ ys))
        (settle_header_waits header failed maximum frames (overwrite header n (x ∷ [])) (n + 1)
          (omega arith))
      ∙ accept-header frames (overwrite header n (x ∷ [])) (n + 1) (y ∷ ys) (omega arith)
          (omega arith)
      ∙ ap₂ (λ hs k. settle_header (in_header hs k failed maximum) frames)
          (overwrite-overwrite header n x (y ∷ ys)) (omega arith)
