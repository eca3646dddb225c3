-- ===== src/Frame/Total.antt =====
-- `push` ends, and does with a chunk what it does with its bytes one by one.
use native.Mathlib.Nat.{le_refl}
use roammand.Base.{
  ℕ, zero, suc, ◌+◌, ◌-◌, ◌≤◌, ◌<◌, min, ◌≡◌, refl, sym, ap, subst, ◌∙◌, inl, inr, Bool, true,
  false, some, List, [], ◌∷◌, ◌++◌, Bytes, length, take, drop, length-append, length-take,
  length-drop, ◌==◌, Bool-cases, Result-cases, Result, ok, err, Call, and_then, arith,
  and_then_at_ok, and_then_at_err,
}
use roammand.Frame.{
  FrameError, FrameDecoder, overwrite, settle_payload, settle_header, turn, copied, push_loop,
  push_valid, mark, push, begin_payload, validate_frame_length, from_be_bytes,
}
use roammand.Frame.Bytewise.{
  accept, accept-append, in_header, in_payload, accept-payload, accept-header,
}

-- A decoder between passes of the loop: in a header that is not complete, with no payload, or in a
-- payload that is not complete and fits the limit.
pub data Position : FrameDecoder → Type 0 where
  header_at :
      (header : Bytes) (n : ℕ) (failed : Bool) (maximum : ℕ)
      → n < 4
      → length header ≡ 4
      → Position (in_header header n failed maximum)
  payload_at :
      (header : Bytes) (expected : ℕ) (payload : Bytes) (failed : Bool) (maximum : ℕ)
      → length payload < expected
      → expected ≤ maximum
      → length header ≡ 4
      → Position (in_payload header expected payload failed maximum)

take-append-drop : (n : ℕ) (xs : Bytes) → take n xs ++ drop n xs ≡ xs
take-append-drop zero xs = refl
take-append-drop (suc n) [] = refl
take-append-drop (suc n) (x ∷ xs) = ap (λ t. x ∷ t) (take-append-drop n xs)

-- One turn of the loop does what a turn for each of the bytes that it copies does.
turn-accept :
    (d : FrameDecoder) (frames : List Bytes) (chunk : Bytes)
    → Position d
    → turn d frames (take (copied d chunk) chunk) ≡ accept d frames (take (copied d chunk) chunk)
unfolding turn copied
turn-accept d frames chunk (header_at header n failed maximum h k) = sym (
    accept-header failed maximum frames header n (take (min (4 - n) (length chunk)) chunk) h
      (omega (arith, length-take (min (4 - n) (length chunk)) chunk)))
turn-accept d frames chunk (payload_at header expected payload failed maximum h k w) = sym (
    accept-payload header failed maximum frames expected payload
      (take (min (expected - length payload) (length chunk)) chunk) h
      (omega (arith, length-take (min (expected - length payload) (length chunk)) chunk)))

pub copied-pos : (d : FrameDecoder) (b : ℕ) (bs : Bytes) → Position d → 0 < copied d (b ∷ bs)
unfolding copied
copied-pos d b bs (header_at header n failed maximum h k) = omega arith
copied-pos d b bs (payload_at header expected payload failed maximum h k w) = omega arith

length-overwrite : (hs : Bytes) (i : ℕ) (xs : Bytes) → length (overwrite hs i xs) ≡ length hs
unfolding overwrite
length-overwrite [] i xs = refl
length-overwrite (h ∷ hs) zero [] = refl
length-overwrite (h ∷ hs) zero (x ∷ xs) = ap suc (length-overwrite hs zero xs)
length-overwrite (h ∷ hs) (suc i) xs = ap suc (length-overwrite hs i xs)

-- A turn that succeeds stays between passes.
abbrev Stays : Call FrameDecoder FrameError (List Bytes) → Type 0
Stays r = (frames : List Bytes) → r.1 ≡ ok frames → Position r.0

pub settle_payload_full :
    (header : Bytes) (expected : ℕ) (payload : Bytes) (failed : Bool) (maximum : ℕ)
    (frames : List Bytes)
    → (length payload == expected) ≡ true
    → settle_payload (in_payload header expected payload failed maximum) frames expected
      ≡ (in_header header 0 failed maximum, ok (frames ++ payload ∷ []))
unfolding settle_payload
settle_payload_full header expected payload failed maximum frames t = ground arith

settle_payload_part :
    (header : Bytes) (expected : ℕ) (payload : Bytes) (failed : Bool) (maximum : ℕ)
    (frames : List Bytes)
    → (length payload == expected) ≡ false
    → settle_payload (in_payload header expected payload failed maximum) frames expected
      ≡ (in_payload header expected payload failed maximum, ok frames)
unfolding settle_payload
settle_payload_part header expected payload failed maximum frames t = ground arith

settle_header_part :
    (header : Bytes) (n : ℕ) (failed : Bool) (maximum : ℕ) (frames : List Bytes)
    → (n == 4) ≡ false
    → settle_header (in_header header n failed maximum) frames
      ≡ (in_header header n failed maximum, ok frames)
unfolding settle_header
settle_header_part header n failed maximum frames t = ground arith

settle_header_full :
    (header : Bytes) (n : ℕ) (failed : Bool) (maximum : ℕ) (frames : List Bytes)
    → (n == 4) ≡ true
    → settle_header (in_header header n failed maximum) frames
      ≡ begin_payload
          (in_header header n failed maximum)
          frames
          (from_be_bytes header)
          (validate_frame_length (from_be_bytes header) maximum)
unfolding settle_header
settle_header_full header n failed maximum frames t = ground arith

validate_frame_length_ok :
    (size maximum : ℕ) (u : Unit {0})
    → validate_frame_length size maximum ≡ ok u
    → (0 < size) × (size ≤ maximum)
unfolding validate_frame_length
validate_frame_length_ok size maximum u h = ground arith

begin_payload-Position :
    (header : Bytes) (size n : ℕ) (failed : Bool) (maximum : ℕ) (frames : List Bytes)
    (r : Result FrameError (Unit {0}))
    → length header ≡ 4
    → validate_frame_length size maximum ≡ r
    → Stays (begin_payload (in_header header n failed maximum) frames size r)
unfolding begin_payload
begin_payload-Position header size n failed maximum frames (err x) w v fs e = absurd (ground arith)
begin_payload-Position header size n failed maximum frames (ok u) w v fs e =
    let (pos, fits) = validate_frame_length_ok size maximum u v in
    payload_at header size [] failed maximum pos fits w

settle_header-Position :
    (header : Bytes) (n : ℕ) (failed : Bool) (maximum : ℕ) (frames : List Bytes)
    → n ≤ 4
    → length header ≡ 4
    → Stays (settle_header (in_header header n failed maximum) frames)
settle_header-Position header n failed maximum frames h w = elim (Bool-cases (n == 4)) [
  | inl t ↦
      let size = from_be_bytes header in
      subst Stays (sym (settle_header_full header n failed maximum frames t)) (
        begin_payload-Position header size n failed maximum frames
          (validate_frame_length size maximum) w refl)
  | inr f ↦
      subst Stays (sym (settle_header_part header n failed maximum frames f))
        (λ fs e. header_at header n failed maximum (ground arith) w)
]

settle_payload-Position :
    (header : Bytes) (expected : ℕ) (payload : Bytes) (failed : Bool) (maximum : ℕ)
    (frames : List Bytes)
    → length payload ≤ expected
    → expected ≤ maximum
    → length header ≡ 4
    → Stays (settle_payload (in_payload header expected payload failed maximum) frames expected)
settle_payload-Position header expected payload failed maximum frames h k w =
    elim (Bool-cases (length payload == expected)) [
      | inl t ↦
          subst Stays (sym (settle_payload_full header expected payload failed maximum frames t))
            (λ fs e. header_at header 0 failed maximum (omega arith) w)
      | inr f ↦
          subst Stays (sym (settle_payload_part header expected payload failed maximum frames f))
            (λ fs e. payload_at header expected payload failed maximum (ground arith) k w)
    ]

pub turn-Position :
    (d : FrameDecoder) (frames : List Bytes) (chunk : Bytes)
    → Position d
    → Stays (turn d frames (take (copied d chunk) chunk))
unfolding turn copied
turn-Position d frames chunk (header_at header n failed maximum h k) =
    settle_header-Position (overwrite header n (take (min (4 - n) (length chunk)) chunk))
      (n + length (take (min (4 - n) (length chunk)) chunk)) failed maximum frames
      (omega (arith, length-take (min (4 - n) (length chunk)) chunk))
      (length-overwrite header n (take (min (4 - n) (length chunk)) chunk) ∙ k)
turn-Position d frames chunk (payload_at header expected payload failed maximum h k w) =
    settle_payload-Position header expected
      (payload ++ take (min (expected - length payload) (length chunk)) chunk) failed maximum frames
      (omega (
        arith,
        length-take (min (expected - length payload) (length chunk)) chunk,
        length-append payload (take (min (expected - length payload) (length chunk)) chunk),
      ))
      k w

accept-turn :
    (d : FrameDecoder) (frames : List Bytes) (chunk : Bytes)
    → Position d
    → accept d frames chunk
      ≡ and_then
          (turn d frames (take (copied d chunk) chunk))
          λ d' frames'. accept d' frames' (drop (copied d chunk) chunk)
accept-turn d frames chunk p =
    let k = copied d chunk in
    ap (accept d frames) (sym (take-append-drop k chunk))
    ∙ accept-append d frames (take k chunk) (drop k chunk)
    ∙ ap (λ c. and_then c λ d' frames'. accept d' frames' (drop k chunk))
        (sym (turn-accept d frames chunk p))

-- With as much fuel as there are bytes the loop ends, as if it took them one by one.
push_loop-accept :
    (fuel : ℕ) (d : FrameDecoder) (frames : List Bytes) (chunk : Bytes)
    → Position d
    → length chunk ≤ fuel
    → push_loop fuel d frames chunk ≡ some (accept d frames chunk)
unfolding push_loop
push_loop-accept zero d frames [] p h = unfold accept in refl
push_loop-accept (suc fuel) d frames [] p h = unfold accept in refl
push_loop-accept zero d frames (b ∷ bs) p h = absurd (omega arith)
push_loop-accept (suc fuel) d frames (b ∷ bs) p h =
    let k = copied d (b ∷ bs) in
    let r = turn d frames (take k (b ∷ bs)) in
    let whole = accept-turn d frames (b ∷ bs) p in
    elim (Result-cases r.1) [
      | inl (frames', e) ↦
          let fits : length (drop k (b ∷ bs)) ≤ fuel =
            omega (arith, length-drop k (b ∷ bs), copied-pos d b bs p) in
          let kept = turn-Position d frames (b ∷ bs) p frames' e in
          rw (e, push_loop)
            (push_loop-accept fuel r.0 frames' (drop k (b ∷ bs)) kept fits
              ∙ ap some (sym (whole ∙ and_then_at_ok r _ frames' e)))
      | inr (x, e) ↦ rw (push_loop, e) (ap some (sym (whole ∙ and_then_at_err r _ x e)))
    ]

-- What stays true of a decoder: it is between two passes of the loop, unless it has failed.
abbrev pub IsReady : FrameDecoder → Type 0
IsReady d = (d.failed ≡ false) × Position d

-- Pushing a chunk returns what taking its bytes one by one gives.
pub push_total :
    (d : FrameDecoder) (chunk : Bytes) → IsReady d → push d chunk ≡ some (mark (accept d [] chunk))
unfolding push push_valid
push_total d chunk r =
    ground (arith, push_loop-accept (length chunk) d [] chunk r.1, le_refl (length chunk))
