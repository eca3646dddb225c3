-- ===== src/Frame/RoundTrip.antt =====
-- What `encode_frame_with_limit` writes, `push` reads back, however the stream is cut.
use mathlib.Core.Path.{ap₂}
use roammand.Base.{
  ℕ, ◌≤◌, ◌<◌, ◌≡◌, refl, sym, ap, ◌∙◌, false, Option, none, some, List, [], ◌∷◌, ◌++◌, append-nil,
  append_assoc, Bytes, length, Result, ok, err, Call, and_then, arith, ==_refl, ◌>>=◌, Result-cases,
  inl, inr,
}
use roammand.Frame.{
  FrameError, FrameDecoder, overwrite, to_be_bytes, from_be_bytes, encode_frame_with_limit,
  settle_header, push, finish, new, u32_max,
}
use roammand.Frame.Bytewise.{
  accept, accept-append, in_header, in_payload, accept-payload, accept-header,
}
use roammand.Frame.Total.{header_at, IsReady, settle_payload_full}
use roammand.Frame.Accepted.{push_ok, in_front, accept-in_front, accept-IsReady}

from-to_be_bytes : (n : ℕ) → n ≤ u32_max → from_be_bytes (to_be_bytes n) ≡ n
unfolding from_be_bytes to_be_bytes
from-to_be_bytes n h = omega arith

-- A payload that a limit allows.
abbrev pub Fits : ℕ → Bytes → Type 0
Fits maximum payload = (0 < length payload) × (length payload ≤ maximum)

overwrite-whole :
    (header : Bytes) (n : ℕ)
    → length header ≡ 4
    → overwrite header 0 (to_be_bytes n) ≡ to_be_bytes n
unfolding overwrite to_be_bytes
overwrite-whole (a ∷ b ∷ c ∷ d ∷ []) n h = refl
overwrite-whole [] n h = absurd (omega arith)
overwrite-whole (a ∷ []) n h = absurd (omega arith)
overwrite-whole (a ∷ b ∷ []) n h = absurd (omega arith)
overwrite-whole (a ∷ b ∷ c ∷ []) n h = absurd (omega arith)
overwrite-whole (a ∷ b ∷ c ∷ d ∷ e ∷ r) n h = absurd (omega arith)

length-to_be_bytes : (n : ℕ) → length (to_be_bytes n) ≡ 4
unfolding to_be_bytes
length-to_be_bytes n = omega arith

-- The decoder after whole frames keeps the last prefix in its header buffer.
abbrev last_header : Bytes → List Bytes → Bytes
last_header header [] = header
last_header header (p ∷ ps) = last_header (to_be_bytes (length p)) ps

abbrev AllFit : ℕ → List Bytes → Type 0
AllFit maximum [] = Unit {0}
AllFit maximum (p ∷ ps) = Fits maximum p × AllFit maximum ps

abbrev stream : List Bytes → Bytes
stream [] = []
stream (p ∷ ps) = (to_be_bytes (length p) ++ p) ++ stream ps

module _ (maximum : ℕ) (small : maximum ≤ u32_max) where
  header_parsed :
      (bytes : Bytes) (size : ℕ) (frames : List Bytes)
      → from_be_bytes bytes ≡ size
      → 0 < size
      → size ≤ maximum
      → settle_header (in_header bytes 4 false maximum) frames
        ≡ (in_payload bytes size [] false maximum, ok frames)
  unfolding settle_header
  header_parsed bytes size frames e h k = ground arith

  header_read :
      (header payload : Bytes) (frames : List Bytes)
      → length header ≡ 4
      → Fits maximum payload
      → accept (in_header header 0 false maximum) frames (to_be_bytes (length payload))
        ≡ (in_payload (to_be_bytes (length payload)) (length payload) [] false maximum, ok frames)
  header_read header payload frames w f =
      let size = length payload in
      let bytes = to_be_bytes size in
      accept-header false maximum frames header 0 bytes (omega arith)
        (unfold to_be_bytes in omega arith)
      ∙ ap₂ (λ hs k. settle_header (in_header hs k false maximum) frames)
          (overwrite-whole header size w) (omega (arith, length-to_be_bytes size))
      ∙ header_parsed bytes size frames (from-to_be_bytes size (omega arith)) f.0 f.1

  payload_read :
      (header payload : Bytes) (frames : List Bytes)
      → Fits maximum payload
      → accept (in_payload header (length payload) [] false maximum) frames payload
        ≡ (in_header header 0 false maximum, ok (frames ++ payload ∷ []))
  payload_read header payload frames f =
      accept-payload header false maximum frames (length payload) [] payload f.0 (omega arith)
      ∙ settle_payload_full header (length payload) payload false maximum frames
          (==_refl (length payload))

  -- One frame, in the middle of a stream.
  accept-frame :
      (header payload rest : Bytes) (frames : List Bytes)
      → length header ≡ 4
      → Fits maximum payload
      → accept
          (in_header header 0 false maximum)
          frames
          ((to_be_bytes (length payload) ++ payload) ++ rest)
        ≡ accept
            (in_header (to_be_bytes (length payload)) 0 false maximum)
            (frames ++ payload ∷ [])
            rest
  accept-frame header payload rest frames w f =
      let bytes = to_be_bytes (length payload) in
      let d = in_header header 0 false maximum in
      ap (accept d frames) (append_assoc bytes payload rest)
      ∙ accept-append d frames bytes (payload ++ rest)
      ∙ ap (λ c. and_then c λ d' frames'. accept d' frames' (payload ++ rest))
          (header_read header payload frames w f)
      ∙ accept-append (in_payload bytes (length payload) [] false maximum) frames payload rest
      ∙ ap (λ c. and_then c λ d' frames'. accept d' frames' rest)
          (payload_read bytes payload frames f)

  accept-stream :
      (header : Bytes) (frames payloads : List Bytes)
      → length header ≡ 4
      → AllFit maximum payloads
      → accept (in_header header 0 false maximum) frames (stream payloads)
        ≡ (in_header (last_header header payloads) 0 false maximum, ok (frames ++ payloads))
  accept-stream header frames [] w f = unfold accept in ground (arith, append-nil frames)
  accept-stream header frames (p ∷ ps) w f =
      accept-frame header p (stream ps) frames w f.0
      ∙ accept-stream (to_be_bytes (length p)) (frames ++ p ∷ []) ps (length-to_be_bytes (length p))
          f.1
      ∙ ap (λ fs. (in_header (last_header (to_be_bytes (length p)) ps) 0 false maximum, ok fs))
          (append_assoc frames (p ∷ []) ps)

-- The encodings of payloads, one after the other.
abbrev pub encode_all : ℕ → List Bytes → Result FrameError Bytes
encode_all maximum [] = ok []
encode_all maximum (p ∷ ps) = do
  encoded ← encode_frame_with_limit p maximum
  rest ← encode_all maximum ps
  ok (encoded ++ rest)

-- Chunks pushed in turn, as long as none is refused; the frames of all of them.
abbrev pub push_each :
    FrameDecoder → List Bytes → List Bytes → Option (Call FrameDecoder FrameError (List Bytes))
push_each d frames [] = some (d, ok frames)
push_each d frames (c ∷ cs) = elim (push d c) [
  | none ↦ none
  | some (d', err e) ↦ some (d', err e)
  | some (d', ok fs) ↦ push_each d' (frames ++ fs) cs
]

abbrev pub concat : List Bytes → Bytes
concat [] = []
concat (c ∷ cs) = c ++ concat cs

refused :
    {d d' : FrameDecoder} {x : FrameError} {fs : List Bytes}
    → ◌≡◌ {A = Call FrameDecoder FrameError (List Bytes)} (d, err x) (d', ok fs)
    → ⊥
refused h = cc

push_each-accept :
    (d d' : FrameDecoder) (frames all : List Bytes) (chunks : List Bytes)
    → IsReady d
    → accept d frames (concat chunks) ≡ (d', ok all)
    → push_each d frames chunks ≡ some (d', ok all)
push_each-accept d d' frames all [] r h = ap some (unfold accept in h)
push_each-accept d d' frames all (c ∷ cs) r h =
    let t = accept d [] c in
    let front : accept d frames c ≡ in_front frames t =
      ap (λ f. accept d f c) (sym (append-nil frames)) ∙ accept-in_front d frames [] c in
    let joined = sym (accept-append d frames c (concat cs)) ∙ h in
    elim (Result-cases t.1) [
      | inl (gs, g) ↦
          let reached = front ∙ ap (in_front frames) (λ i. (t.0, g i)) in
          let rest = sym (ap (λ x. and_then x λ u f. accept u f (concat cs)) reached) ∙ joined in
          rw (push_each, push_ok d gs c r g)
            (push_each-accept t.0 d' (frames ++ gs) all cs (accept-IsReady d [] gs c r g) rest)
      | inr (x, g) ↦
          let reached = front ∙ ap (in_front frames) (λ i. (t.0, g i)) in
          absurd
            (refused (sym (ap (λ x. and_then x λ u f. accept u f (concat cs)) reached) ∙ joined))
    ]

encode_frame_ok :
    (payload encoded : Bytes) (maximum : ℕ)
    → encode_frame_with_limit payload maximum ≡ ok encoded
    → Fits maximum payload
      × (maximum ≤ u32_max)
      × (encoded ≡ to_be_bytes (length payload) ++ payload)
unfolding encode_frame_with_limit
encode_frame_ok payload encoded maximum h = ground arith

encode_all_ok :
    (payloads : List Bytes) (encoded : Bytes) (maximum : ℕ)
    → encode_all maximum payloads ≡ ok encoded
    → AllFit maximum payloads × (encoded ≡ stream payloads)
encode_all_ok [] encoded maximum h = (tt, ground arith)
encode_all_ok (p ∷ ps) encoded maximum h = elim (Result-cases (encode_frame_with_limit p maximum)) [
  | inr (x, e) ↦ absurd (ground arith)
  | inl (first, e) ↦ elim (Result-cases (encode_all maximum ps)) [
    | inr (x, k) ↦ absurd (ground arith)
    | inl (rest, k) ↦
        let (fit, _, same) = encode_frame_ok p first maximum e in
        let (fits, joined) = encode_all_ok ps rest maximum k in ((fit, fits), ground arith)
  ]
]

-- Payloads encoded one by one under a limit within a u32, joined and cut into chunks in any way,
-- come back from a new decoder of this limit, all of them and in order, and the stream then ends
-- cleanly.
pub push_each-encode_all :
    (maximum : ℕ) (payloads chunks : List Bytes)
    → maximum ≤ u32_max
    → encode_all maximum payloads ≡ ok (concat chunks)
    → (d : FrameDecoder) × (push_each (new maximum) [] chunks ≡ some (d, ok payloads))
      × (finish d ≡ ok tt)
unfolding new finish
push_each-encode_all maximum payloads chunks small h =
    let (fit, same) = encode_all_ok payloads (concat chunks) maximum h in
    let start : Bytes = 0 ∷ 0 ∷ 0 ∷ 0 ∷ [] in
    let last : FrameDecoder = in_header (last_header start payloads) 0 false maximum in
    let ready : IsReady (new maximum) =
      (refl, header_at start 0 false maximum (omega arith) refl) in
    (
      last,
      push_each-accept (new maximum) last [] payloads chunks ready (
          ap (accept (new maximum) []) same
          ∙ accept-stream maximum small start [] payloads refl fit),
      refl,
    )
