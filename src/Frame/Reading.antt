-- ===== src/Frame/Reading.antt =====
-- A specification of `push` of framing.rs that is not built from it: a reader of single bytes that
-- holds a number and a payload, and has no header buffer, no copies and no chunks.
use roammand.Base.{
  ℕ, zero, suc, ◌+◌, ◌*◌, ◌<◌, ◌≡◌, refl, sym, ap, ◌∙◌, inl, inr, Bool, true, some, none, List, [],
  ◌∷◌, ◌++◌, Bytes, length, take, ltb, ◌==◌, Result-cases, Result, ok, err, Call, arith,
  and_then_at_ok, and_then_at_err, if◌then◌else◌,
}
use roammand.Frame.{
  FrameError, zero_length, frame_too_large, FrameDecoder, turn, push, mark, settle_header,
  settle_payload, overwrite, from_be_bytes, begin_payload, validate_frame_length,
}
use roammand.Frame.Bytewise.{accept, in_header, in_payload}
use roammand.Frame.Total.{Position, header_at, payload_at, IsReady, push_total}
use roammand.Frame.Accepted.{byte-IsReady, accept-IsReady}

-- In a length of which some bytes are read, or in a payload of a known size.
pub data Reader : Type 0 where
  in_length : (value count : ℕ) → Reader
  in_body : (size : ℕ) (bytes : Bytes) → Reader

abbrev pub Reading : Type 0
Reading = Result FrameError (Reader × List Bytes)

-- The fourth byte of a length ends it: it is big-endian, not zero and within the limit. The last
-- byte of a payload ends the frame.
abbrev pub read_byte : ℕ → Reader → List Bytes → ℕ → Reading
read_byte maximum (in_length value count) frames b =
    let size = value * 256 + b in
    if ltb count 3
    then ok (in_length size (count + 1), frames)
    else if size == 0
    then err zero_length
    else if ltb maximum size
    then err frame_too_large
    else ok (in_body size [], frames)
read_byte maximum (in_body size bytes) frames b =
    let whole = bytes ++ b ∷ [] in
    if length whole == size
    then ok (in_length 0 0, frames ++ whole ∷ [])
    else ok (in_body size whole, frames)

abbrev pub read_on : ℕ → Reading → Bytes → Reading
read_on maximum (err e) bytes = err e
read_on maximum (ok (reader, frames)) [] = ok (reader, frames)
read_on maximum (ok (reader, frames)) (b ∷ bs) =
    read_on maximum (read_byte maximum reader frames b) bs

abbrev pub read_all : ℕ → Reader → Bytes → Reading
read_all maximum reader bytes = read_on maximum (ok (reader, [])) bytes

abbrev pub big_endian : ℕ → Bytes → ℕ
big_endian value [] = value
big_endian value (b ∷ bs) = big_endian (value * 256 + b) bs

-- What a decoder has read.
abbrev pub reader_of : FrameDecoder → Reader
reader_of d = elim d.expected_payload_length [
  | none ↦ in_length (big_endian 0 (take d.header_length d.header)) d.header_length
  | some size ↦ in_body size d.payload
]

abbrev pub reading_of : Call FrameDecoder FrameError (List Bytes) → Reading
reading_of (d, ok frames) = ok (reader_of d, frames)
reading_of (d, err e) = err e

header_byte :
    (header : Bytes) (n : ℕ) (failed : Bool) (maximum : ℕ) (frames : List Bytes) (b : ℕ)
    → n < 4
    → length header ≡ 4
    → reading_of (turn (in_header header n failed maximum) frames (b ∷ []))
      ≡ read_byte maximum (in_length (big_endian 0 (take n header)) n) frames b
unfolding turn settle_header overwrite from_be_bytes begin_payload validate_frame_length
header_byte [] n failed maximum frames b h w = absurd (omega arith)
header_byte (a ∷ []) n failed maximum frames b h w = absurd (omega arith)
header_byte (a ∷ c ∷ []) n failed maximum frames b h w = absurd (omega arith)
header_byte (a ∷ c ∷ e ∷ []) n failed maximum frames b h w = absurd (omega arith)
header_byte (a ∷ c ∷ e ∷ g ∷ x ∷ r) n failed maximum frames b h w = absurd (omega arith)
header_byte (a ∷ c ∷ e ∷ g ∷ []) zero failed maximum frames b h w = refl
header_byte (a ∷ c ∷ e ∷ g ∷ []) (suc zero) failed maximum frames b h w = refl
header_byte (a ∷ c ∷ e ∷ g ∷ []) (suc (suc zero)) failed maximum frames b h w = refl
header_byte (a ∷ c ∷ e ∷ g ∷ []) (suc (suc (suc zero))) failed maximum frames b h w = ground arith
header_byte (a ∷ c ∷ e ∷ g ∷ []) (suc (suc (suc (suc n)))) failed maximum frames b h w =
    absurd (omega arith)

payload_byte :
    (header : Bytes) (expected : ℕ) (payload : Bytes) (failed : Bool) (maximum : ℕ)
    (frames : List Bytes) (b : ℕ)
    → reading_of (turn (in_payload header expected payload failed maximum) frames (b ∷ []))
      ≡ read_byte maximum (in_body expected payload) frames b
unfolding turn settle_payload
payload_byte header expected payload failed maximum frames b = ground arith

-- On one byte the decoder and the reader do the same.
turn-read_byte :
    (d : FrameDecoder) (frames : List Bytes) (b : ℕ)
    → Position d
    → reading_of (turn d frames (b ∷ [])) ≡ read_byte d.maximum (reader_of d) frames b
turn-read_byte d frames b (header_at header n failed maximum h k) =
    header_byte header n failed maximum frames b h k
turn-read_byte d frames b (payload_at header expected payload failed maximum h k w) =
    payload_byte header expected payload failed maximum frames b

turn-maximum :
    (d : FrameDecoder) (frames : List Bytes) (piece : Bytes)
    → (turn d frames piece).0.maximum ≡ d.maximum
unfolding turn
turn-maximum d frames piece = ground arith

-- A call and its reading: the frames and the place in the stream, or the same error.
accept-read_on :
    (d : FrameDecoder) (frames : List Bytes) (chunk : Bytes)
    → IsReady d
    → reading_of (accept d frames chunk) ≡ read_on d.maximum (ok (reader_of d, frames)) chunk
unfolding accept
accept-read_on d frames [] r = refl
accept-read_on d frames (b ∷ bs) r =
    let t = turn d frames (b ∷ []) in
    let byte = turn-read_byte d frames b r.1 in
    let continue = λ (d' : FrameDecoder) (frames' : List Bytes). accept d' frames' bs in
    elim (Result-cases t.1) [
      | inl (fs, e) ↦
          let whole : t ≡ (t.0, ok fs) = λ i. (t.0, e i) in
          ap reading_of (and_then_at_ok t continue fs e)
          ∙ accept-read_on t.0 fs bs (byte-IsReady d t.0 frames fs b r whole)
          ∙ ap (λ m. read_on m (ok (reader_of t.0, fs)) bs) (turn-maximum d frames (b ∷ []))
          ∙ ap (λ c. read_on d.maximum c bs) (ap reading_of (sym whole) ∙ byte)
      | inr (x, e) ↦
          let whole : t ≡ (t.0, err x) = λ i. (t.0, e i) in
          ap reading_of (and_then_at_err t continue x e)
          ∙ ap (λ c. read_on d.maximum c bs) (ap reading_of (sym whole) ∙ byte)
    ]

reading_of-mark :
    (c : Call FrameDecoder FrameError (List Bytes)) → reading_of (mark c) ≡ reading_of c
unfolding mark
reading_of-mark (d, ok frames) = refl
reading_of-mark (d, err e) = refl

-- A decoder is ready again or has failed.
abbrev pub IsMarked : Call FrameDecoder FrameError (List Bytes) → Type 0
IsMarked (d, ok frames) = IsReady d
IsMarked (d, err e) = d.failed ≡ true

mark-IsMarked :
    (c : Call FrameDecoder FrameError (List Bytes))
    → ((frames : List Bytes) → c.1 ≡ ok frames → IsReady c.0)
    → IsMarked (mark c)
unfolding mark
mark-IsMarked (d, ok frames) h = h frames refl
mark-IsMarked (d, err e) h = refl

-- Pushing a chunk into a decoder that has not failed and is in an incomplete header, or in an
-- incomplete payload within the limit, returns; from what the decoder has read it gives the frames
-- and the place in the stream, or the error, of a reader of single bytes that takes four bytes as
-- a big-endian length, refuses zero and what is above the limit, and then takes that many bytes;
-- after frames the decoder is such again, after an error it has failed.
pub push-read_all :
    (d : FrameDecoder) (chunk : Bytes)
    → IsReady d
    → (r : Call FrameDecoder FrameError (List Bytes)) × (push d chunk ≡ some r)
      × (reading_of r ≡ read_all d.maximum (reader_of d) chunk)
      × IsMarked r
push-read_all d chunk r =
    let whole = accept d [] chunk in
    (
      mark whole,
      push_total d chunk r,
      reading_of-mark whole ∙ accept-read_on d [] chunk r,
      mark-IsMarked whole λ frames h. accept-IsReady d [] frames chunk r h,
    )
