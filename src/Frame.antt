-- ===== src/Frame.antt =====
-- crates/ipc/src/framing.rs: length-prefixed frames over a byte stream.
pub mod Bytewise
pub mod Total
pub mod Accepted
pub mod Reading
pub mod RoundTrip
use roammand.Base.{
  ℕ, zero, suc, ◌+◌, ◌-◌, ◌*◌, ◌/◌, ◌%◌, ◌^◌, min, Bool, true, false, ◌||◌, not, Option, none, some,
  List, [], ◌∷◌, ◌++◌, Bytes, length, take, drop, is_some, ltb, leb, ◌==◌, Result, ok, err, Call,
  ◌>>=◌, ◌>>◌, if◌then◌else◌,
}

abbrev pub length_prefix_bytes : ℕ
length_prefix_bytes = 4

abbrev pub u32_max : ℕ
u32_max = 0xffff_ffff

pub data FrameError : Type 0 where
  invalid_limit zero_length frame_too_large truncated failed_before : FrameError

unfoldable pub validate_limit : ℕ → Result FrameError (Unit {0})
validate_limit maximum = if maximum == 0 || ltb u32_max maximum then err invalid_limit else ok tt

unfoldable pub validate_frame_length : ℕ → ℕ → Result FrameError (Unit {0})
validate_frame_length size maximum =
    if size == 0 then err zero_length else if ltb maximum size then err frame_too_large else ok tt

-- u32::to_be_bytes
unfoldable pub to_be_bytes : ℕ → Bytes
to_be_bytes n = (n / 2 ^ 24 % 256) ∷ (n / 2 ^ 16 % 256) ∷ (n / 2 ^ 8 % 256) ∷ (n % 256) ∷ []

-- u32::from_be_bytes on [u8; 4]
unfoldable pub from_be_bytes : Bytes → ℕ
from_be_bytes (a ∷ b ∷ c ∷ d ∷ []) = ((a * 256 + b) * 256 + c) * 256 + d
from_be_bytes _ = 0

unfoldable pub encode_frame_with_limit : Bytes → ℕ → Result FrameError Bytes
unfolding validate_limit validate_frame_length
encode_frame_with_limit payload maximum = do
  validate_limit maximum
  validate_frame_length (length payload) maximum
  if ltb u32_max (length payload) then err frame_too_large else ok tt
  ok (to_be_bytes (length payload) ++ payload)

pub record FrameDecoder : Type 0 where
  pub header : Bytes
  pub header_length : ℕ
  pub expected_payload_length : Option ℕ
  pub payload : Bytes
  pub failed : Bool
  pub maximum : ℕ

-- FrameDecoder::new, with the limit of `with_limit`
unfoldable pub new : ℕ → FrameDecoder
new maximum = record {
  header = 0 ∷ 0 ∷ 0 ∷ 0 ∷ [];
  header_length = 0;
  expected_payload_length = none;
  payload = [];
  failed = false;
  maximum = maximum;
}

unfoldable pub with_limit : ℕ → Result FrameError FrameDecoder
unfolding validate_limit new
with_limit maximum = do validate_limit maximum; ok (new maximum)

-- `header[i..i + xs.len()].copy_from_slice(xs)`
unfoldable pub overwrite : Bytes → ℕ → Bytes → Bytes
overwrite [] i xs = []
overwrite (h ∷ hs) zero [] = h ∷ hs
overwrite (h ∷ hs) zero (x ∷ xs) = x ∷ overwrite hs zero xs
overwrite (h ∷ hs) (suc i) xs = h ∷ overwrite hs i xs

-- The payload is complete, or waits for more.
unfoldable pub settle_payload :
    FrameDecoder → List Bytes → ℕ → Call FrameDecoder FrameError (List Bytes)
settle_payload d frames expected =
    if length d.payload == expected
    then (record d { payload = []; expected_payload_length = none }, ok (frames ++ d.payload ∷ []))
    else (d, ok frames)

unfoldable pub begin_payload :
    FrameDecoder
    → List Bytes
    → ℕ
    → Result FrameError (Unit {0})
    → Call FrameDecoder FrameError (List Bytes)
begin_payload d frames size (err e) = (d, err e)
begin_payload d frames size (ok _) =
    (record d { header_length = 0; expected_payload_length = some size }, ok frames)

-- The header is complete, or waits for more.
unfoldable pub settle_header : FrameDecoder → List Bytes → Call FrameDecoder FrameError (List Bytes)
unfolding begin_payload validate_frame_length
settle_header d frames =
    if d.header_length == length_prefix_bytes
    then begin_payload d frames (from_be_bytes d.header)
        (validate_frame_length (from_be_bytes d.header) d.maximum)
    else (d, ok frames)

-- How much of the chunk one turn of the loop copies, and the turn.
unfoldable pub copied : FrameDecoder → Bytes → ℕ
copied d chunk = elim d.expected_payload_length [
  | some expected ↦ min (expected - length d.payload) (length chunk)
  | none ↦ min (length_prefix_bytes - d.header_length) (length chunk)
]

unfoldable pub turn : FrameDecoder → List Bytes → Bytes → Call FrameDecoder FrameError (List Bytes)
unfolding settle_payload settle_header
turn d frames piece = elim d.expected_payload_length [
  | some expected ↦ settle_payload (record d { payload = d.payload ++ piece }) frames expected
  | none ↦
      settle_header
        (record d {
          header = overwrite d.header d.header_length piece;
          header_length = d.header_length + length piece;
        })
        frames
]

-- `while offset < chunk.len()`, over what is left of the chunk. `none`: the fuel ran out.
unfoldable pub push_loop :
    ℕ → FrameDecoder → List Bytes → Bytes → Option (Call FrameDecoder FrameError (List Bytes))
push_loop fuel d frames [] = some (d, ok frames)
push_loop zero d frames (b ∷ bs) = none
push_loop (suc fuel) d frames (b ∷ bs) =
    let r = turn d frames (take (copied d (b ∷ bs)) (b ∷ bs)) in
    elim r.1 [
      | err e ↦ some (r.0, err e)
      | ok frames' ↦ push_loop fuel r.0 frames' (drop (copied d (b ∷ bs)) (b ∷ bs))
    ]

unfoldable pub push_valid :
    FrameDecoder → Bytes → Option (Call FrameDecoder FrameError (List Bytes))
push_valid d chunk = push_loop (length chunk) d [] chunk

-- An error marks the decoder as failed.
unfoldable pub mark :
    Call FrameDecoder FrameError (List Bytes) → Call FrameDecoder FrameError (List Bytes)
mark (d, ok frames) = (d, ok frames)
mark (d, err e) = (record d { failed = true }, err e)

unfoldable pub push : FrameDecoder → Bytes → Option (Call FrameDecoder FrameError (List Bytes))
unfolding push_valid mark
push d chunk =
    if d.failed
    then some (d, err failed_before)
    else elim (push_valid d chunk) [ none ↦ none | some r ↦ some (mark r) ]

unfoldable pub finish : FrameDecoder → Result FrameError (Unit {0})
finish d =
    if d.failed
    then err failed_before
    else if not (d.header_length == 0) || is_some d.expected_payload_length
    then err truncated
    else ok tt

unfoldable pub buffered_bytes : FrameDecoder → ℕ
buffered_bytes d = d.header_length + length d.payload
