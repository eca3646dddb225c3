-- ===== src/Transcript.antt =====
-- gen/rust/src/canonical_transcript.rs: the bytes that are signed, and their one encoding.
pub mod Fields
pub mod Decoded
pub mod Canonical
use roammand.Base.{
  ℕ, zero, suc, ◌+◌, ◌*◌, ◌/◌, ◌%◌, Bool, true, false, not, Option, none, some, List, [], ◌∷◌, ◌++◌,
  Bytes, bytes_eq, length, take, drop, any, is_empty, ltb, leb, ◌==◌, Result, ok, err, ◌>>=◌, ◌>>◌,
  if◌then◌else◌,
}
use roammand.Frame.{to_be_bytes, from_be_bytes}

-- b"PRDT"
abbrev pub magic : Bytes
magic = b'P' ∷ b'R' ∷ b'D' ∷ b'T' ∷ []

abbrev pub version : ℕ
version = 1

abbrev pub header_length : ℕ
header_length = 10

abbrev pub field_header_length : ℕ
field_header_length = 6

abbrev pub max_fields : ℕ
max_fields = 16

abbrev pub max_field_length : ℕ
max_field_length = 1024

abbrev pub max_transcript_length : ℕ
max_transcript_length = 4096

pub data TranscriptPurpose : Type 0 where
  pairing_sas session_offer session_answer session_reconnect : TranscriptPurpose

pub record TranscriptField : Type 0 where
  pub tag : ℕ
  pub value : Bytes

pub record CanonicalTranscript : Type 0 where
  pub purpose : TranscriptPurpose
  pub fields : List TranscriptField

pub data TranscriptError : Type 0 where
  invalid_magic unknown_version unknown_purpose too_many_fields duplicate_field : TranscriptError
  field_order field_too_long transcript_too_long unknown_field missing_field : TranscriptError
  invalid_field_length truncated trailing_bytes : TranscriptError

-- `purpose as u16`, and `TryFrom<u16>`
unfoldable pub purpose_number : TranscriptPurpose → ℕ
purpose_number pairing_sas = 1
purpose_number session_offer = 2
purpose_number session_answer = 3
purpose_number session_reconnect = 4

unfoldable pub purpose_of : ℕ → Result TranscriptError TranscriptPurpose
purpose_of n =
    if n == 1
    then ok pairing_sas
    else if n == 2
    then ok session_offer
    else if n == 3
    then ok session_answer
    else if n == 4
    then ok session_reconnect
    else err unknown_purpose

unfoldable pub required_tags : TranscriptPurpose → List ℕ
required_tags pairing_sas = 1 ∷ 2 ∷ 3 ∷ 4 ∷ 5 ∷ 6 ∷ 7 ∷ []
required_tags session_offer = 1 ∷ 2 ∷ 8 ∷ 9 ∷ 10 ∷ 11 ∷ 12 ∷ 13 ∷ 14 ∷ []
required_tags session_answer = 1 ∷ 2 ∷ 8 ∷ 9 ∷ 10 ∷ 11 ∷ 12 ∷ 13 ∷ 14 ∷ 15 ∷ 16 ∷ []
required_tags session_reconnect = 1 ∷ 2 ∷ 8 ∷ 9 ∷ 10 ∷ 11 ∷ 12 ∷ 13 ∷ 14 ∷ 15 ∷ 16 ∷ 17 ∷ []

unfoldable pub field_length : ℕ → ℕ
field_length tag =
    if tag == 3
    then 16
    else if tag == 8
    then 16
    else if tag == 10
    then 8
    else if tag == 11
    then 8
    else if tag == 12
    then 4
    else if tag == 17
    then 4
    else 32

-- The tag against the one before it.
unfoldable pub check_order : Option ℕ → ℕ → Result TranscriptError (Unit {0})
check_order none tag = ok tt
check_order (some previous) tag =
    if previous == tag
    then err duplicate_field
    else if ltb tag previous
    then err field_order
    else ok tt

unfoldable pub check_field : List ℕ → Option ℕ → TranscriptField → Result TranscriptError (Unit {0})
check_field required previous field = do
  check_order previous field.tag
  if ltb max_field_length (length field.value) then err field_too_long else ok tt
  if not (any (λ t. t == field.tag) required) then err unknown_field else ok tt
  if not (length field.value == field_length field.tag) then err invalid_field_length else ok tt

unfoldable pub check_each :
    List ℕ → Option ℕ → List TranscriptField → Result TranscriptError (Unit {0})
check_each required previous [] = ok tt
check_each required previous (field ∷ fields) = do
  check_field required previous field
  check_each required (some field.tag) fields

-- `zip` and `any`: a field whose tag is not the one required in its place
unfoldable pub any_differs : List TranscriptField → List ℕ → Bool
any_differs (field ∷ fields) (tag ∷ tags) =
    let rest = any_differs fields tags in if not (field.tag == tag) then true else rest
any_differs _ _ = false

unfoldable pub validate_fields :
    TranscriptPurpose → List TranscriptField → Result TranscriptError (Unit {0})
validate_fields purpose fields = do
  if ltb max_fields (length fields) then err too_many_fields else ok tt
  check_each (required_tags purpose) none fields
  if ltb (length fields) (length (required_tags purpose)) then err missing_field else ok tt
  if ltb (length (required_tags purpose)) (length fields) then err unknown_field else ok tt
  if any_differs fields (required_tags purpose) then err missing_field else ok tt

-- u16::to_be_bytes
unfoldable pub to_be_bytes16 : ℕ → Bytes
to_be_bytes16 n = (n / 256 % 256) ∷ (n % 256) ∷ []

unfoldable pub fold_length : ℕ → List TranscriptField → ℕ
fold_length size [] = size
fold_length size (field ∷ fields) =
    fold_length (size + field_header_length + length field.value) fields

unfoldable pub encode_fields : List TranscriptField → Result TranscriptError Bytes
encode_fields [] = ok []
encode_fields (field ∷ fields) = do
  if ltb 0xffff_ffff (length field.value) then err field_too_long else ok tt
  rest ← encode_fields fields
  ok (to_be_bytes16 field.tag ++ (to_be_bytes (length field.value) ++ (field.value ++ rest)))

unfoldable pub encode : CanonicalTranscript → Result TranscriptError Bytes
encode t = do
  validate_fields t.purpose t.fields
  if ltb max_transcript_length (fold_length header_length t.fields)
      then err transcript_too_long
      else ok tt
  if ltb 0xffff (length t.fields) then err too_many_fields else ok tt
  rest ← encode_fields t.fields
  ok (
      magic
      ++ (to_be_bytes16 version
          ++ (to_be_bytes16 (purpose_number t.purpose)
              ++ (to_be_bytes16 (length t.fields) ++ rest))))

-- A `Reader` is the bytes that it has not read yet. Its offset never overflows a usize: it stays
-- within the bytes, and a length that is read is below 2 ^ 32.
abbrev pub Read : Type 0 → Type 0
Read A = Result TranscriptError (A × Bytes)

unfoldable pub read_exact : ℕ → Bytes → Read Bytes
read_exact size bytes =
    if leb size (length bytes) then ok (take size bytes, drop size bytes) else err truncated

-- u16::from_be_bytes on [u8; 2]
unfoldable pub from_be_bytes16 : Bytes → ℕ
from_be_bytes16 (a ∷ b ∷ []) = a * 256 + b
from_be_bytes16 _ = 0

unfoldable pub read_u16 : Bytes → Read ℕ
read_u16 bytes = do r ← read_exact 2 bytes; ok (from_be_bytes16 r.0, r.1)

unfoldable pub read_u32 : Bytes → Read ℕ
read_u32 bytes = do r ← read_exact 4 bytes; ok (from_be_bytes r.0, r.1)

unfoldable pub read_field : Option ℕ → Bytes → Read TranscriptField
read_field previous bytes = do
  tag ← read_u16 bytes
  check_order previous tag.0
  size ← read_u32 tag.1
  if ltb max_field_length size.0 then err field_too_long else ok tt
  value ← read_exact size.0 size.1
  ok (record { tag = tag.0; value = value.0 }, value.1)

unfoldable pub read_fields : ℕ → Option ℕ → Bytes → Read (List TranscriptField)
read_fields zero previous bytes = ok ([], bytes)
read_fields (suc n) previous bytes = do
  field ← read_field previous bytes
  rest ← read_fields n (some field.0.tag) field.1
  ok (field.0 ∷ rest.0, rest.1)

-- The header: the purpose and the number of fields.
unfoldable pub read_header : Bytes → Read (TranscriptPurpose × ℕ)
read_header bytes = do
  found ← read_exact 4 bytes
  if not (bytes_eq found.0 magic) then err invalid_magic else ok tt
  number ← read_u16 found.1
  if not (number.0 == version) then err unknown_version else ok tt
  read_purpose ← read_u16 number.1
  purpose ← purpose_of read_purpose.0
  field_count ← read_u16 read_purpose.1
  if ltb max_fields field_count.0 then err too_many_fields else ok tt
  ok ((purpose, field_count.0), field_count.1)

unfoldable pub decode : Bytes → Result TranscriptError CanonicalTranscript
decode bytes = do
  if ltb max_transcript_length (length bytes) then err transcript_too_long else ok tt
  header ← read_header bytes
  fields ← read_fields header.0.1 none header.1
  if not (is_empty fields.1) then err trailing_bytes else ok tt
  validate_fields header.0.0 fields.0
  ok (record { purpose = header.0.0; fields = fields.0 })
