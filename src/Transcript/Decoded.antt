-- ===== src/Transcript/Decoded.antt =====
-- What `encode` writes, `decode` reads back.
use roammand.Base.{
  ℕ, ◌+◌, ◌≤◌, ◌<◌, ◌≡◌, refl, ap, sym, ◌∙◌, Option, none, some, List, [], ◌∷◌, ◌++◌, append-nil,
  append_assoc, Bytes, bytes_eq_refl, length, length-append, ok, arith, Result-cases, inl, inr,
}
use roammand.Frame.{to_be_bytes}
use roammand.Transcript.{
  TranscriptPurpose, pairing_sas, session_offer, session_answer, session_reconnect, TranscriptField,
  CanonicalTranscript, max_transcript_length, max_fields, check_order, check_field, check_each,
  required_tags, to_be_bytes16, encode_fields, fold_length, read_field, read_fields, read_header,
  header_length, encode, decode, validate_fields, purpose_number, purpose_of, magic, version,
}
use roammand.Transcript.Fields.{
  fields_bytes, Fits, check_field_ok, read_exact-append, read_u16-append, read_u32-append,
}

-- All of the checked fields.
abbrev pub AllFit : List TranscriptField → Type 0
AllFit [] = Unit {0}
AllFit (field ∷ fields) = Fits field × AllFit fields

pub encode_fields-bytes :
    (fields : List TranscriptField)
    → AllFit fields
    → encode_fields fields ≡ ok (fields_bytes fields)
unfolding encode_fields
encode_fields-bytes [] f = refl
encode_fields-bytes (field ∷ fields) (f, fs) =
    ground (arith, f.small_value, encode_fields-bytes fields fs)

pub check_each_step :
    (required : List ℕ) (previous : Option ℕ) (field : TranscriptField)
    (fields : List TranscriptField)
    → check_each required previous (field ∷ fields) ≡ ok tt
    → (check_field required previous field ≡ ok tt)
      × (check_each required (some field.tag) fields ≡ ok tt)
unfolding check_each
check_each_step required previous field fields h = ground arith

pub check_each-AllFit :
    (purpose : TranscriptPurpose) (previous : Option ℕ) (fields : List TranscriptField)
    → check_each (required_tags purpose) previous fields ≡ ok tt
    → AllFit fields
unfolding check_each
check_each-AllFit purpose previous [] h = tt
check_each-AllFit purpose previous (field ∷ fields) h =
    let (one, others) = check_each_step (required_tags purpose) previous field fields h in
    (
      (check_field_ok purpose previous field one).1,
      check_each-AllFit purpose (some field.tag) fields others,
    )

read_field-bytes :
    (previous : Option ℕ) (field : TranscriptField) (rest : Bytes)
    → check_order previous field.tag ≡ ok tt
    → Fits field
    → read_field previous
        (to_be_bytes16 field.tag ++ (to_be_bytes (length field.value) ++ (field.value ++ rest)))
      ≡ ok (field, rest)
unfolding read_field
read_field-bytes previous field rest o f =
    let body = field.value ++ rest in
    ground (
      arith,
      read_u16-append field.tag (to_be_bytes (length field.value) ++ body) f.small_tag,
      read_u32-append (length field.value) body (omega (arith, f.small_value)),
      read_exact-append field.value rest,
      f.small_value,
    )

pub append_bytes :
    (field : TranscriptField) (more rest : Bytes)
    → (to_be_bytes16 field.tag ++ (to_be_bytes (length field.value) ++ (field.value ++ more)))
        ++ rest
      ≡ to_be_bytes16 field.tag
        ++ (to_be_bytes (length field.value) ++ (field.value ++ (more ++ rest)))
unfolding to_be_bytes to_be_bytes16
append_bytes field more rest = ground (arith, append_assoc field.value more rest)

pub read_fields-bytes :
    (purpose : TranscriptPurpose) (previous : Option ℕ) (fields : List TranscriptField)
    (rest : Bytes)
    → check_each (required_tags purpose) previous fields ≡ ok tt
    → read_fields (length fields) previous (fields_bytes fields ++ rest) ≡ ok (fields, rest)
unfolding read_fields check_each
read_fields-bytes purpose previous [] rest h = refl
read_fields-bytes purpose previous (field ∷ fields) rest h =
    let (one, others) = check_each_step (required_tags purpose) previous field fields h in
    let (ordered, fits) = check_field_ok purpose previous field one in
    let more = fields_bytes fields ++ rest in
    let joined = append_bytes field (fields_bytes fields) rest in
    rw
      (
        joined,
        read_field-bytes previous field more ordered fits,
        read_fields-bytes purpose (some field.tag) fields rest others,
      )
      refl

pub fold_length-bytes :
    (size : ℕ) (fields : List TranscriptField)
    → fold_length size fields ≡ size + length (fields_bytes fields)
unfolding fold_length to_be_bytes to_be_bytes16
fold_length-bytes size [] = omega arith
fold_length-bytes size (field ∷ fields) = omega (
  arith,
  fold_length-bytes (size + 6 + length field.value) fields,
  length-append field.value (fields_bytes fields),
)

-- The bytes before the fields.
abbrev pub header_bytes : TranscriptPurpose → ℕ → Bytes → Bytes
header_bytes purpose n rest =
    magic
    ++ (to_be_bytes16 version
        ++ (to_be_bytes16 (purpose_number purpose) ++ (to_be_bytes16 n ++ rest)))

purpose-number_small : (purpose : TranscriptPurpose) → purpose_number purpose < 65536
unfolding purpose_number
purpose-number_small pairing_sas = omega arith
purpose-number_small session_offer = omega arith
purpose-number_small session_answer = omega arith
purpose-number_small session_reconnect = omega arith

purpose_of-number : (purpose : TranscriptPurpose) → purpose_of (purpose_number purpose) ≡ ok purpose
unfolding purpose_number purpose_of
purpose_of-number pairing_sas = refl
purpose_of-number session_offer = refl
purpose_of-number session_answer = refl
purpose_of-number session_reconnect = refl

read_header-bytes :
    (purpose : TranscriptPurpose) (n : ℕ) (rest : Bytes)
    → n ≤ max_fields
    → read_header (header_bytes purpose n rest) ≡ ok ((purpose, n), rest)
unfolding read_header
read_header-bytes purpose n rest h =
    let counted = to_be_bytes16 n ++ rest in
    let named = to_be_bytes16 (purpose_number purpose) ++ counted in
    ground (
      arith,
      read_exact-append magic (to_be_bytes16 version ++ named),
      bytes_eq_refl magic,
      read_u16-append version named (omega arith),
      read_u16-append (purpose_number purpose) counted (purpose-number_small purpose),
      purpose_of-number purpose,
      read_u16-append n rest (omega arith),
    )

-- What `encode` checked, and what it wrote.
encode_ok :
    (t : CanonicalTranscript) (bytes : Bytes)
    → encode t ≡ ok bytes
    → (validate_fields t.purpose t.fields ≡ ok tt)
      × (length t.fields ≤ max_fields)
      × (fold_length header_length t.fields ≤ max_transcript_length)
      × (check_each (required_tags t.purpose) none t.fields ≡ ok tt)
      × ((rest : Bytes) × (encode_fields t.fields ≡ ok rest)
          × (bytes ≡ header_bytes t.purpose (length t.fields) rest))
unfolding encode validate_fields
encode_ok t bytes h = elim (Result-cases (encode_fields t.fields)) [
  | inr (x, e) ↦ absurd (ground arith)
  | inl (rest, e) ↦
      (ground arith, ground arith, ground arith, ground arith, (rest, e, ground arith))
]

pub length-header_bytes :
    (purpose : TranscriptPurpose) (n : ℕ) (rest : Bytes)
    → length (header_bytes purpose n rest) ≡ header_length + length rest
unfolding to_be_bytes16
length-header_bytes purpose n rest = omega arith

decode_written :
    (t : CanonicalTranscript)
    → validate_fields t.purpose t.fields ≡ ok tt
    → length t.fields ≤ max_fields
    → fold_length header_length t.fields ≤ max_transcript_length
    → check_each (required_tags t.purpose) none t.fields ≡ ok tt
    → decode (header_bytes t.purpose (length t.fields) (fields_bytes t.fields)) ≡ ok t
unfolding decode
decode_written t valid few short each =
    let body = fields_bytes t.fields in
    let read : read_fields (length t.fields) none body ≡ ok (t.fields, []) =
      ap (read_fields (length t.fields) none) (sym (append-nil body))
      ∙ read_fields-bytes t.purpose none t.fields [] each in
    ground (
      arith,
      short,
      fold_length-bytes header_length t.fields,
      length-header_bytes t.purpose (length t.fields) body,
      read_header-bytes t.purpose (length t.fields) body few,
      read,
      valid,
    )

-- A transcript that is encoded is decoded again, with its purpose and all its fields in order.
pub decode-encode :
    (t : CanonicalTranscript) (bytes : Bytes) → encode t ≡ ok bytes → decode bytes ≡ ok t
decode-encode t bytes h =
    let (valid, few, short, each, (rest, written, e)) = encode_ok t bytes h in
    let plain = encode_fields-bytes t.fields (check_each-AllFit t.purpose none t.fields each) in
    let same : rest ≡ fields_bytes t.fields = ground (arith, plain, written) in
    ap decode (e ∙ ap (header_bytes t.purpose (length t.fields)) same)
    ∙ decode_written t valid few short each
