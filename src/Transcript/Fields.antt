-- ===== src/Transcript/Fields.antt =====
-- What the checked fields are, and how each is written and read.
use roammand.Base.{
  ℕ, ◌≤◌, ◌<◌, ◌≡◌, refl, ap, true, Option, List, [], ◌∷◌, ◌++◌, Bytes, length, length-append, take,
  drop, any, ◌==◌, ok, arith,
}
use roammand.Frame.{to_be_bytes, from_be_bytes}
use roammand.Transcript.{
  TranscriptPurpose, pairing_sas, session_offer, session_answer, session_reconnect, TranscriptField,
  max_field_length, check_order, check_field, required_tags, to_be_bytes16, read_exact, read_u16,
  read_u32, from_be_bytes16,
}

-- The bytes of fields, without the checks.
abbrev pub fields_bytes : List TranscriptField → Bytes
fields_bytes [] = []
fields_bytes (field ∷ fields) =
    to_be_bytes16 field.tag
    ++ (to_be_bytes (length field.value) ++ (field.value ++ fields_bytes fields))

-- A field whose tag and length are written without loss.
pub record Fits (field : TranscriptField) : Type 0 where
  pub small_tag : field.tag < 65536
  pub small_value : length field.value ≤ max_field_length

required_small :
    (purpose : TranscriptPurpose) (tag : ℕ)
    → any (λ t. t == tag) (required_tags purpose) ≡ true
    → tag < 65536
unfolding required_tags
required_small pairing_sas tag h = ground arith
required_small session_offer tag h = ground arith
required_small session_answer tag h = ground arith
required_small session_reconnect tag h = ground arith

pub check_field_ok :
    (purpose : TranscriptPurpose) (previous : Option ℕ) (field : TranscriptField)
    → check_field (required_tags purpose) previous field ≡ ok tt
    → (check_order previous field.tag ≡ ok tt) × Fits field
unfolding check_field
check_field_ok purpose previous field h = ground (arith, required_small purpose field.tag)

pub take-append : (xs ys : Bytes) → take (length xs) (xs ++ ys) ≡ xs
take-append [] ys = refl
take-append (x ∷ xs) ys = ap (λ t. x ∷ t) (take-append xs ys)

pub drop-append : (xs ys : Bytes) → drop (length xs) (xs ++ ys) ≡ ys
drop-append [] ys = refl
drop-append (x ∷ xs) ys = drop-append xs ys

pub read_exact-append :
    (value rest : Bytes) → read_exact (length value) (value ++ rest) ≡ ok (value, rest)
unfolding read_exact
read_exact-append value rest =
    ground (arith, length-append value rest, take-append value rest, drop-append value rest)

pub read_u16-append :
    (n : ℕ) (rest : Bytes) → n < 65536 → read_u16 (to_be_bytes16 n ++ rest) ≡ ok (n, rest)
unfolding read_u16 read_exact from_be_bytes16 to_be_bytes16
read_u16-append n rest h = ground arith

pub read_u32-append :
    (n : ℕ) (rest : Bytes) → n < 4294967296 → read_u32 (to_be_bytes n ++ rest) ≡ ok (n, rest)
unfolding read_u32 read_exact from_be_bytes to_be_bytes
read_u32-append n rest h = ground arith
