-- ===== src/Tests/Transcripts.antt =====
-- A pairing transcript and its bytes.
use roammand.Frame.{to_be_bytes, from_be_bytes}
use roammand.Base.{
  ◌≡◌, refl, ℕ, zero, suc, Bool, true, ◌&&◌, ltb, [], ◌∷◌, ◌++◌, Bytes, ok, arith, bytes_eq,
}
use roammand.Transcript.{
  TranscriptField, CanonicalTranscript, pairing_sas, magic, encode, decode, validate_fields,
  check_each, check_field, check_order, required_tags, field_length, any_differs, fold_length,
  encode_fields, to_be_bytes16, purpose_number, read_header, read_exact, read_u16, from_be_bytes16,
  purpose_of, read_fields, read_field, read_u32,
}
use roammand.Transcript.Decoded.{decode-encode}
use roammand.Transcript.Canonical.{AreBytes, encode-decode}

abbrev pub repeat : ℕ → ℕ → Bytes
repeat b zero = []
repeat b (suc n) = b ∷ repeat b n

abbrev field_of : ℕ → ℕ → TranscriptField
field_of tag size = record { tag = tag; value = repeat tag size }

abbrev pairing : CanonicalTranscript
pairing = record {
  purpose = pairing_sas;
  fields =
      field_of 1 32
      ∷ field_of 2 32
      ∷ field_of 3 16
      ∷ field_of 4 32
      ∷ field_of 5 32
      ∷ field_of 6 32
      ∷ field_of 7 32
      ∷ [];
}

abbrev wire : ℕ → ℕ → Bytes → Bytes
wire tag size rest = 0 ∷ tag ∷ 0 ∷ 0 ∷ 0 ∷ size ∷ (repeat tag size ++ rest)

abbrev pairing_bytes : Bytes
pairing_bytes =
    magic
    ++ (0
        ∷ 1
        ∷ 0
        ∷ 1
        ∷ 0
        ∷ 7
        ∷ wire 1 32 (wire 2 32 (wire 3 16 (wire 4 32 (wire 5 32 (wire 6 32 (wire 7 32 [])))))))

abbrev all_below : Bytes → Bool
all_below [] = true
all_below (b ∷ bs) = ltb b 256 && all_below bs

all_below-AreBytes : (bs : Bytes) → all_below bs ≡ true → AreBytes bs
all_below-AreBytes [] h = tt
all_below-AreBytes (b ∷ bs) h = (ground arith, all_below-AreBytes bs (ground arith))

pairing_encoded : encode pairing ≡ ok pairing_bytes
unfolding encode validate_fields check_each check_field check_order required_tags field_length
    any_differs fold_length encode_fields to_be_bytes16 purpose_number to_be_bytes
pairing_encoded = refl

decode-encode_example : decode pairing_bytes ≡ ok pairing
decode-encode_example = decode-encode pairing pairing_bytes pairing_encoded

pairing_decoded : decode pairing_bytes ≡ ok pairing
unfolding decode read_header read_exact bytes_eq read_u16 from_be_bytes16 purpose_of read_fields
    read_field check_order read_u32 from_be_bytes validate_fields check_each check_field
    required_tags field_length any_differs
pairing_decoded = refl

encode-decode_example : encode pairing ≡ ok pairing_bytes
encode-decode_example =
    encode-decode pairing_bytes pairing (all_below-AreBytes pairing_bytes refl) pairing_decoded
