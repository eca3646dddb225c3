-- ===== src/Transcript/Canonical.antt =====
-- What `decode` accepts has one encoding: the bytes that it read.
use mathlib.Core.Path.{ap₂}
use roammand.Base.{
  ℕ, zero, suc, ◌≤◌, ◌<◌, ◌≡◌, refl, ap, sym, ◌∙◌, subst, Option, none, some, List, [], ◌∷◌, ◌++◌,
  append-nil, Bytes, bytes_eq_iff, length, take, drop, ok, arith, Result-cases, inl, inr,
}
use roammand.Frame.{to_be_bytes, from_be_bytes}
use roammand.Transcript.{
  TranscriptPurpose, TranscriptField, CanonicalTranscript, max_transcript_length, max_fields,
  to_be_bytes16, read_exact, read_u16, read_u32, read_field, read_fields, read_header,
  header_length, encode, decode, validate_fields, purpose_number, purpose_of, from_be_bytes16,
  magic,
}
use roammand.Transcript.Fields.{fields_bytes}
use roammand.Transcript.Decoded.{
  AllFit, encode_fields-bytes, check_each-AllFit, fold_length-bytes, header_bytes,
  length-header_bytes, append_bytes,
}

-- Numbers below 256.
abbrev pub AreBytes : Bytes → Type 0
AreBytes [] = Unit {0}
AreBytes (b ∷ bs) = (b < 256) × AreBytes bs

AreBytes-append : (xs ys : Bytes) → AreBytes (xs ++ ys) → AreBytes ys
AreBytes-append [] ys h = h
AreBytes-append (x ∷ xs) ys h = AreBytes-append xs ys h.1

take-append-drop : (n : ℕ) (xs : Bytes) → take n xs ++ drop n xs ≡ xs
take-append-drop zero xs = refl
take-append-drop (suc n) [] = refl
take-append-drop (suc n) (x ∷ xs) = ap (λ t. x ∷ t) (take-append-drop n xs)

length-take_le : (n : ℕ) (xs : Bytes) → n ≤ length xs → length (take n xs) ≡ n
length-take_le zero xs h = refl
length-take_le (suc n) [] h = absurd (omega arith)
length-take_le (suc n) (x ∷ xs) h = omega (arith, length-take_le n xs (omega arith))

read_exact_ok :
    (n : ℕ) (bytes value rest : Bytes)
    → read_exact n bytes ≡ ok (value, rest)
    → (bytes ≡ value ++ rest) × (length value ≡ n)
unfolding read_exact
read_exact_ok n bytes value rest h =
    ground (arith, take-append-drop n bytes, length-take_le n bytes)

read_u16_ok :
    (bytes rest : Bytes) (n : ℕ)
    → AreBytes bytes
    → read_u16 bytes ≡ ok (n, rest)
    → (bytes ≡ to_be_bytes16 n ++ rest) × AreBytes rest
unfolding read_u16 read_exact from_be_bytes16 to_be_bytes16
read_u16_ok [] rest n b h = absurd (ground arith)
read_u16_ok (x ∷ []) rest n b h = absurd (ground arith)
read_u16_ok (x ∷ y ∷ zs) rest n b h = ground arith

read_u32_ok :
    (bytes rest : Bytes) (n : ℕ)
    → AreBytes bytes
    → read_u32 bytes ≡ ok (n, rest)
    → (bytes ≡ to_be_bytes n ++ rest) × AreBytes rest
unfolding read_u32 read_exact from_be_bytes to_be_bytes
read_u32_ok [] rest n b h = absurd (ground arith)
read_u32_ok (x ∷ []) rest n b h = absurd (ground arith)
read_u32_ok (x ∷ y ∷ []) rest n b h = absurd (ground arith)
read_u32_ok (x ∷ y ∷ z ∷ []) rest n b h = absurd (ground arith)
read_u32_ok (x ∷ y ∷ z ∷ w ∷ zs) rest n b h = ground arith

-- The bytes of a field that was read.
read_field_ok :
    (previous : Option ℕ) (bytes : Bytes) (r : TranscriptField × Bytes)
    → AreBytes bytes
    → read_field previous bytes ≡ ok r
    → (bytes ≡ to_be_bytes16 r.0.tag ++ (to_be_bytes (length r.0.value) ++ (r.0.value ++ r.1)))
      × AreBytes r.1
unfolding read_field
read_field_ok previous bytes r b h = elim (Result-cases (read_u16 bytes)) [
  | inr (x, e) ↦ absurd (ground arith)
  | inl ((tag, from_size), e1) ↦ elim (Result-cases (read_u32 from_size)) [
    | inr (x, e) ↦ absurd (ground arith)
    | inl ((size, from_value), e2) ↦ elim (Result-cases (read_exact size from_value)) [
      | inr (x, e) ↦ absurd (ground arith)
      | inl ((value, rest), e3) ↦
          let (p1, b1) = read_u16_ok bytes from_size tag b e1 in
          let (p2, b2) = read_u32_ok from_size from_value size b1 e2 in
          let (p3, sized) = read_exact_ok size from_value value rest e3 in
          let b3 = AreBytes-append value rest (subst AreBytes p3 b2) in
          let same : r ≡ (record { tag = tag; value = value }, rest) = ground arith in
          rw same (
            p1
                ∙ ap (λ t. to_be_bytes16 tag ++ t)
                    (p2 ∙ ap₂ (λ n t. to_be_bytes n ++ t) (sym sized) p3),
            b3,
          )
    ]
  ]
]

read_fields_ok :
    (n : ℕ) (previous : Option ℕ) (bytes : Bytes) (r : List TranscriptField × Bytes)
    → AreBytes bytes
    → read_fields n previous bytes ≡ ok r
    → (bytes ≡ fields_bytes r.0 ++ r.1) × (length r.0 ≡ n)
unfolding read_fields
read_fields_ok zero previous bytes r b h = ground arith
read_fields_ok (suc n) previous bytes r b h = elim (Result-cases (read_field previous bytes)) [
  | inr (x, e) ↦ absurd (ground arith)
  | inl ((field, others), e1) ↦ elim (Result-cases (read_fields n (some field.tag) others)) [
    | inr (x, e) ↦ absurd (ground arith)
    | inl ((fields, rest), e2) ↦
        let (p1, b1) = read_field_ok previous bytes (field, others) b e1 in
        let (p2, counted) = read_fields_ok n (some field.tag) others (fields, rest) b1 e2 in
        let same : r ≡ (field ∷ fields, rest) = ground arith in
        rw same (
          p1
              ∙ ap
                  (λ t.
                    to_be_bytes16 field.tag
                    ++ (to_be_bytes (length field.value) ++ (field.value ++ t)))
                  p2
              ∙ sym (append_bytes field (fields_bytes fields) rest),
          ap suc counted,
        )
  ]
]

purpose_of_ok :
    (n : ℕ) (purpose : TranscriptPurpose) → purpose_of n ≡ ok purpose → n ≡ purpose_number purpose
unfolding purpose_of purpose_number
purpose_of_ok n purpose h = ground arith

read_header_ok :
    (bytes rest : Bytes) (purpose : TranscriptPurpose) (n : ℕ)
    → AreBytes bytes
    → read_header bytes ≡ ok ((purpose, n), rest)
    → (bytes ≡ header_bytes purpose n rest) × AreBytes rest × (n ≤ max_fields)
unfolding read_header
read_header_ok bytes rest purpose n b h = elim (Result-cases (read_exact 4 bytes)) [
  | inr (x, e) ↦ absurd (ground arith)
  | inl ((found, r1), e1) ↦ elim (Result-cases (read_u16 r1)) [
    | inr (x, e) ↦ absurd (ground arith)
    | inl ((number, r2), e2) ↦ elim (Result-cases (read_u16 r2)) [
      | inr (x, e) ↦ absurd (ground arith)
      | inl ((code, r3), e3) ↦ elim (Result-cases (purpose_of code)) [
        | inr (x, e) ↦ absurd (ground arith)
        | inl (p, e4) ↦ elim (Result-cases (read_u16 r3)) [
          | inr (x, e) ↦ absurd (ground arith)
          | inl ((count, r4), e5) ↦
              let (q1, sized) = read_exact_ok 4 bytes found r1 e1 in
              let (q2, b2) =
                read_u16_ok r1 r2 number (AreBytes-append found r1 (subst AreBytes q1 b)) e2 in
              let (q3, b3) = read_u16_ok r2 r3 code b2 e3 in
              let (q5, b5) = read_u16_ok r3 r4 count b3 e5 in
              let named = purpose_of_ok code p e4 in ground (arith, bytes_eq_iff found magic)
        ]
      ]
    ]
  ]
]

validate_fields-AllFit :
    (purpose : TranscriptPurpose) (fields : List TranscriptField)
    → validate_fields purpose fields ≡ ok tt
    → AllFit fields
unfolding validate_fields
validate_fields-AllFit purpose fields h = check_each-AllFit purpose none fields (ground arith)

-- A transcript that is valid and short is encoded as its header and its fields.
encode_valid :
    (purpose : TranscriptPurpose) (fields : List TranscriptField)
    → let bytes = header_bytes purpose (length fields) (fields_bytes fields) in
      validate_fields purpose fields ≡ ok tt
      → length fields ≤ max_fields
      → length bytes ≤ max_transcript_length
      → encode (record { purpose = purpose; fields = fields }) ≡ ok bytes
unfolding encode
encode_valid purpose fields valid few short = ground (
  arith,
  encode_fields-bytes fields (validate_fields-AllFit purpose fields valid),
  fold_length-bytes header_length fields,
  length-header_bytes purpose (length fields) (fields_bytes fields),
)

-- A byte string that is decoded is the one encoding of the transcript that it is decoded to, so
-- that two different byte strings are never decoded to the same transcript.
pub encode-decode :
    (bytes : Bytes) (t : CanonicalTranscript)
    → AreBytes bytes
    → decode bytes ≡ ok t
    → encode t ≡ ok bytes
unfolding decode
encode-decode bytes t b h = elim (Result-cases (read_header bytes)) [
  | inr (x, e) ↦ absurd (ground arith)
  | inl (((purpose, n), body), e1) ↦ elim (Result-cases (read_fields n none body)) [
    | inr (x, e) ↦ absurd (ground arith)
    | inl ((fields, rest), e2) ↦
        let (p1, b1, few) = read_header_ok bytes body purpose n b e1 in
        let (p2, counted) = read_fields_ok n none body (fields, rest) b1 e2 in
        let valid : validate_fields purpose fields ≡ ok tt = ground arith in
        let short : length bytes ≤ max_transcript_length = ground arith in
        let ended : rest ≡ [] = ground arith in
        let same : t ≡ record { purpose = purpose; fields = fields } = ground arith in
        let whole : bytes ≡ header_bytes purpose (length fields) (fields_bytes fields) =
          p1
          ∙ ap₂ (header_bytes purpose) (sym counted)
              (p2 ∙ ap (λ r. fields_bytes fields ++ r) ended ∙ append-nil (fields_bytes fields)) in
        ap encode same
        ∙ encode_valid purpose fields valid (subst (λ k. k ≤ max_fields) (sym counted) few)
            (subst (λ bs. length bs ≤ max_transcript_length) whole short)
        ∙ ap ok (sym whole)
  ]
]
