-- ===== src/Bridge/Exact.antt =====
-- One bridge frame is read back exactly.
use roammand.Base.{
  ◌≡◌, refl, ap, sym, ◌∙◌, Option, none, some, List, [], ◌∷◌, append-nil, Bytes, ok, err, Call,
  arith,
}
use roammand.Frame
use roammand.Frame.{FrameError, FrameDecoder, finish, push}
use roammand.Frame.RoundTrip.{encode_all, concat, push_each, push_each-encode_all}
use roammand.Bridge.{
  encode_bridge_frame, decode_exact_bridge_frame, finish_exact, decided,
  max_privileged_bridge_frame_bytes,
}

abbrev continued :
    Option (Call FrameDecoder FrameError (List Bytes))
    → Option (Call FrameDecoder FrameError (List Bytes))
continued none = none
continued (some (d, err e)) = some (d, err e)
continued (some (d, ok fs)) = push_each d fs []

continued_id : (r : Option (Call FrameDecoder FrameError (List Bytes))) → continued r ≡ r
continued_id none = refl
continued_id (some (d, err e)) = refl
continued_id (some (d, ok fs)) = refl

-- A stream that is one chunk.
push_each_one : (d : FrameDecoder) (chunk : Bytes) → push_each d [] (chunk ∷ []) ≡ push d chunk
push_each_one d chunk = continued_id (push d chunk)

decode_pushed :
    (encoded : Bytes) (r : Call FrameDecoder FrameError (List Bytes))
    → push (Frame.new max_privileged_bridge_frame_bytes) encoded ≡ some r
    → decode_exact_bridge_frame encoded ≡ some (finish_exact r)
unfolding decode_exact_bridge_frame
decode_pushed encoded r h = ap decided h

finish_exact_one :
    (d : FrameDecoder) (payload : Bytes)
    → finish d ≡ ok tt
    → finish_exact (d, ok (payload ∷ [])) ≡ ok payload
unfolding finish_exact
finish_exact_one d payload h = ground arith

module _ (payload encoded : Bytes) (h : encode_bridge_frame payload ≡ ok encoded) where
  one_frame :
      encode_all max_privileged_bridge_frame_bytes (payload ∷ []) ≡ ok (concat (encoded ∷ []))
  unfolding encode_bridge_frame
  one_frame = ground (arith, append-nil encoded)

-- A payload that is encoded as a bridge frame is read back from it, as the one frame there.
pub decode_exact-encode :
    (payload encoded : Bytes)
    → encode_bridge_frame payload ≡ ok encoded
    → decode_exact_bridge_frame encoded ≡ some (ok payload)
decode_exact-encode payload encoded h =
    let decoder = Frame.new max_privileged_bridge_frame_bytes in
    let (d, pushed, ended) =
      push_each-encode_all max_privileged_bridge_frame_bytes (payload ∷ []) (encoded ∷ [])
        (omega arith) (one_frame payload encoded h) in
    decode_pushed encoded (d, ok (payload ∷ [])) (sym (push_each_one decoder encoded) ∙ pushed)
    ∙ ap some (finish_exact_one d payload ended)
