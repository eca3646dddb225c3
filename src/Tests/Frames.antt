-- ===== src/Tests/Frames.antt =====
-- Two frames in three chunks.
use roammand.Base.{◌≡◌, refl, false, some, List, [], ◌∷◌, Bytes, ok, Call, arith}
use roammand.Frame.{
  FrameError, FrameDecoder, new, push, finish, encode_frame_with_limit, to_be_bytes,
}
use roammand.Frame.Total.{IsReady, header_at}
use roammand.Frame.Reading.{in_length, reading_of, IsMarked, push-read_all}
use roammand.Frame.RoundTrip.{encode_all, concat, push_each, push_each-encode_all}

abbrev payloads : List Bytes
payloads = (42 ∷ []) ∷ (7 ∷ 8 ∷ []) ∷ []

abbrev chunks : List Bytes
chunks = (0 ∷ 0 ∷ []) ∷ (0 ∷ 1 ∷ 42 ∷ 0 ∷ []) ∷ (0 ∷ 0 ∷ 2 ∷ 7 ∷ 8 ∷ []) ∷ []

encoded : encode_all 16 payloads ≡ ok (concat chunks)
unfolding encode_frame_with_limit to_be_bytes
encoded = refl

push_each-encode_all_example :
    (d : FrameDecoder) × (push_each (new 16) [] chunks ≡ some (d, ok payloads)) × (finish d ≡ ok tt)
push_each-encode_all_example = push_each-encode_all 16 payloads chunks (omega arith) encoded

new-IsReady : IsReady (new 16)
unfolding new
new-IsReady = (refl, header_at (0 ∷ 0 ∷ 0 ∷ 0 ∷ []) 0 false 16 (omega arith) refl)

-- A whole frame, and the start of the next length.
push-read_all_example :
    let chunk : Bytes = 0 ∷ 0 ∷ 0 ∷ 1 ∷ 42 ∷ 0 ∷ 0 ∷ [] in
    (r : Call FrameDecoder FrameError (List Bytes)) × (push (new 16) chunk ≡ some r)
    × (reading_of r ≡ ok (in_length 0 2, (42 ∷ []) ∷ []))
    × IsMarked r
unfolding new
push-read_all_example = push-read_all (new 16) (0 ∷ 0 ∷ 0 ∷ 1 ∷ 42 ∷ 0 ∷ 0 ∷ []) new-IsReady
