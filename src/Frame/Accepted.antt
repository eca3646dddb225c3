-- ===== src/Frame/Accepted.antt =====
-- A decoder that has accepted a chunk is ready for the next one.
use roammand.Base.{
  ℕ, zero, suc, ◌<◌, ◌≡◌, refl, sym, ap, subst, ◌∙◌, some, List, [], ◌∷◌, ◌++◌, append_assoc, Bytes,
  take, ok, err, Call, and_then, arith, and_then-ok,
}
use roammand.Frame.{FrameError, FrameDecoder, turn, copied, mark, push}
use roammand.Frame.Bytewise.{accept}
use roammand.Frame.Total.{Position, IsReady, copied-pos, turn-Position, push_total}

-- Frames that were there before stay in front.
abbrev pub in_front :
    List Bytes
    → Call FrameDecoder FrameError (List Bytes)
    → Call FrameDecoder FrameError (List Bytes)
in_front before (d, ok frames) = (d, ok (before ++ frames))
in_front before (d, err e) = (d, err e)

turn-in_front :
    (d : FrameDecoder) (before frames : List Bytes) (piece : Bytes)
    → turn d (before ++ frames) piece ≡ in_front before (turn d frames piece)
unfolding turn
turn-in_front d before frames piece =
    ground (arith, append_assoc before frames ((d.payload ++ piece) ∷ []))

and_then-in_front :
    (before : List Bytes) (c : Call FrameDecoder FrameError (List Bytes))
    (k : FrameDecoder → List Bytes → Call FrameDecoder FrameError (List Bytes))
    → ((d : FrameDecoder) (frames : List Bytes)
        → k d (before ++ frames) ≡ in_front before (k d frames))
    → and_then (in_front before c) k ≡ in_front before (and_then c k)
and_then-in_front before (d, ok frames) k h = h d frames
and_then-in_front before (d, err e) k h = refl

pub accept-in_front :
    (d : FrameDecoder) (before frames : List Bytes) (xs : Bytes)
    → accept d (before ++ frames) xs ≡ in_front before (accept d frames xs)
unfolding accept
accept-in_front d before frames [] = refl
accept-in_front d before frames (x ∷ xs) =
    ap (λ c. and_then c λ d' fs. accept d' fs xs) (turn-in_front d before frames (x ∷ []))
    ∙ and_then-in_front before (turn d frames (x ∷ [])) (λ d' fs. accept d' fs xs)
        (λ d' fs. accept-in_front d' before fs xs)

turn-failed :
    (d : FrameDecoder) (frames : List Bytes) (piece : Bytes)
    → (turn d frames piece).0.failed ≡ d.failed
unfolding turn
turn-failed d frames piece = ground arith

take_one : (b k : ℕ) → 0 < k → take k (b ∷ []) ≡ b ∷ []
take_one b zero h = absurd (omega arith)
take_one b (suc zero) h = refl
take_one b (suc (suc k)) h = refl

-- A byte that is accepted keeps the decoder ready for more.
pub byte-IsReady :
    (d d' : FrameDecoder) (frames fs : List Bytes) (b : ℕ)
    → IsReady d
    → turn d frames (b ∷ []) ≡ (d', ok fs)
    → IsReady d'
byte-IsReady d d' frames fs b r h =
    let whole = turn-Position d frames (b ∷ []) r.1 fs in
    let one : take (copied d (b ∷ [])) (b ∷ []) ≡ b ∷ [] =
      take_one b (copied d (b ∷ [])) (copied-pos d b [] r.1) in
    let e : (turn d frames (take (copied d (b ∷ [])) (b ∷ []))) ≡ (d', ok fs) =
      ap (turn d frames) one ∙ h in
    (
      sym (ap (λ c. c.0.failed) h) ∙ turn-failed d frames (b ∷ []) ∙ r.0,
      subst Position (ap (λ c. c.0) e) (whole (ap (λ c. c.1) e)),
    )

pub accept-IsReady :
    (d : FrameDecoder) (frames fs : List Bytes) (xs : Bytes)
    → IsReady d
    → (accept d frames xs).1 ≡ ok fs
    → IsReady (accept d frames xs).0
unfolding accept
accept-IsReady d frames fs [] r h = r
accept-IsReady d frames fs (x ∷ xs) r h =
    let t = turn d frames (x ∷ []) in
    let (gs, e, k, whole) = and_then-ok t (λ d' fs. accept d' fs xs) h in
    subst (λ (c : Call FrameDecoder FrameError (List Bytes)). IsReady c.0) (sym whole)
      (accept-IsReady t.0 gs fs xs (byte-IsReady d t.0 frames gs x r (λ i. (t.0, e i))) k)

-- A chunk that is accepted is pushed with the same frames, and leaves the decoder ready.
pub push_ok :
    (d : FrameDecoder) (fs : List Bytes) (chunk : Bytes)
    → IsReady d
    → (accept d [] chunk).1 ≡ ok fs
    → push d chunk ≡ some ((accept d [] chunk).0, ok fs)
unfolding mark
push_ok d fs chunk r h =
    let t = accept d [] chunk in push_total d chunk r ∙ ap (λ c. some (mark c)) (λ i. (t.0, h i))
