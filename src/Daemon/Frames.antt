-- ===== src/Daemon/Frames.antt =====
-- Frames on their way: what the queue holds of them, and what a batch of them gives back.
use streaming_gateway.Prelude.{
  ℕ, suc, ◌+◌, ◌^◌, ◌<◌, ◌≡◌, refl, sym, ap, ◌∙◌, true, false, some, List, [], ◌∷◌, Bytes, length,
  ◌==◌, arith,
}
use streaming_gateway.Prelude.Run.{ok, Cmd}
use streaming_gateway.Queue.{World, Message}
use streaming_gateway.Queue.Enqueue.{enqueue}
use streaming_gateway.Frame.{Mat, marshal, frame_message, unmarshal, unmarshal_messages}
use streaming_gateway.Frame.RoundTrip.{
  Fits, length-marshal, unmarshal-frame_message, unmarshal_same,
}
use streaming_gateway.Daemon.{HandleStreamDaemon}
use streaming_gateway.Daemon.Handshake.{in_world}
use streaming_gateway.Daemon.Batch.{with_data, Carries}
use streaming_gateway.Daemon.Stream.{export_partial, put_frame}

-- A frame whose numbers fit, with a buffer of the right size
pub record IsFrame (frame : Bytes × Mat) : Type 0 where
  pub fit : Fits frame.1
  pub sized : length frame.0 ≡ 20 + length frame.1.content
  pub small : length frame.0 < 2 ^ 62

unfoldable pub AreFrames : List (Bytes × Mat) → Type 0
AreFrames [] = Unit
AreFrames (frame ∷ frames) = IsFrame frame × AreFrames frames

-- What the queue holds of a frame, and how much room it takes up
unfoldable pub wire : List (Bytes × Mat) → List Bytes
wire [] = []
wire (frame ∷ frames) = marshal frame.0 frame.1 ∷ wire frames

unfoldable pub room_of : List (Bytes × Mat) → ℕ
room_of [] = 0
room_of (frame ∷ frames) = 17 + length frame.0 + room_of frames

unfoldable pub mats : List (Bytes × Mat) → List Mat
mats [] = []
mats (frame ∷ frames) = frame.1 ∷ mats frames

-- A daemon behind its handshake, its mutex free
abbrev pub online : {W : Type 0} → World → W → HandleStreamDaemon W
online w k = record { world = w; kernel = k; mu_held = false; initialized_publisher = true }

pub length-frame :
    (frame : Bytes × Mat)
    → IsFrame frame
    → (frame_message frame.0 frame.1).data_length ≡ length frame.0
unfolding frame_message
length-frame frame f = omega (arith, f.sized, f.small)

pub unmarshal_carried :
    (batch : List Message) (frames : List (Bytes × Mat))
    → AreFrames frames
    → Carries batch (wire frames)
    → unmarshal_messages batch ≡ some (mats frames)
unfolding unmarshal_messages wire mats AreFrames Carries
unmarshal_carried [] [] a h = refl
unmarshal_carried [] (frame ∷ frames) a h = elim h [ ]
unmarshal_carried (m ∷ ms) [] a h = elim h [ ]
unmarshal_carried (m ∷ ms) (frame ∷ frames) a h =
    let (buffer, mat) = frame in
    let f = a.0 in
    let long : m.data_length ≡ (frame_message buffer mat).data_length =
      h.1 ∙ length-marshal mat buffer f.sized ∙ sym f.sized ∙ sym (length-frame frame f) in
    let one : unmarshal m ≡ some mat =
      unmarshal_same m (frame_message buffer mat) long (unfold frame_message in h.0)
      ∙ unmarshal-frame_message buffer mat f.sized (omega (arith, f.small)) f.fit in
    rw (unmarshal_messages, one, unmarshal_carried ms frames a.1 h.2) refl

with_data-cons :
    (x : Bytes) (xs : List Bytes) → 0 < length x → with_data (x ∷ xs) ≡ x ∷ with_data xs
unfolding with_data
with_data-cons [] xs h = ground (arith, h)
with_data-cons (b ∷ bs) xs h = refl

pub with_data-wire :
    (frames : List (Bytes × Mat)) → AreFrames frames → with_data (wire frames) ≡ wire frames
unfolding with_data wire AreFrames
with_data-wire [] a = refl
with_data-wire (frame ∷ frames) a =
    with_data-cons (marshal frame.0 frame.1) (wire frames)
      (omega (arith, length-marshal frame.1 frame.0 a.0.sized))
    ∙ ap (◌∷◌ (marshal frame.0 frame.1)) (with_data-wire frames a.1)

pub length-wire : (frames : List (Bytes × Mat)) → length (wire frames) ≡ length frames
unfolding wire
length-wire [] = refl
length-wire (frame ∷ frames) = ap suc (length-wire frames)

pub in_world_ok :
    {W A : Type 0} (m : Cmd World A) (s : HandleStreamDaemon W) (a : A) (w : World)
    → m s.world ≡ ok a w
    → in_world m s ≡ ok a (record s { world = w })
unfolding in_world
in_world_ok m s a w e = rw (in_world, e) refl

pub export_partial_ok :
    {W : Type 0} (batch : List Message) (frames : List Mat) (s : HandleStreamDaemon W)
    → unmarshal_messages batch ≡ some frames
    → export_partial batch s ≡ ok frames s
unfolding export_partial
export_partial_ok batch frames s e = rw (export_partial, e) refl

pub put_frame_ok :
    {W : Type 0} (region_name : Bytes) (frame : Bytes × Mat) (s : HandleStreamDaemon W) (w : World)
    → ((frame_message frame.0 frame.1).data_length == 0) ≡ false
    → enqueue region_name (frame_message frame.0 frame.1) s.world ≡ ok tt w
    → put_frame region_name frame.0 frame.1 s ≡ ok tt (record s { world = w })
unfolding put_frame
put_frame_ok region_name frame s w h e =
    rw (h, in_world_ok (enqueue region_name (frame_message frame.0 frame.1)) s tt w e) refl
