-- ===== src/Daemon/Camera.antt =====
-- `WebcamIterator::matrix` of webcam/src/WebCam.h: an empty frame of the camera is asked for again.
use streaming_gateway.Prelude.{
  ℕ, zero, suc, ◌≤◌, ◌≡◌, refl, Option, none, some, List, [], ◌∷◌, length, take, arith,
}
use streaming_gateway.Prelude.Run.{ok, blocked, Cmd, pure, ◌>>=◌}
use streaming_gateway.Frame.{Mat}

-- What the camera will give, in order: an empty frame, or a frame
abbrev pub Grabs : Type 0
Grabs = List (Option Mat)

-- `matrix`, which goes on until there is a frame
unfoldable pub matrix : Cmd Grabs Mat
matrix [] = blocked
matrix (none ∷ grabs) = matrix grabs
matrix (some frame ∷ grabs) = ok frame grabs

-- Some calls of `matrix`, one after another
unfoldable pub matrices : ℕ → Cmd Grabs (List Mat)
matrices zero = pure []
matrices (suc n) = do frame ← matrix; frames ← matrices n; pure (frame ∷ frames)

-- The frames that are not empty
unfoldable pub present : Grabs → List Mat
present [] = []
present (none ∷ grabs) = present grabs
present (some frame ∷ grabs) = frame ∷ present grabs

-- As many calls as the camera gives frames, or fewer, return those frames: none is skipped or comes
-- twice, and no empty one is among them.
pub matrices_lem :
    (n : ℕ) (grabs : Grabs)
    → n ≤ length (present grabs)
    → (rest : Grabs) × (matrices n grabs ≡ ok (take n (present grabs)) rest)
unfolding matrices matrix present
matrices_lem zero grabs h = (grabs, refl)
matrices_lem (suc n) [] h = absurd (omega (arith, h))
matrices_lem (suc n) (none ∷ grabs) h = matrices_lem (suc n) grabs h
matrices_lem (suc n) (some frame ∷ grabs) h =
    let (rest, others) = matrices_lem n grabs (omega (arith, h)) in (rest, rw others refl)
