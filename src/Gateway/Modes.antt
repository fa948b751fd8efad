-- ===== src/Gateway/Modes.antt =====
-- The modes `streamer` and `handler` of core/src/main.cpp: the process becomes the program that it
-- is told to run. The log is left out.
use streaming_gateway.Prelude.{
  ◌%◌, ◌^◌, Bool, Option, none, some, List, [], ◌∷◌, Bytes, codes, if◌then◌else◌,
}
use streaming_gateway.Prelude.Run.{Cmd, pure, raise, ◌>>=◌, runtime_error}
use streaming_gateway.Prelude.Decimal.{sto}
use streaming_gateway.Gateway.{Ending, executed}
use streaming_gateway.Gateway.Commands.{argument, streamer_mode_args, handler_mode_args}

-- What `arg_ptr[0]` holds, which the code never sets: whatever was in the memory of the new array
pub data Slot : Type 0 where
  readable : Bytes → Slot
  null_pointer : Slot
  unreadable : Slot

-- The arguments that `execv` reads from `arg_ptr`, the name of the program included: a null pointer
-- ends them, and on a pointer outside the memory the call fails with `EFAULT`.
unfoldable pub arg_list : Slot → List Bytes → Option (List Bytes)
arg_list (readable name) args = some (name ∷ args)
arg_list null_pointer args = some []
arg_list unreadable args = none

module _ {S : Type 0} (can_execute : Bytes → Bool) (slot : Slot) where
  -- `execv`, and the exception where it comes back
  unfoldable pub execv : Bytes → List Bytes → Cmd S Ending
  execv executable args = elim (arg_list slot args) [
    | none ↦ raise runtime_error
    | some argv ↦
        if can_execute executable then pure (executed executable argv) else raise runtime_error
  ]

  -- `execMode == "streamer"`
  unfoldable pub run_streamer : List (Bytes × Bytes) → Cmd S Ending
  run_streamer arguments = do
    executable ← argument arguments (codes "exe_path")
    region ← argument arguments (codes "region_name")
    shm_key ← argument arguments (codes "shm_key")
    shm_size ← argument arguments (codes "shm_size")
    byte_size ← sto 64 shm_size
    execv executable (streamer_mode_args shm_key (byte_size % 2 ^ 32))

  -- `execMode == "handler"`
  unfoldable pub run_handler : List (Bytes × Bytes) → Cmd S Ending
  run_handler arguments = do
    executable ← argument arguments (codes "exe_path")
    region ← argument arguments (codes "region_name")
    shm_key ← argument arguments (codes "shm_key")
    video_repository ← argument arguments (codes "video_repository")
    shm_size ← argument arguments (codes "shm_size")
    byte_size ← sto 64 shm_size
    execv executable (handler_mode_args shm_key (byte_size % 2 ^ 32) video_repository)
