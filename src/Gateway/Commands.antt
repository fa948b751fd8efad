-- ===== src/Gateway/Commands.antt =====
-- The arguments that core/src/main.cpp gives to its children.
use streaming_gateway.Prelude.{
  ℕ, ◌-◌, ◌*◌, ◌^◌, none, some, List, [], ◌∷◌, ◌++◌, Bytes, codes, ltb, if◌then◌else◌,
}
use streaming_gateway.Prelude.Run.{undefined, Cmd, pure}
use streaming_gateway.Prelude.Decimal.{to_string}
use streaming_gateway.Dict.{lookup}

-- `commandLineArguments.find(key)->second`, which is undefined for a key that is not there
unfoldable pub argument : {S : Type 0} → List (Bytes × Bytes) → Bytes → Cmd S Bytes
argument arguments key = elim (lookup key arguments) [
  | none ↦ λ s. undefined
  | some value ↦ pure value
]

-- `std::to_string` of an `int`, given by its bits
unfoldable pub int_to_string : ℕ → Bytes
int_to_string b = if ltb b (2 ^ 31) then to_string b else codes "-" ++ to_string (2 ^ 32 - b)

-- `byte_size` of `main_server`
abbrev pub buffer_size : ℕ
buffer_size = 50 * 1024 * 1024

-- `handler_args` and `streamer_args` of `main_server`
abbrev pub handler_args : (handler shm_key video_repository : Bytes) (byte_size : ℕ) → List Bytes
handler_args handler shm_key video_repository byte_size =
    codes "--exec_mode=handler"
    ∷ (codes "--exe_path=" ++ handler)
    ∷ (codes "--shm_key=" ++ shm_key)
    ∷ codes "--region_name=shm_queue"
    ∷ (codes "--video_repository=" ++ video_repository)
    ∷ (codes "--shm_size=" ++ to_string byte_size)
    ∷ []

abbrev pub streamer_args : (streamer shm_key : Bytes) (byte_size : ℕ) → List Bytes
streamer_args streamer shm_key byte_size =
    codes "--exec_mode=streamer"
    ∷ (codes "--exe_path=" ++ streamer)
    ∷ (codes "--shm_key=" ++ shm_key)
    ∷ codes "--region_name=shm_queue"
    ∷ (codes "--shm_size=" ++ to_string byte_size)
    ∷ []

-- `args` of the two modes that run a child; `byte_size` is the bits of an `int`.
abbrev pub streamer_mode_args : (shm_key : Bytes) (byte_size : ℕ) → List Bytes
streamer_mode_args shm_key byte_size =
    (codes "--shm_key=" ++ shm_key) ∷ (codes "--shm_size=" ++ int_to_string byte_size) ∷ []

abbrev pub handler_mode_args :
    (shm_key : Bytes) (byte_size : ℕ) (video_repository : Bytes) → List Bytes
handler_mode_args shm_key byte_size video_repository =
    (codes "--shm_key=" ++ shm_key)
    ∷ (codes "--shm_size=" ++ int_to_string byte_size)
    ∷ (codes "--video_repository=" ++ video_repository)
    ∷ []
