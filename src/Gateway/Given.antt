-- ===== src/Gateway/Given.antt =====
-- The options that `main_server` and the modes give to the next program, as keys and values.
use streaming_gateway.Prelude.{
  ℕ, ◌≡◌, refl, ◌∙◌, none, some, List, [], ◌∷◌, map, Bytes, codes, arith,
}
use streaming_gateway.Prelude.Run.{ok}
use streaming_gateway.Prelude.Decimal.{to_string}
use streaming_gateway.Cli.{parse_args}
use streaming_gateway.Cli.Options.{option, IsKey, AreKeys, last_given, parse_args-options}
use streaming_gateway.Gateway.Commands.{argument, int_to_string}

-- The value of a key among options
pub argument-given :
    {S : Type 0} (options : List (Bytes × Bytes)) (key value : Bytes) (s : S)
    → AreKeys options
    → last_given key options none ≡ some value
    → argument (parse_args (map option options)) key s ≡ ok value s
unfolding argument
argument-given options key value s keys e =
    let found = parse_args-options options key keys ∙ e in rw (argument, found) refl

abbrev pub handler_options : Bytes → Bytes → Bytes → ℕ → List (Bytes × Bytes)
handler_options handler shm_key video_repository byte_size =
    (codes "exec_mode", codes "handler")
    ∷ (codes "exe_path", handler)
    ∷ (codes "shm_key", shm_key)
    ∷ (codes "region_name", codes "shm_queue")
    ∷ (codes "video_repository", video_repository)
    ∷ (codes "shm_size", to_string byte_size)
    ∷ []

pub handler_options-AreKeys :
    (handler shm_key video_repository : Bytes) (byte_size : ℕ)
    → AreKeys (handler_options handler shm_key video_repository byte_size)
unfolding AreKeys IsKey
handler_options-AreKeys handler shm_key video_repository byte_size = ground arith

abbrev pub streamer_options : Bytes → Bytes → ℕ → List (Bytes × Bytes)
streamer_options streamer shm_key byte_size =
    (codes "exec_mode", codes "streamer")
    ∷ (codes "exe_path", streamer)
    ∷ (codes "shm_key", shm_key)
    ∷ (codes "region_name", codes "shm_queue")
    ∷ (codes "shm_size", to_string byte_size)
    ∷ []

pub streamer_options-AreKeys :
    (streamer shm_key : Bytes) (byte_size : ℕ)
    → AreKeys (streamer_options streamer shm_key byte_size)
unfolding AreKeys IsKey
streamer_options-AreKeys streamer shm_key byte_size = ground arith

-- the options of the programs that the children become
abbrev pub mode_options : Bytes → ℕ → List (Bytes × Bytes)
mode_options shm_key byte_size =
    (codes "shm_key", shm_key) ∷ (codes "shm_size", int_to_string byte_size) ∷ []

pub mode_options-AreKeys :
    (shm_key : Bytes) (byte_size : ℕ) → AreKeys (mode_options shm_key byte_size)
unfolding AreKeys IsKey
mode_options-AreKeys shm_key byte_size = ground arith

abbrev pub mode_options_with : Bytes → ℕ → Bytes → List (Bytes × Bytes)
mode_options_with shm_key byte_size video_repository =
    (codes "shm_key", shm_key)
    ∷ (codes "shm_size", int_to_string byte_size)
    ∷ (codes "video_repository", video_repository)
    ∷ []

pub mode_options_with-AreKeys :
    (shm_key : Bytes) (byte_size : ℕ) (video_repository : Bytes)
    → AreKeys (mode_options_with shm_key byte_size video_repository)
unfolding AreKeys IsKey
mode_options_with-AreKeys shm_key byte_size video_repository = ground arith
