-- ===== src/Gateway/Passing.antt =====
-- What the modes `streamer` and `handler` of core/src/main.cpp do with the arguments that
-- `main_server` hands over.
use streaming_gateway.Prelude.{
  ℕ, ◌%◌, ◌^◌, ◌<◌, ◌≡◌, refl, ◌∙◌, Bool, true, some, List, [], ◌∷◌, map, Bytes, codes, arith,
}
use streaming_gateway.Prelude.Run.{ok}
use streaming_gateway.Prelude.Decimal.{to_string, sto, sto-to_string}
use streaming_gateway.Dict.{lookup}
use streaming_gateway.Manager.Os.{Os}
use streaming_gateway.Cli.{parse_args}
use streaming_gateway.Cli.Options.{option, last_given, parse_args-options}
use streaming_gateway.Gateway.{executed, Gateway, Processes}
use streaming_gateway.Gateway.Commands.{
  handler_args, streamer_args, streamer_mode_args, handler_mode_args,
}
use streaming_gateway.Gateway.Modes.{
  Slot, readable, null_pointer, arg_list, execv, run_streamer, run_handler,
}
use streaming_gateway.Gateway.Server.{run_mode, main}
use streaming_gateway.Gateway.Given.{
  argument-given, handler_options, handler_options-AreKeys, streamer_options,
  streamer_options-AreKeys,
}

-- A program that can be executed gets its arguments behind a name that can be read.
pub execv_readable :
    {S : Type 0} (can_execute : Bytes → Bool) (name executable : Bytes) (args : List Bytes) (s : S)
    → can_execute executable ≡ true
    → execv can_execute (readable name) executable args s ≡ ok (executed executable (name ∷ args)) s
unfolding execv arg_list
execv_readable can_execute name executable args s h = rw (execv, h) refl

-- At a null pointer its arguments end.
pub execv_null :
    {S : Type 0} (can_execute : Bytes → Bool) (executable : Bytes) (args : List Bytes) (s : S)
    → can_execute executable ≡ true
    → execv can_execute null_pointer executable args s ≡ ok (executed executable []) s
unfolding execv arg_list
execv_null can_execute executable args s h = rw (execv, h) refl

main_mode :
    {W : Type 0} (os : Os W) (processes : Processes W) (can_execute : Bytes → Bool) (slot : Slot)
    (executed_with mode : Bytes) (argv : List Bytes) (g : Gateway W)
    → lookup (codes "exec_mode") (parse_args argv) ≡ some mode
    → main os processes can_execute slot executed_with argv g
      ≡ run_mode os processes can_execute slot executed_with (parse_args argv) mode g
unfolding main
main_mode os processes can_execute slot executed_with mode argv g e = rw (main, e) refl

module _ (byte_size : ℕ) (small : byte_size < 2 ^ 31) where
  read_back : {S : Type 0} (s : S) → sto 64 (to_string byte_size) s ≡ ok byte_size s
  read_back s = sto-to_string 64 byte_size s (ground (arith, small))

  pub same_int : byte_size % 2 ^ 32 ≡ byte_size
  same_int = omega arith

  run_handler_lem :
      {S : Type 0} (can_execute : Bytes → Bool) (slot : Slot)
      (handler shm_key video_repository : Bytes) (s : S)
      → run_handler can_execute slot
          (parse_args (handler_args handler shm_key video_repository byte_size))
          s
        ≡ execv can_execute slot handler (handler_mode_args shm_key byte_size video_repository) s
  unfolding run_handler last_given
  run_handler_lem can_execute slot handler shm_key video_repository s =
      let options = handler_options handler shm_key video_repository byte_size in
      let keys = handler_options-AreKeys handler shm_key video_repository byte_size in
      rw
        (
          argument-given options (codes "exe_path") handler s keys refl,
          argument-given options (codes "region_name") (codes "shm_queue") s keys refl,
          argument-given options (codes "shm_key") shm_key s keys refl,
          argument-given options (codes "video_repository") video_repository s keys refl,
          argument-given options (codes "shm_size") (to_string byte_size) s keys refl,
          read_back s,
          same_int,
        )
        refl

  run_streamer_lem :
      {S : Type 0} (can_execute : Bytes → Bool) (slot : Slot) (streamer shm_key : Bytes) (s : S)
      → run_streamer can_execute slot (parse_args (streamer_args streamer shm_key byte_size)) s
        ≡ execv can_execute slot streamer (streamer_mode_args shm_key byte_size) s
  unfolding run_streamer last_given
  run_streamer_lem can_execute slot streamer shm_key s =
      let options = streamer_options streamer shm_key byte_size in
      let keys = streamer_options-AreKeys streamer shm_key byte_size in
      rw
        (
          argument-given options (codes "exe_path") streamer s keys refl,
          argument-given options (codes "region_name") (codes "shm_queue") s keys refl,
          argument-given options (codes "shm_key") shm_key s keys refl,
          argument-given options (codes "shm_size") (to_string byte_size) s keys refl,
          read_back s,
          same_int,
        )
        refl

  module _ {W : Type 0} (os : Os W) (processes : Processes W) (can_execute : Bytes → Bool) where
    pub handler_mode :
        (slot : Slot) (executed_with handler shm_key video_repository : Bytes) (g : Gateway W)
        → main os processes can_execute slot executed_with
            (handler_args handler shm_key video_repository byte_size)
            g
          ≡ execv can_execute slot handler (handler_mode_args shm_key byte_size video_repository) g
    unfolding run_mode last_given
    handler_mode slot executed_with handler shm_key video_repository g =
        let options = handler_options handler shm_key video_repository byte_size in
        let keys = handler_options-AreKeys handler shm_key video_repository byte_size in
        let mode : lookup (codes "exec_mode") (parse_args (map option options))
            ≡ some (codes "handler") =
          parse_args-options options (codes "exec_mode") keys in
        main_mode os processes can_execute slot executed_with (codes "handler") (map option options)
          g mode
        ∙ run_handler_lem can_execute slot handler shm_key video_repository g

    pub streamer_mode :
        (slot : Slot) (executed_with streamer shm_key : Bytes) (g : Gateway W)
        → main os processes can_execute slot executed_with
            (streamer_args streamer shm_key byte_size)
            g
          ≡ execv can_execute slot streamer (streamer_mode_args shm_key byte_size) g
    unfolding run_mode last_given
    streamer_mode slot executed_with streamer shm_key g =
        let options = streamer_options streamer shm_key byte_size in
        let keys = streamer_options-AreKeys streamer shm_key byte_size in
        let mode : lookup (codes "exec_mode") (parse_args (map option options))
            ≡ some (codes "streamer") =
          parse_args-options options (codes "exec_mode") keys in
        main_mode os processes can_execute slot executed_with (codes "streamer")
          (map option options) g mode
        ∙ run_streamer_lem can_execute slot streamer shm_key g
