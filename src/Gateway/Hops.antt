-- ===== src/Gateway/Hops.antt =====
-- The arguments of the gateway reach its children: what `main_server` hands over, a mode of the
-- same program passes on, and the streamer or the handler registers.
use streaming_gateway.Prelude.{
  ℕ, ◌^◌, ◌<◌, ◌≡◌, refl, ◌∙◌, Bool, true, List, [], ◌∷◌, Bytes, codes, ltb, arith,
}
use streaming_gateway.Prelude.Run.{ok, throw, undefined, runtime_error, ◌>>=◌}
use streaming_gateway.Prelude.Decimal.{strtol-to_string}
use streaming_gateway.Dict.{lookup}
use streaming_gateway.Manager.Os.{Os}
use streaming_gateway.Manager.Region.{Host}
use streaming_gateway.Manager.Register.{register_system_shared_memory}
use streaming_gateway.Cli.{parse_args, parse_from}
use streaming_gateway.Cli.Options.{last_given}
use streaming_gateway.Gateway.{executed, Gateway, Processes}
use streaming_gateway.Gateway.Commands.{
  argument, int_to_string, handler_args, streamer_args, streamer_mode_args, handler_mode_args,
}
use streaming_gateway.Gateway.Modes.{Slot, readable, null_pointer, unreadable, arg_list, execv}
use streaming_gateway.Gateway.Server.{main}
use streaming_gateway.Gateway.Daemons.{register_region, streamer_main, handler_main}
use streaming_gateway.Gateway.Given.{
  argument-given, mode_options, mode_options-AreKeys, mode_options_with, mode_options_with-AreKeys,
}
use streaming_gateway.Gateway.Passing.{
  execv_readable, execv_null, same_int, handler_mode, streamer_mode,
}

no_arguments : {S : Type 0} (key : Bytes) (s : S) → argument (parse_args []) key s ≡ undefined
unfolding argument parse_args parse_from lookup
no_arguments key s = refl

module _ (byte_size : ℕ) (small : byte_size < 2 ^ 31) where
  register_region_lem :
      {W : Type 0} (os : Os W) (shm_key : Bytes)
      → register_region os shm_key (int_to_string byte_size)
        ≡ register_system_shared_memory os (codes "shm_queue") shm_key 0 byte_size
  unfolding register_region int_to_string
  register_region_lem os shm_key =
      let positive : ltb byte_size (2 ^ 31) ≡ true = ground (arith, small) in
      rw (positive, strtol-to_string byte_size (omega arith), same_int byte_size small, positive)
        refl

  module _ {W : Type 0} (os : Os W) (processes : Processes W) (can_execute : Bytes → Bool) where
    -- Let a process of the gateway with `handler_args` be able to execute the handler, and the size
    -- be below 2^31. Where the pointer `arg_ptr[0]`, which is never set, can be read as a name, the
    -- process becomes the handler with that name and arguments, with which the handler's `main`
    -- registers the queue's region with the key and the size that the gateway gave, and gets its
    -- directory. Where it is null, the handler gets no arguments and its `main` is undefined. Where
    -- it cannot be read, the mode throws `std::runtime_error`.
    pub handler_hop :
        (executed_with handler shm_key video_repository : Bytes) (g : Gateway W) (h : Host W)
        → can_execute handler ≡ true
        → ((name : Bytes)
            → (argv : List Bytes) × (main os processes can_execute
                  (readable name)
                  executed_with
                  (handler_args handler shm_key video_repository byte_size)
                  g
                ≡ ok (executed handler (name ∷ argv)) g)
              × (handler_main os argv h
                  ≡ (register_system_shared_memory os (codes "shm_queue") shm_key 0 byte_size
                        >>= λ _. ok video_repository)
                      h))
          × ((main os processes can_execute null_pointer executed_with
                  (handler_args handler shm_key video_repository byte_size)
                  g
                ≡ ok (executed handler []) g)
              × (handler_main os [] h ≡ undefined))
          × (main os processes can_execute unreadable executed_with
                (handler_args handler shm_key video_repository byte_size)
                g
              ≡ throw runtime_error g)
    unfolding handler_main last_given execv arg_list
    handler_hop executed_with handler shm_key video_repository g h can =
        let args = handler_mode_args shm_key byte_size video_repository in
        let given = mode_options_with shm_key byte_size video_repository in
        let keys = mode_options_with-AreKeys shm_key byte_size video_repository in
        let becomes = λ (slot : Slot).
          handler_mode byte_size small os processes can_execute slot executed_with handler shm_key
            video_repository g in
        (
          λ name. (
            args,
            becomes (readable name) ∙ execv_readable can_execute name handler args g can,
            rw
                (
                  argument-given given (codes "shm_key") shm_key h keys refl,
                  argument-given given (codes "shm_size") (int_to_string byte_size) h keys refl,
                  argument-given given (codes "video_repository") video_repository h keys refl,
                  register_region_lem os shm_key,
                )
                refl,
          ),
          (
            becomes null_pointer ∙ execv_null can_execute handler args g can,
            rw (no_arguments (codes "shm_key") h) refl,
          ),
          becomes unreadable,
        )

    -- Let a process of the gateway with `streamer_args` be able to execute the streamer, and the
    -- size be below 2^31. Where the pointer `arg_ptr[0]`, which is never set, can be read as a name,
    -- the process becomes the streamer with that name and arguments, with which the streamer's
    -- `main` registers the queue's region with the key and the size that the gateway gave. Where it
    -- is null, the streamer gets no arguments and its `main` is undefined. Where it cannot be read,
    -- the mode throws `std::runtime_error`.
    pub streamer_hop :
        (executed_with streamer shm_key : Bytes) (g : Gateway W) (h : Host W)
        → can_execute streamer ≡ true
        → ((name : Bytes)
            → (argv : List Bytes) × (main os processes can_execute
                  (readable name)
                  executed_with
                  (streamer_args streamer shm_key byte_size)
                  g
                ≡ ok (executed streamer (name ∷ argv)) g)
              × (streamer_main os argv h
                  ≡ register_system_shared_memory os (codes "shm_queue") shm_key 0 byte_size h))
          × ((main os processes can_execute null_pointer executed_with
                  (streamer_args streamer shm_key byte_size)
                  g
                ≡ ok (executed streamer []) g)
              × (streamer_main os [] h ≡ undefined))
          × (main os processes can_execute unreadable executed_with
                (streamer_args streamer shm_key byte_size)
                g
              ≡ throw runtime_error g)
    unfolding streamer_main last_given execv arg_list
    streamer_hop executed_with streamer shm_key g h can =
        let args = streamer_mode_args shm_key byte_size in
        let given = mode_options shm_key byte_size in
        let keys = mode_options-AreKeys shm_key byte_size in
        let becomes = λ (slot : Slot).
          streamer_mode byte_size small os processes can_execute slot executed_with streamer shm_key
            g in
        (
          λ name. (
            args,
            becomes (readable name) ∙ execv_readable can_execute name streamer args g can,
            rw
                (
                  argument-given given (codes "shm_key") shm_key h keys refl,
                  argument-given given (codes "shm_size") (int_to_string byte_size) h keys refl,
                  register_region_lem os shm_key,
                )
                refl,
          ),
          (
            becomes null_pointer ∙ execv_null can_execute streamer args g can,
            rw (no_arguments (codes "shm_key") h) refl,
          ),
          becomes unreadable,
        )
