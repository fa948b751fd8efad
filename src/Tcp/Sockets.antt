-- ===== src/Tcp/Sockets.antt =====
-- How TCPStreamer/src/ opens and closes its sockets: `init_socket` and `close_socket` of
-- TCPPublisher.h, and the constructor and destructor of `TCPMessageIterator` in TCPStreamer.h. What
-- the threads do that the one starts and the other joins is left to Listener, Pool and Workers.
use streaming_gateway.Prelude.{
  ℕ, Bool, true, false, Option, none, some, List, [], ◌∷◌, Bytes, ◌==◌, if◌then◌else◌,
}
use streaming_gateway.Prelude.Run.{ok, blocked, Cmd, pure, raise, ◌>>=◌, ◌>>◌, runtime_error}

-- The calls of the system: `none` and `false` are results below 0; `inet_pton` says whether a host is
-- an address. `join_listen_thread` and `join_thread_pool` are the `join` of the destructor on `listen_thread_`
-- and on the pool, `none` where one does not return.
pub record SocketCalls (W : Type 0) : Type 0 where
  pub socket : W → Option ℕ × W
  pub bind : (fd port : ℕ) → W → Bool × W
  pub listen : ℕ → W → Bool × W
  pub accept : ℕ → W → Option ℕ × W
  pub inet_pton : Bytes → Bool
  pub connect : ℕ → Bytes → ℕ → W → Bool × W
  pub join_listen_thread : W → Option W
  pub join_thread_pool : W → Option W

-- The descriptors that have been opened and not closed, the last one first, and the kernel
pub record Sockets (W : Type 0) : Type 0 where
  pub opened : List ℕ
  pub kernel : W

unfoldable pub remove : ℕ → List ℕ → List ℕ
remove fd [] = []
remove fd (x ∷ xs) = let rest = remove fd xs in if x == fd then xs else x ∷ rest

module _ {W : Type 0} where
  -- A call that makes a descriptor
  unfoldable pub opening : (W → Option ℕ × W) → Cmd (Sockets W) (Option ℕ)
  opening call s =
      let r = call s.kernel in
      elim r.0 [
        | none ↦ ok none (record s { kernel = r.1 })
        | some fd ↦ ok (some fd) (record { opened = fd ∷ s.opened; kernel = r.1 })
      ]

  -- A call on a descriptor
  unfoldable pub in_kernel : (W → Bool × W) → Cmd (Sockets W) Bool
  in_kernel call s = let r = call s.kernel in ok r.0 (record s { kernel = r.1 })

  unfoldable pub close : ℕ → Cmd (Sockets W) (Unit {0})
  close fd s = ok tt (record s { opened = remove fd s.opened })

  -- Where a call on the listening socket has failed, it is closed and the constructor throws.
  unfoldable pub ensure : ℕ → Bool → Cmd (Sockets W) (Unit {0})
  ensure fd true = pure tt
  ensure fd false = close fd >> raise runtime_error

  -- The same behind `accept`
  unfoldable pub accepted : ℕ → Option ℕ → Cmd (Sockets W) (ℕ × ℕ)
  accepted fd none = close fd >> raise runtime_error
  accepted fd (some conn) = pure (fd, conn)

  -- A `join`
  unfoldable pub joining : (W → Option W) → Cmd (Sockets W) (Unit {0})
  joining join s = elim (join s.kernel) [
    | none ↦ blocked
    | some w ↦ ok tt (record s { kernel = w })
  ]

  -- `close_socket` of the publisher, for `sockfd_`
  unfoldable pub close_socket : Option ℕ → Cmd (Sockets W) (Unit {0})
  close_socket none = pure tt
  close_socket (some fd) = close fd

  module _ (calls : SocketCalls W) where
    -- `~TCPMessageIterator`. The flags that stop the threads are set in Listener and Workers.
    unfoldable pub close_iterator : ℕ × ℕ → Cmd (Sockets W) (Unit {0})
    close_iterator (fd, conn) = do
      joining calls.join_listen_thread
      close conn
      close fd
      joining calls.join_thread_pool

    -- The constructor from `bind` on
    unfoldable pub listen_on : ℕ → ℕ → Cmd (Sockets W) (ℕ × ℕ)
    listen_on port fd = do
      bound ← in_kernel (calls.bind fd port)
      ensure fd bound
      listening ← in_kernel (calls.listen fd)
      ensure fd listening
      conn ← opening (calls.accept fd)
      accepted fd conn

    -- `TCPMessageIterator`: `listen_sockfd_` and `conn_sockfd_`
    unfoldable pub new_iterator : ℕ → Cmd (Sockets W) (ℕ × ℕ)
    new_iterator port = do
      sock ← opening calls.socket
      elim sock [ none ↦ raise runtime_error | some fd ↦ listen_on port fd ]

    -- `init_socket` from `inet_pton` on
    unfoldable pub connect_on : Bytes → ℕ → ℕ → Cmd (Sockets W) (Bool × Option ℕ)
    connect_on host port fd =
        if calls.inet_pton host
        then (do connected ← in_kernel (calls.connect fd host port); pure (connected, some fd))
        else pure (false, some fd)

    -- `init_socket`: its result, and `sockfd_`
    unfoldable pub init_socket : Bytes → ℕ → Cmd (Sockets W) (Bool × Option ℕ)
    init_socket host port = do
      sock ← opening calls.socket
      elim sock [ none ↦ pure (false, none) | some fd ↦ connect_on host port fd ]
