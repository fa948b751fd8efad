-- ===== src/Tcp/Closed.antt =====
-- Both ends of a connection close the sockets that they have opened: TCPMessageIterator and
-- TCPPublisher of TCPStreamer/src/.
use streaming_gateway.Prelude.{
  ℕ, ◌≡◌, refl, ap, ◌∙◌, true, Option, none, some, List, ◌∷◌, Bytes, ◌==◌, Option-cases, Bool-cases,
  ◌⊎◌, inl, inr, arith,
}
use streaming_gateway.Prelude.Run.{Run, ok, throw, undefined, blocked, Cmd, ◌>>=◌, runtime_error}
use streaming_gateway.Tcp.Sockets.{
  SocketCalls, Sockets, remove, opening, in_kernel, close, joining, ensure, accepted,
  close_iterator, close_socket, listen_on, new_iterator, connect_on, init_socket,
}

remove_last : (fd : ℕ) (xs : List ℕ) → remove fd (fd ∷ xs) ≡ xs
unfolding remove
remove_last fd xs = let same : (fd == fd) ≡ true = ground arith in rw (remove, same) refl

module _ {W : Type 0} where
  opening-none :
      (call : W → Option ℕ × W) (s : Sockets W)
      → (call s.kernel).0 ≡ none
      → opening call s ≡ ok none (record s { kernel = (call s.kernel).1 })
  unfolding opening
  opening-none call s e = rw (opening, e) refl

  opening-some :
      (call : W → Option ℕ × W) (s : Sockets W) (fd : ℕ)
      → (call s.kernel).0 ≡ some fd
      → opening call s
        ≡ ok (some fd) (record { opened = fd ∷ s.opened; kernel = (call s.kernel).1 })
  unfolding opening
  opening-some call s fd e = rw (opening, e) refl

  joining-none :
      (join : W → Option W) (s : Sockets W) → join s.kernel ≡ none → joining join s ≡ blocked
  unfolding joining
  joining-none join s e = rw (joining, e) refl

  joining-some :
      (join : W → Option W) (s : Sockets W) (k : W)
      → join s.kernel ≡ some k
      → joining join s ≡ ok tt (record s { kernel = k })
  unfolding joining
  joining-some join s k e = rw (joining, e) refl

  -- The run ends, by a return or by `std::runtime_error`, with these sockets open.
  abbrev pub Leaves : {A : Type 0} → List ℕ → Run (Sockets W) A → Type 0
  Leaves opened (ok a t) = t.opened ≡ opened
  Leaves opened (throw e t) = (e ≡ runtime_error) × (t.opened ≡ opened)
  Leaves opened undefined = ⊥
  Leaves opened blocked = ⊥

  module _ (calls : SocketCalls W) where
    -- The run leaves these sockets open, or stays in a `join` that does not return.
    abbrev pub Closes : List ℕ → Run (Sockets W) (Unit {0}) → Type 0
    Closes opened r =
        Leaves opened r
        ⊎ ((r ≡ blocked)
            × (w : W) × ((calls.join_listen_thread w ≡ none) ⊎ (calls.join_thread_pool w ≡ none)))

    -- The life of a `TCPMessageIterator`, as far as its sockets go
    abbrev pub iterator_life : ℕ → Cmd (Sockets W) (Unit {0})
    iterator_life port = new_iterator calls port >>= close_iterator calls

    -- The life of a `TCPPublisher`
    abbrev pub publisher_life : Bytes → ℕ → Cmd (Sockets W) (Unit {0})
    publisher_life host port = init_socket calls host port >>= λ r. close_socket (r.1)

    close_iterator-Closes :
        (fd conn : ℕ) (before : List ℕ) (k : W)
        → Closes before
            (close_iterator calls (fd, conn) (record { opened = conn ∷ fd ∷ before; kernel = k }))
    unfolding close_iterator close
    close_iterator-Closes fd conn before k = elim (Option-cases (calls.join_listen_thread k)) [
      | inl e ↦
          rw
            (joining-none calls.join_listen_thread
              (record { opened = conn ∷ fd ∷ before; kernel = k }) e)
            (inr (refl, k, inl e))
      | inr (k', e) ↦
          let closed : Sockets W = record {
            opened = remove fd (remove conn (conn ∷ fd ∷ before));
            kernel = k';
          } in
          let both = ap (remove fd) (remove_last conn (fd ∷ before)) ∙ remove_last fd before in
          rw
            (joining-some calls.join_listen_thread
              (record { opened = conn ∷ fd ∷ before; kernel = k }) k' e)
            (elim (Option-cases (calls.join_thread_pool k')) [
              | inl e' ↦ rw (joining-none calls.join_thread_pool closed e') (inr (refl, k', inr e'))
              | inr (k'', e') ↦ rw (joining-some calls.join_thread_pool closed k'' e') (inl both)
            ])
    ]

    listen_on-Closes :
        (port fd : ℕ) (before : List ℕ) (k : W)
        → Closes before (
            (listen_on calls port fd >>= close_iterator calls)
              (record { opened = fd ∷ before; kernel = k }))
    unfolding listen_on in_kernel ensure accepted close
    listen_on-Closes port fd before k =
        let b = calls.bind fd port k in
        let l = calls.listen fd (b.1) in
        let last = remove_last fd before in
        elim (Bool-cases (b.0)) [
          | inr e ↦ rw e (inl (refl, last))
          | inl e ↦ elim (Bool-cases (l.0)) [
            | inr e' ↦ rw (e, e') (inl (refl, last))
            | inl e' ↦ elim (Option-cases (calls.accept fd (l.1)).0) [
              | inl e'' ↦
                  rw
                    (
                      e,
                      e',
                      opening-none (calls.accept fd) (record { opened = fd ∷ before; kernel = l.1 })
                          e'',
                    )
                    (inl (refl, last))
              | inr (conn, e'') ↦
                  rw
                    (
                      e,
                      e',
                      opening-some (calls.accept fd) (record { opened = fd ∷ before; kernel = l.1 })
                          conn e'',
                    )
                    (close_iterator-Closes fd conn before (calls.accept fd (l.1)).1)
            ]
          ]
        ]

    -- Whichever call fails, the constructor of the iterator throws `std::runtime_error` with the
    -- sockets closed that it has opened; where none fails, the destructor closes both, unless it
    -- stays in a `join`.
    iterator-Closes : (port : ℕ) (s : Sockets W) → Closes s.opened (iterator_life port s)
    unfolding new_iterator
    iterator-Closes port s = elim (Option-cases (calls.socket s.kernel).0) [
      | inl e ↦ rw (opening-none calls.socket s e) (inl (refl, refl))
      | inr (fd, e) ↦
          rw (opening-some calls.socket s fd e)
            (listen_on-Closes port fd s.opened (calls.socket s.kernel).1)
    ]

    connect_on-Leaves :
        (host : Bytes) (port fd : ℕ) (before : List ℕ) (k : W)
        → Leaves before (
            (connect_on calls host port fd >>= λ r. close_socket (r.1))
              (record { opened = fd ∷ before; kernel = k }))
    unfolding connect_on in_kernel close_socket close
    connect_on-Leaves host port fd before k = elim (Bool-cases (calls.inet_pton host)) [
      | inl e ↦ rw e (remove_last fd before)
      | inr e ↦ rw e (remove_last fd before)
    ]

    publisher-Leaves :
        (host : Bytes) (port : ℕ) (s : Sockets W) → Leaves s.opened (publisher_life host port s)
    unfolding init_socket close_socket
    publisher-Leaves host port s = elim (Option-cases (calls.socket s.kernel).0) [
      | inl e ↦ rw (opening-none calls.socket s e) refl
      | inr (fd, e) ↦
          rw (opening-some calls.socket s fd e)
            (connect_on-Leaves host port fd s.opened (calls.socket s.kernel).1)
    ]

    -- Whichever of the calls fail, a `TCPPublisher` that is made, connected or not, and destroyed
    -- leaves those sockets open that were open before. A `TCPMessageIterator` that is made and
    -- destroyed, or whose constructor throws `std::runtime_error`, does so too, or its destructor
    -- waits for ever, and then the `join` of the listening thread or of the pool does not return.
    pub sockets_closed :
        (host : Bytes) (port : ℕ) (s : Sockets W)
        → Closes s.opened (iterator_life port s) × Leaves s.opened (publisher_life host port s)
    sockets_closed host port s = (iterator-Closes port s, publisher-Leaves host port s)
