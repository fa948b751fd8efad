-- ===== src/Tcp/Link.antt =====
-- Both ends of a connection: what one publishes, the other queues.
use streaming_gateway.Prelude.{
  ℕ, ◌≡◌, refl, sym, ap, ◌∙◌, Bool, true, false, ◌&&◌, some, [], ◌∷◌, ◌++◌, List, Bytes, length,
  take, take_all, append-nil, append_assoc, Option-cases, inl, inr, arith,
}
use streaming_gateway.Prelude.Run.{ok}
use streaming_gateway.Memory.{to_bytes}
use streaming_gateway.Memory.Laws.{length-to_bytes}
use streaming_gateway.Tcp.Publisher.{Sender, Connection, publish, publish_opened, publish_each}
use streaming_gateway.Tcp.Listener.{Receiver, Listener, listen_for_messages}
use streaming_gateway.Tcp.Sent.{IsSender, publish_lem, send_fails}
use streaming_gateway.Tcp.Received.{framed, AreShort, IsStream, listen_lem}

-- The eight bytes of a length are taken together, or the call fails.
unfoldable pub IsPrompt : {W : Type 0} → Sender W → Type 0
IsPrompt {W} sender =
    (size : Bytes) (w : W) (n : ℕ) → length size ≡ 8 → (sender.send size w).0 ≡ some n → n ≡ 8

module _ {W : Type 0} (sender : Sender W) (law : IsSender sender) (prompt : IsPrompt sender) where
  -- `publish` returns; where it returns `true`, all has gone out.
  abbrev Publishes : Bytes → Connection W → Type 0
  Publishes m c =
      (b : Bool) × (d : Connection W) × (publish sender true m c ≡ ok b d)
      × (b ≡ true → d.sent ≡ c.sent ++ (to_bytes 8 (length m) ++ m))

  publish_total : (m : Bytes) (c : Connection W) → Publishes m c
  unfolding publish publish_opened IsPrompt
  publish_total m c =
      let size = to_bytes 8 (length m) in
      elim (Option-cases (sender.send size c.kernel).0) [
        | inl fails ↦ (
          false,
          record c { kernel = (sender.send size c.kernel).1 },
          rw (send_fails sender size c fails) refl,
          λ h. cc h,
        )
        | inr (n, takes) ↦
            let eight : n ≡ 8 = prompt size c.kernel n (length-to_bytes 8 (length m)) takes in
            let (b, j, d, run, sent, whole) = publish_lem sender law m c (takes ∙ ap some eight) in
            (
              b,
              d,
              run,
              λ h.
                  sent
                  ∙ ap (λ k. c.sent ++ (size ++ take k m))
                      (elim whole [ inl (e, _) ↦ cc (e, h) | inr (e, q) ↦ q ])
                  ∙ ap (λ xs. c.sent ++ (size ++ xs)) (take_all m),
            )
      ]

  -- The whole run returns; where every message went out, the bytes of all are on the connection.
  publish_each_lem :
      (ms : List Bytes) (c : Connection W)
      → (b : Bool) × (d : Connection W) × (publish_each sender ms c ≡ ok b d)
        × (b ≡ true → d.sent ≡ c.sent ++ framed ms)
  unfolding publish_each framed
  publish_each_lem [] c = (true, c, refl, λ _. sym (append-nil c.sent))
  publish_each_lem (m ∷ ms) c =
      let (b, d, run, sent) = publish_total m c in
      let (b', d', runs, sents) = publish_each_lem ms d in
      (
        b && b',
        d',
        rw (run, runs) refl,
        λ h.
            sents (ground (arith, h))
            ∙ ap (λ xs. xs ++ framed ms) (sent (ground (arith, h)))
            ∙ append_assoc c.sent (to_bytes 8 (length m) ++ m) (framed ms)
            ∙ ap (◌++◌ c.sent) (append_assoc (to_bytes 8 (length m)) m (framed ms)),
      )

  -- Let each `send` that does not fail take a byte at least and a length whole, and each `recv`
  -- give a byte at least of those that are pending, and a length whole; nobody asks the listener
  -- to stop. If all calls of a producer's run of `publish` return `true` on a new connection, and
  -- the connection carries the bytes to the listener, then the messages, each of up to 100000000
  -- bytes, are the next tasks of the listener, in order, after one round for each.
  pub tcp_link :
      (receiver : Receiver W) (pending : W → Bytes)
      → IsStream receiver pending
      → (ms : List Bytes) (c d : Connection W) (s : Listener W) → AreShort ms
      → c.sent ≡ []
      → publish_each sender ms c ≡ ok true d
      → pending s.kernel ≡ d.sent
      → (k : W) × (listen_for_messages receiver (length ms) s
          ≡ ok true (record { task_queue = s.task_queue ++ ms; kernel = k }))
        × (pending k ≡ [])
  tcp_link receiver pending stream ms c d s short new all carried =
      let (b, d', run, sent) = publish_each_lem ms c in
      let same : b ≡ true = cc (run, all) in
      let end_same : d' ≡ d = cc (run, all) in
      listen_lem receiver pending stream ms [] s short (
        carried
        ∙ ap (λ x. x.sent) (sym end_same)
        ∙ sent same
        ∙ ap (λ xs. xs ++ framed ms) new
        ∙ sym (append-nil (framed ms)))
