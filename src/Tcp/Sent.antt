-- ===== src/Tcp/Sent.antt =====
-- What `publish` puts on the connection.
use streaming_gateway.Prelude.{
  length-drop, ℕ, zero, suc, ◌+◌, ◌≤◌, ◌<◌, ◌≡◌, refl, sym, ap, ◌∙◌, Bool, true, false, none, some,
  [], ◌∷◌, ◌++◌, Bytes, length, take, drop, ltb, take_all, Option-cases, append_assoc, append-nil,
  arith, Bool-cases, ◌⊎◌, inl, inr,
}
use streaming_gateway.Prelude.Run.{ok}
use streaming_gateway.Memory.{to_bytes}
use streaming_gateway.Memory.Laws.{length-to_bytes}
use streaming_gateway.Tcp.Publisher.{Sender, Connection, send, send_rest, publish_opened, publish}

-- A `send` that does not fail takes a byte at least, and no more than it is given.
unfoldable pub IsSender : {W : Type 0} → Sender W → Type 0
IsSender {W} sender =
    (wanted : Bytes) (w : W) (n : ℕ)
    → (sender.send wanted w).0 ≡ some n
    → 0 < length wanted
    → (0 < n) × (n ≤ length wanted)

take-drop : (t n : ℕ) (xs : Bytes) → take t xs ++ take n (drop t xs) ≡ take (t + n) xs
take-drop zero n xs = ap (λ j. take j xs) {x = n} {y = 0 + n} (omega arith)
take-drop (suc t) zero [] = ap (λ j. take j []) {x = suc t} {y = suc t + 0} (omega arith)
take-drop (suc t) (suc n) [] =
    ap (λ j. take j []) {x = suc (t + suc n)} {y = suc t + suc n} (omega arith)
take-drop (suc t) n (x ∷ xs) =
    ap (◌∷◌ x) (take-drop t n xs)
    ∙ ap (λ j. take j (x ∷ xs)) {x = suc (t + n)} {y = suc t + n} (omega arith)

module _ {W : Type 0} (sender : Sender W) where
  pub send_fails :
      (wanted : Bytes) (c : Connection W)
      → (sender.send wanted c.kernel).0 ≡ none
      → send sender wanted c ≡ ok none (record c { kernel = (sender.send wanted c.kernel).1 })
  unfolding send
  send_fails wanted c e = rw (send, e) refl

  send_takes :
      (wanted : Bytes) (c : Connection W) (n : ℕ)
      → (sender.send wanted c.kernel).0 ≡ some n
      → send sender wanted c
        ≡ ok
            (some n)
            (record { sent = c.sent ++ take n wanted; kernel = (sender.send wanted c.kernel).1 })
  unfolding send
  send_takes wanted c n e = rw (send, e) refl

module _ {W : Type 0} (sender : Sender W) (law : IsSender sender) (message : Bytes) where
  -- The loop ends: behind `front` the first `n` bytes of the message have gone out, all of them
  -- exactly where it succeeds.
  abbrev Ends : ℕ → ℕ → Bytes → Connection W → Type 0
  Ends fuel total front c =
      (b : Bool) × (n : ℕ) × (d : Connection W) × (send_rest sender fuel message total c ≡ ok b d)
      × (d.sent ≡ front ++ take n message)
      × (((b ≡ false) × (n < length message)) ⊎ ((b ≡ true) × (n ≡ length message)))

  all_sent :
      (fuel total : ℕ) (front : Bytes) (c : Connection W)
      → ltb total (length message) ≡ false
      → total ≤ length message
      → c.sent ≡ front ++ take total message
      → Ends fuel total front c
  unfolding send_rest
  all_sent zero total front c done lo e =
      (true, total, c, rw (send_rest, done) refl, e, inr (refl, ground (arith, done, lo)))
  all_sent (suc fuel) total front c done lo e =
      (true, total, c, rw (send_rest, done) refl, e, inr (refl, ground (arith, done, lo)))

  send_rest_lem :
      (fuel total : ℕ) (front : Bytes) (c : Connection W)
      → total ≤ length message
      → length message ≤ total + fuel
      → c.sent ≡ front ++ take total message
      → Ends fuel total front c
  unfolding send_rest IsSender
  send_rest_lem zero total front c lo hi e =
      all_sent zero total front c (ground (arith, lo, hi)) lo e
  send_rest_lem (suc fuel) total front c lo hi e = elim (Bool-cases (ltb total (length message))) [
    | inr done ↦ all_sent (suc fuel) total front c done lo e
    | inl more ↦ elim (Option-cases (sender.send (drop total message) c.kernel).0) [
      | inl fails ↦ (
        false,
        total,
        record c { kernel = (sender.send (drop total message) c.kernel).1 },
        rw (send_rest, more, send_fails sender (drop total message) c fails) refl,
        e,
        inl (refl, ground (arith, more)),
      )
      | inr (k, takes) ↦
          let c' : Connection W = record {
            sent = c.sent ++ take k (drop total message);
            kernel = (sender.send (drop total message) c.kernel).1;
          } in
          let rest = length-drop total message in
          let below : total < length message = ground (arith, more) in
          let (some_taken, in_range) =
            law (drop total message) c.kernel k takes (omega (arith, rest)) in
          let out : c'.sent ≡ front ++ take (total + k) message =
            ap (λ xs. xs ++ take k (drop total message)) e
            ∙ append_assoc front (take total message) (take k (drop total message))
            ∙ ap (◌++◌ front) (take-drop total k message) in
          let (b, n, d, run, sent, whole) =
            send_rest_lem fuel (total + k) front c' (omega (arith, rest)) (omega arith) out in
          (
            b,
            n,
            d,
            rw (send_rest, more, send_takes sender (drop total message) c k takes) run,
            sent,
            whole,
          )
    ]
  ]

  -- Let each `send` that does not fail take a byte at least. If the connection takes the eight
  -- bytes of the length at once, `publish` returns. Behind the length the first bytes of the
  -- message have gone out: all of them and it returns `true`, or not all and it returns `false`.
  pub publish_lem :
      (c : Connection W)
      → (sender.send (to_bytes 8 (length message)) c.kernel).0 ≡ some 8
      → (b : Bool) × (n : ℕ) × (d : Connection W) × (publish sender true message c ≡ ok b d)
        × (d.sent ≡ c.sent ++ (to_bytes 8 (length message) ++ take n message))
        × (((b ≡ false) × (n < length message)) ⊎ ((b ≡ true) × (n ≡ length message)))
  unfolding publish publish_opened
  publish_lem c whole =
      let size = to_bytes 8 (length message) in
      let c' : Connection W = record {
        sent = c.sent ++ take 8 size;
        kernel = (sender.send size c.kernel).1;
      } in
      let all : take 8 size ≡ size =
        ap (λ j. take j size) (sym (length-to_bytes 8 (length message))) ∙ take_all size in
      let (b, n, d, run, sent, full) =
        send_rest_lem (length message) 0 (c.sent ++ take 8 size) c' (omega arith) (omega arith)
          (sym (append-nil (c.sent ++ take 8 size))) in
      (
        b,
        n,
        d,
        rw (send_takes sender size c 8 whole) run,
        sent
            ∙ append_assoc c.sent (take 8 size) (take n message)
            ∙ ap (λ xs. c.sent ++ (xs ++ take n message)) all,
        full,
      )
