-- ===== src/Tcp/LinkTests.antt =====
-- The theorems on the connection and the threads at concrete inputs.
use mathlib.Core.List.{Perm}
use streaming_gateway.Prelude.{
  ℕ, zero, suc, ◌≡◌, refl, ap, true, false, Bool, Option, none, some, List, [], ◌∷◌, ◌++◌, Bytes,
  length, take, drop, arith, ◌≤◌, ◌<◌, length-take, ◌⊎◌, take_front, drop_all, ◌∙◌, sym,
}
use streaming_gateway.Prelude.Run.{ok}
use streaming_gateway.Memory.{to_bytes}
use streaming_gateway.Tcp.Publisher.{
  Sender, Connection, publish, publish_each, publish_opened, send, send_rest,
}
use streaming_gateway.Tcp.Listener.{Receiver, listen_for_messages}
use streaming_gateway.Tcp.Sent.{IsSender, publish_lem}
use streaming_gateway.Tcp.Received.{framed, AreShort, IsStream, closed_connection}
use streaming_gateway.Tcp.Link.{IsPrompt, tcp_link}
use streaming_gateway.Tcp.Pool.{
  Pool, new_pool, Move, emplace, take_task, run_task, new_message, step, steps, arrivals,
  take_front_task, take_front_message, pick,
}
use streaming_gateway.Tcp.Order.{content, steps-Perm}
use streaming_gateway.Tcp.Sockets.{SocketCalls, Sockets}
use streaming_gateway.Tcp.Closed.{Leaves, Closes, iterator_life, publisher_life, sockets_closed}
use streaming_gateway.Tcp.InOrder.{steps_in_order, overtaking}

-- A socket that takes everything
abbrev pub sender : Sender Bytes
sender = record { send = λ wanted w. (some (length wanted), w) }

pub sender-IsSender : IsSender sender
unfolding IsSender
sender-IsSender wanted w n e h = ground (arith, e, h)

pub sender-IsPrompt : IsPrompt sender
unfolding IsPrompt
sender-IsPrompt size w n h e = ground (arith, e, h)

-- A socket that gives what has come; its state is what is still to come.
pub receive_some : ℕ → Bytes → Option Bytes × Bytes
receive_some n [] = (none, [])
receive_some n (x ∷ xs) = (some (take n (x ∷ xs)), drop n (x ∷ xs))

abbrev pub receiver : Receiver Bytes
receiver = record { recv = receive_some; stop_thread = λ w. false }

take-drop : (n : ℕ) (xs : Bytes) → xs ≡ take n xs ++ drop n xs
take-drop zero xs = refl
take-drop (suc n) [] = refl
take-drop (suc n) (x ∷ xs) = ap (◌∷◌ x) (take-drop n xs)

receive_some-progress :
    (n : ℕ) (w : Bytes)
    → 0 < n
    → 0 < length w
    → (bytes : Bytes) × ((receive_some n w).0 ≡ some bytes)
      × (0 < length bytes)
      × (length bytes ≤ n)
      × (w ≡ bytes ++ (receive_some n w).1)
unfolding receive_some
receive_some-progress n [] h k = ground (arith, k)
receive_some-progress n (x ∷ xs) h k = (
  take n (x ∷ xs),
  refl,
  omega (arith, length-take n (x ∷ xs)),
  omega (arith, length-take n (x ∷ xs)),
  take-drop n (x ∷ xs),
)

receive_some-together :
    (w size rest : Bytes)
    → length size ≡ 8
    → w ≡ size ++ rest
    → ((receive_some 8 w).0 ≡ some size) × ((receive_some 8 w).1 ≡ rest)
unfolding receive_some
receive_some-together [] [] rest h e = ground (arith, h)
receive_some-together [] (y ∷ size) rest h e = ground (arith, e)
receive_some-together (x ∷ xs) size rest h e = (
  ap some (ap (take 8) e ∙ ap (λ j. take j (size ++ rest)) (sym h) ∙ take_front size rest),
  ap (drop 8) e ∙ ap (λ j. drop j (size ++ rest)) (sym h) ∙ drop_all size rest,
)

pub receiver-IsStream : IsStream receiver (λ w. w)
receiver-IsStream = record {
  running = λ w. refl;
  progress = receive_some-progress;
  together = receive_some-together;
}

abbrev pub fresh : Connection Bytes
fresh = record { sent = []; kernel = [] }

publish_lem_example :
    (b : Bool) × (n : ℕ) × (d : Connection Bytes) × (publish sender true (7 ∷ 8 ∷ []) fresh
      ≡ ok b d)
    × (d.sent ≡ to_bytes 8 2 ++ take n (7 ∷ 8 ∷ []))
    × (((b ≡ false) × (n < 2)) ⊎ ((b ≡ true) × (n ≡ 2)))
unfolding to_bytes
publish_lem_example = publish_lem sender sender-IsSender (7 ∷ 8 ∷ []) fresh refl

abbrev messages : List Bytes
messages = (7 ∷ 8 ∷ []) ∷ [] ∷ (9 ∷ []) ∷ []

messages-AreShort : AreShort messages
unfolding AreShort
messages-AreShort = omega arith

published : publish_each sender messages fresh ≡ ok true (record fresh { sent = framed messages })
unfolding publish_each publish publish_opened send send_rest framed to_bytes
published = refl

tcp_link_example :
    (k : Bytes) × (listen_for_messages receiver 3
        (record { task_queue = []; kernel = framed messages })
      ≡ ok true (record { task_queue = messages; kernel = k }))
    × (k ≡ [])
tcp_link_example =
    tcp_link sender sender-IsSender sender-IsPrompt receiver (λ w. w) receiver-IsStream messages
      fresh (record fresh { sent = framed messages })
      (record { task_queue = []; kernel = framed messages }) messages-AreShort refl published refl

abbrev broken : Receiver Bytes
broken = record { recv = λ n w. (none, w); stop_thread = λ w. false }

closed_connection_example :
    (k : Bytes) × (listen_for_messages broken 5 (record { task_queue = messages; kernel = [] })
      ≡ ok true (record { task_queue = messages; kernel = k }))
closed_connection_example =
    closed_connection broken (λ w. refl) (λ w. refl) 5
      (record { task_queue = messages; kernel = [] })

abbrev moves : List Move
moves = emplace (7 ∷ []) ∷ emplace (8 ∷ []) ∷ take_task ∷ run_task 0 ∷ take_task ∷ new_message ∷ []

abbrev after : Pool
after = record { task_queue = []; taken = (8 ∷ []) ∷ []; messages = []; returned = (7 ∷ []) ∷ [] }

moved : (n : ℕ) → 1 ≤ n → steps n moves new_pool ≡ some after
unfolding steps step take_front_task take_front_message pick
moved n h = ground (arith, h)

steps-Perm_example : Perm (content after) (content new_pool ++ arrivals moves)
steps-Perm_example = steps-Perm 4 moves new_pool after (moved 4 (omega arith))

steps_in_order_example : content after ≡ content new_pool ++ arrivals moves
steps_in_order_example = steps_in_order moves new_pool after (omega arith) (moved 1 (omega arith))

overtaking_example :
    (overtaken : List Move) × (arrivals overtaken ≡ (7 ∷ []) ∷ (8 ∷ []) ∷ [])
    × (steps 4 overtaken new_pool
        ≡ some (record {
          task_queue = [];
          taken = [];
          messages = [];
          returned = (8 ∷ []) ∷ (7 ∷ []) ∷ [];
        }))
overtaking_example = overtaking 4 (7 ∷ []) (8 ∷ []) (omega arith)

-- Calls of which only `accept` fails; their state is the next descriptor.
abbrev calls : SocketCalls ℕ
calls = record {
  socket = λ k. (some k, suc k);
  bind = λ fd port k. (true, k);
  listen = λ fd k. (true, k);
  accept = λ fd k. (none, k);
  inet_pton = λ host. true;
  connect = λ fd host port k. (true, k);
  join_listen_thread = some;
  join_thread_pool = some;
}

abbrev sockets : Sockets ℕ
sockets = record { opened = 3 ∷ []; kernel = 4 }

sockets_closed_example :
    Closes calls (3 ∷ []) (iterator_life calls 6301 sockets)
    × Leaves (3 ∷ []) (publisher_life calls (49 ∷ []) 6301 sockets)
sockets_closed_example = sockets_closed calls (49 ∷ []) 6301 sockets
