-- ===== src/Tcp/InOrder.antt =====
-- One worker keeps the order of the messages; several do not.
use mathlib.Core.Path.{subst}
use streaming_gateway.Prelude.{
  ℕ, zero, suc, ◌≤◌, ◌≡◌, refl, sym, ap, ◌∙◌, some, List, [], ◌∷◌, ◌++◌, Bytes, length, ltb,
  append_assoc, append-nil, length-append, Option-cases, Bool-cases, inl, inr, arith,
}
use streaming_gateway.Tcp.Pool.{
  Pool, new_pool, Move, emplace, take_task, run_task, new_message, take_front_task, pick,
  take_front_message, step, steps, arrivals,
}
use streaming_gateway.Tcp.Order.{
  content, steps_split, take_front_task-content, take_front_message-content, emplace-content,
  arrivals-cons,
}

taken_by :
    (task_queue : List Bytes) (p q : Pool)
    → take_front_task task_queue p ≡ some q
    → length q.taken ≡ suc (length p.taken)
unfolding take_front_task
taken_by [] p q h = cc h
taken_by (m ∷ rest) p q h =
    let r : Pool = record p { task_queue = rest; taken = p.taken ++ (m ∷ []) } in
    let same : r ≡ q = cc h in
    ap (λ x. length x.taken) (sym same) ∙ omega (arith, length-append p.taken (m ∷ []))

left_alone :
    (messages : List Bytes) (p q : Pool)
    → take_front_message messages p ≡ some q
    → q.taken ≡ p.taken
unfolding take_front_message
left_alone [] p q h = cc h
left_alone (m ∷ rest) p q h =
    let r : Pool = record p { messages = rest; returned = p.returned ++ (m ∷ []) } in
    let same : r ≡ q = cc h in ap (λ x. x.taken) (sym same)

-- one task among those taken is the only one
picked_alone :
    (i : ℕ) (taken : List Bytes) (m : Bytes) (others : List Bytes)
    → pick i taken ≡ some (m, others)
    → length taken ≤ 1
    → (taken ≡ m ∷ []) × (others ≡ [])
unfolding pick
picked_alone i [] m others h few = cc h
picked_alone zero (x ∷ []) m others h few = (cc h, cc h)
picked_alone (suc i) (x ∷ []) m others h few = cc h
picked_alone i (x ∷ y ∷ taken) m others h few = ground (arith, few)

one_step :
    (move : Move) (p q : Pool)
    → length p.taken ≤ 1
    → step 1 move p ≡ some q
    → (content q ≡ content p ++ arrivals (move ∷ [])) × (length q.taken ≤ 1)
unfolding step arrivals
one_step (emplace m) p q few h =
    let r : Pool = record p { task_queue = p.task_queue ++ (m ∷ []) } in
    let same : r ≡ q = cc h in
    (ap content (sym same) ∙ emplace-content m p, subst (λ x. length x.taken ≤ 1) same few)
one_step take_task p q few h = elim (Bool-cases (ltb (length p.taken) 1)) [
  | inl e ↦ (
    take_front_task-content p.task_queue p q refl (ground (arith, e, h))
        ∙ sym (append-nil (content p)),
    ground (arith, e, taken_by p.task_queue p q (ground (arith, e, h))),
  )
  | inr e ↦ ground (arith, e, h)
]
one_step (run_task i) p q few h = elim (Option-cases (pick i p.taken)) [
  | inl e ↦ ground (arith, e, h)
  | inr ((m, others), e) ↦
      let r : Pool = record p { taken = others; messages = p.messages ++ (m ∷ []) } in
      let same : r ≡ q = ground (arith, e, h) in
      let (alone, empty) = picked_alone i p.taken m others e few in
      (
        ap content (sym same)
            ∙ ap (λ xs. p.returned ++ ((p.messages ++ (m ∷ [])) ++ (xs ++ p.task_queue))) empty
            ∙ (simp append_assoc)
            ∙ ap (λ xs. p.returned ++ (p.messages ++ (xs ++ p.task_queue))) (sym alone)
            ∙ sym (append-nil (content p)),
        subst (λ x. length x.taken ≤ 1) same (omega (arith, ap length empty)),
      )
]
one_step new_message p q few h = (
  take_front_message-content p.messages p q refl h ∙ sym (append-nil (content p)),
  omega (arith, ap length (left_alone p.messages p q h)),
)

-- One worker that has taken one task at most keeps the order of arrival.
pub steps_in_order :
    (moves : List Move) (p q : Pool)
    → length p.taken ≤ 1
    → steps 1 moves p ≡ some q
    → content q ≡ content p ++ arrivals moves
unfolding steps arrivals
steps_in_order [] p q few h =
    let same : p ≡ q = cc h in ap content (sym same) ∙ sym (append-nil (content p))
steps_in_order (move ∷ moves) p q few h =
    let (r, e, h') = steps_split 1 move moves p q h in
    let (one, few') = one_step move p r few e in
    steps_in_order moves r q few' h'
    ∙ ap (λ xs. xs ++ arrivals moves) one
    ∙ append_assoc (content p) (arrivals (move ∷ [])) (arrivals moves)
    ∙ ap (◌++◌ (content p)) (sym (arrivals-cons move moves))

-- With two workers or more, a message can overtake the one before it, whatever the two are.
pub overtaking :
    (n : ℕ) (a b : Bytes)
    → 2 ≤ n
    → (moves : List Move) × (arrivals moves ≡ a ∷ b ∷ [])
      × (steps n moves new_pool
          ≡ some (record { task_queue = []; taken = []; messages = []; returned = b ∷ a ∷ [] }))
unfolding arrivals steps step take_front_task pick take_front_message
overtaking n a b h = (
  emplace a
      ∷ emplace b
      ∷ take_task
      ∷ take_task
      ∷ run_task 1
      ∷ run_task 0
      ∷ new_message
      ∷ new_message
      ∷ [],
  refl,
  ground (arith, h),
)
