-- ===== src/Tcp/Order.antt =====
-- No message is lost or doubled between the threads.
use mathlib.Core.Path.{subst, subst₂}
use mathlib.Core.List.{Perm, perm_middle}
use mathlib.Core.List.Perm
use streaming_gateway.Prelude.{
  ℕ, zero, suc, ◌≡◌, refl, sym, ap, ◌∙◌, some, List, [], ◌∷◌, ◌++◌, Bytes, length, ltb,
  append_assoc, append-nil, Option-cases, Bool-cases, inl, inr, arith,
}
use streaming_gateway.Tcp.Pool.{
  Pool, Move, emplace, take_task, run_task, new_message, take_front_task, pick, take_front_message,
  step, steps, arrivals,
}

-- All messages there are, the oldest step of their way last
abbrev pub content : Pool → List Bytes
content p = p.returned ++ (p.messages ++ (p.taken ++ p.task_queue))

-- The first of some moves, and the others
pub steps_split :
    (n : ℕ) (move : Move) (moves : List Move) (p q : Pool)
    → steps n (move ∷ moves) p ≡ some q
    → (r : Pool) × (step n move p ≡ some r) × (steps n moves r ≡ some q)
unfolding steps
steps_split n move moves p q h = elim (Option-cases (step n move p)) [
  | inl e ↦ ground (arith, e, h)
  | inr (r, e) ↦ (r, e, ground (arith, e, h))
]

pub take_front_task-content :
    (task_queue : List Bytes) (p q : Pool)
    → p.task_queue ≡ task_queue
    → take_front_task task_queue p ≡ some q
    → content q ≡ content p
unfolding take_front_task
take_front_task-content [] p q e h = cc h
take_front_task-content (m ∷ rest) p q e h =
    let r : Pool = record p { task_queue = rest; taken = p.taken ++ (m ∷ []) } in
    let same : r ≡ q = cc h in
    ap content (sym same)
    ∙ ap (λ xs. p.returned ++ (p.messages ++ xs))
        (append_assoc p.taken (m ∷ []) rest ∙ ap (◌++◌ p.taken) (sym e))

pub take_front_message-content :
    (messages : List Bytes) (p q : Pool)
    → p.messages ≡ messages
    → take_front_message messages p ≡ some q
    → content q ≡ content p
unfolding take_front_message
take_front_message-content [] p q e h = cc h
take_front_message-content (m ∷ rest) p q e h =
    let r : Pool = record p { messages = rest; returned = p.returned ++ (m ∷ []) } in
    let same : r ≡ q = cc h in
    let others = p.taken ++ p.task_queue in
    ap content (sym same)
    ∙ append_assoc p.returned (m ∷ []) (rest ++ others)
    ∙ ap (λ xs. p.returned ++ (xs ++ others)) (sym e)

pub pick_split :
    (i : ℕ) (taken : List Bytes) (m : Bytes) (others : List Bytes)
    → pick i taken ≡ some (m, others)
    → (front back : List Bytes) × (taken ≡ front ++ (m ∷ back)) × (others ≡ front ++ back)
unfolding pick
pick_split i [] m others h = cc h
pick_split zero (x ∷ xs) m others h = ([], xs, cc h, cc h)
pick_split (suc i) (x ∷ xs) m others h = elim (Option-cases (pick i xs)) [
  | inl e ↦ ground (arith, e, h)
  | inr ((y, ys), e) ↦
      let (front, back, a, b) = pick_split i xs y ys e in
      let same : y ≡ m = ground (arith, e, h) in
      let left : x ∷ ys ≡ others = ground (arith, e, h) in
      (
        x ∷ front,
        back,
        ap (◌∷◌ x) a ∙ ap (λ z. x ∷ (front ++ (z ∷ back))) same,
        sym left ∙ ap (◌∷◌ x) b,
      )
]

-- What a move brings in
abbrev pub arrival : Move → List Bytes
arrival move = arrivals (move ∷ [])

pub emplace-content :
    (m : Bytes) (p : Pool)
    → content (record p { task_queue = p.task_queue ++ (m ∷ []) }) ≡ content p ++ (m ∷ [])
emplace-content m p = simp append_assoc

-- A task that is run changes its place among the messages.
pub run_task-content :
    (i : ℕ) (m : Bytes) (others : List Bytes) (p : Pool)
    → pick i p.taken ≡ some (m, others)
    → Perm (content (record p { taken = others; messages = p.messages ++ (m ∷ []) })) (content p)
run_task-content i m others p e =
    let (front, back, a, b) = pick_split i p.taken m others e in
    let rest = back ++ p.task_queue in
    let new : content (record p { taken = others; messages = p.messages ++ (m ∷ []) })
        ≡ p.returned ++ (p.messages ++ (m ∷ (front ++ rest))) =
      ap (λ xs. p.returned ++ ((p.messages ++ (m ∷ [])) ++ (xs ++ p.task_queue))) b
      ∙ simp append_assoc in
    let old : p.returned ++ (p.messages ++ (front ++ (m ∷ rest))) ≡ content p =
      sym (ap (λ xs. p.returned ++ (p.messages ++ (xs ++ p.task_queue))) a ∙ simp append_assoc) in
    subst₂ Perm (sym new) old (
      Perm.append_left p.returned
        (Perm.append_left p.messages (Perm.symm (perm_middle front rest))))

pub Perm-eq : {xs ys : List Bytes} → xs ≡ ys → Perm xs ys
Perm-eq {xs} e = subst (Perm xs) e (Perm.refl xs)

step-Perm :
    (n : ℕ) (move : Move) (p q : Pool)
    → step n move p ≡ some q
    → Perm (content q) (content p ++ arrivals (move ∷ []))
unfolding step arrivals
step-Perm n (emplace m) p q h =
    let r : Pool = record p { task_queue = p.task_queue ++ (m ∷ []) } in
    let same : r ≡ q = cc h in Perm-eq (ap content (sym same) ∙ emplace-content m p)
step-Perm n take_task p q h = elim (Bool-cases (ltb (length p.taken) n)) [
  | inl e ↦ Perm-eq (
      take_front_task-content p.task_queue p q refl (ground (arith, e, h))
      ∙ sym (append-nil (content p)))
  | inr e ↦ ground (arith, e, h)
]
step-Perm n (run_task i) p q h = elim (Option-cases (pick i p.taken)) [
  | inl e ↦ ground (arith, e, h)
  | inr ((m, others), e) ↦
      let r : Pool = record p { taken = others; messages = p.messages ++ (m ∷ []) } in
      let same : r ≡ q = ground (arith, e, h) in
      subst₂ Perm (ap content same) (sym (append-nil (content p))) (run_task-content i m others p e)
]
step-Perm n new_message p q h =
    Perm-eq (take_front_message-content p.messages p q refl h ∙ sym (append-nil (content p)))

pub arrivals-cons :
    (move : Move) (moves : List Move)
    → arrivals (move ∷ moves) ≡ arrivals (move ∷ []) ++ arrivals moves
unfolding arrivals
arrivals-cons (emplace m) moves = refl
arrivals-cons take_task moves = refl
arrivals-cons (run_task i) moves = refl
arrivals-cons new_message moves = refl

-- Whatever the threads do, the messages that have been returned and those still on their way are
-- the ones that were there and have arrived: none is lost, and none comes twice.
pub steps-Perm :
    (n : ℕ) (moves : List Move) (p q : Pool)
    → steps n moves p ≡ some q
    → Perm (content q) (content p ++ arrivals moves)
unfolding steps arrivals
steps-Perm n [] p q h =
    let same : p ≡ q = cc h in Perm-eq (ap content (sym same) ∙ sym (append-nil (content p)))
steps-Perm n (move ∷ moves) p q h =
    let (r, e, h') = steps_split n move moves p q h in
    let one = step-Perm n move p r e in
    let others = steps-Perm n moves r q h' in
    subst (Perm (content q))
      (append_assoc (content p) (arrivals (move ∷ [])) (arrivals moves)
        ∙ ap (◌++◌ (content p)) (sym (arrivals-cons move moves)))
      (Perm.trans others (Perm.append_right (arrivals moves) one))
