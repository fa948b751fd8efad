-- ===== src/Queue/Lock/Exclusion.antt =====
-- The lock of `QueueMetric` keeps processes apart as long as none initializes the queue.
use streaming_gateway.Prelude.{
  ℕ, ◌≡◌, ◌≢◌, ◌∙◌, sym, ap, false, ◌⊎◌, inl, inr, arith, ◌==◌, Bool-cases,
}
use streaming_gateway.Memory.Laws.{write_bytes_one}
use streaming_gateway.Queue.Metric.{test_and_set}
use streaming_gateway.Queue.Lock.{
  Phase, outside, spinning, inside, System, moved_to, cleared, Moves, calls, tries, enters, stores,
  leaves, initializes, IsLocking, Reaches, stays, goes, Quiet, moved_to-same, moved_to-other,
  outside≢inside,
}

-- The flag is clear and no process is inside, or it is set and one is.
data Excludes (metric : ℕ) (s : System) : Type 0 where
  free : s.cells metric ≡ 0 → ((p : ℕ) → s.phase p ≢ inside) → Excludes metric s
  held :
      (p : ℕ)
      → s.cells metric ≡ 1
      → s.phase p ≡ inside
      → ((q : ℕ) → s.phase q ≡ inside → q ≡ p)
      → Excludes metric s

same_or_other : (p q : ℕ) → (p ≡ q) ⊎ (p ≢ q)
same_or_other p q = elim (Bool-cases (p == q)) [
  | inl e ↦ inl (ground (arith, e))
  | inr e ↦ inr (ground (arith, e))
]

-- A process that is inside after another phase was written was inside, and is another one.
still_inside :
    (p q : ℕ) (x : Phase) (phase : ℕ → Phase)
    → x ≢ inside
    → moved_to p x phase q ≡ inside
    → (phase q ≡ inside) × (p ≢ q)
still_inside p q x phase h e = elim (same_or_other p q) [
  | inl same ↦ absurd (h (sym (moved_to-same p x phase) ∙ ap (moved_to p x phase) same ∙ e))
  | inr other ↦ (sym (moved_to-other p q x phase other) ∙ e, other)
]

spinning≢inside : spinning ≢ inside
spinning≢inside e = cc e

calls-Excludes :
    {metric : ℕ} (p : ℕ) (s : System)
    → s.phase p ≡ outside
    → Excludes metric s
    → Excludes metric (record s { phase = moved_to p spinning s.phase })
calls-Excludes p s out (free e none) =
    free e (λ q there. none q (still_inside p q spinning s.phase spinning≢inside there).0)
calls-Excludes p s out (held r e here only) =
    held r e
      (moved_to-other p r spinning s.phase
          (λ same. outside≢inside (sym out ∙ ap s.phase same ∙ here))
        ∙ here)
      (λ q there. only q (still_inside p q spinning s.phase spinning≢inside there).0)

enters-Excludes :
    {metric : ℕ} (p : ℕ) (s : System)
    → (test_and_set metric s.cells).0 ≡ false
    → Excludes metric s
    → Excludes metric
        (record { cells = (test_and_set metric s.cells).1; phase = moved_to p inside s.phase })
unfolding test_and_set
enters-Excludes {metric} p s clear (free e none) =
    held p (write_bytes_one s.cells metric 1) (moved_to-same p inside s.phase) (λ q there.
      elim (same_or_other p q) [
        | inl same ↦ sym same
        | inr other ↦ absurd (none q (sym (moved_to-other p q inside s.phase other) ∙ there))
      ])
enters-Excludes p s clear (held r e here only) = ground (arith, clear, e)

-- A step that is not an `InitializeQueue` keeps the invariant.
Moves-Excludes :
    {metric p : ℕ} {s t : System} (move : Moves metric p s t)
    → IsLocking move
    → Excludes metric s
    → Excludes metric t
unfolding test_and_set cleared IsLocking
Moves-Excludes {p} {s} (calls out) _ h = calls-Excludes p s out h
Moves-Excludes (tries spins set) _ (free e none) = ground (arith, set, e)
Moves-Excludes {metric} {s} (tries spins set) _ (held r e here only) =
    held r (write_bytes_one s.cells metric 1) here only
Moves-Excludes {metric} {p} {s} (enters spins clear) _ h = enters-Excludes p s clear h
Moves-Excludes {p} (stores c in_it same) _ (free e none) = absurd (none p in_it)
Moves-Excludes (stores c in_it same) _ (held r e here only) = held r (same ∙ e) here only
Moves-Excludes {p} (leaves in_it) _ (free e none) = absurd (none p in_it)
Moves-Excludes {metric} {p} {s} (leaves in_it) _ (held r e here only) =
    free (write_bytes_one s.cells metric 0) (λ q there.
      let (was, other) = still_inside p q outside s.phase outside≢inside there in
      other (only p in_it ∙ sym (only q was)))
Moves-Excludes (initializes out) impossible h = absurd impossible

Reaches-Excludes :
    {metric : ℕ} {s t : System} (run : Reaches metric s t)
    → Quiet run
    → Excludes metric s
    → Excludes metric t
unfolding Quiet
Reaches-Excludes stays _ h = h
Reaches-Excludes (goes before move) (quiet, locking) h =
    Moves-Excludes move locking (Reaches-Excludes before quiet h)

-- With a clear flag the next try of a process that is in the loop succeeds.
can_enter :
    {metric : ℕ} (p : ℕ) (t : System)
    → t.cells metric ≡ 0
    → t.phase p ≡ spinning
    → (u : System) × (move : Moves metric p t u) × IsLocking move × (u.phase p ≡ inside)
unfolding test_and_set IsLocking
can_enter p t clear spins =
    (_, enters spins (ground (arith, clear)), tt, moved_to-same p inside t.phase)

-- From a clear flag with every process outside, whatever steps the processes make, none of which is
-- an `InitializeQueue`: at most one of them is between `Acquire` and `Unlock`, and while none is,
-- the next try of any process that is in the loop of `Acquire` succeeds.
pub lock_excludes :
    {metric : ℕ} {s t : System}
    → s.cells metric ≡ 0
    → ((q : ℕ) → s.phase q ≡ outside)
    → (run : Reaches metric s t) → Quiet run
    → ((p q : ℕ) → t.phase p ≡ inside → t.phase q ≡ inside → p ≡ q)
      × ((p : ℕ)
          → t.phase p ≡ spinning
          → ((q : ℕ) → t.phase q ≢ inside)
          → (u : System) × (move : Moves metric p t u) × IsLocking move × (u.phase p ≡ inside))
lock_excludes {metric} {t} clear out run quiet =
    by (Reaches-Excludes run quiet (free clear (λ q e. outside≢inside (sym (out q) ∙ e))))
  where
    by :
        Excludes metric t
        → ((p q : ℕ) → t.phase p ≡ inside → t.phase q ≡ inside → p ≡ q)
          × ((p : ℕ)
              → t.phase p ≡ spinning
              → ((q : ℕ) → t.phase q ≢ inside)
              → (u : System) × (move : Moves metric p t u) × IsLocking move × (u.phase p ≡ inside))
    by (free e none) =
        (λ p q in_it in_it'. absurd (none p in_it), λ p spins _. can_enter p t e spins)
    by (held r e there only) = (
      λ p q in_it in_it'. only p in_it ∙ sym (only q in_it'),
      λ p spins none'. absurd (none' r there),
    )
