-- ===== src/Queue/LockTests.antt =====
-- Two processes at the lock, at a concrete input.
use streaming_gateway.Prelude.{ℕ, ◌≡◌, ◌≢◌, refl, [], ◌∷◌}
use streaming_gateway.Memory.{write, write_bytes}
use streaming_gateway.Queue.Metric.{test_and_set}
use streaming_gateway.Queue.Lock.{
  System, outside, spinning, inside, moved_to, fresh_metric, Moves, calls, tries, enters, IsLocking,
  Reaches, stays, goes, Quiet,
}
use streaming_gateway.Queue.Lock.Exclusion.{lock_excludes}
use streaming_gateway.Queue.Lock.Initialized.{initialized_inside}

abbrev at_first : System
at_first = record { cells = λ _. 0; phase = λ _. outside }

-- The process 0 is inside, and the process 1 has tried once.
abbrev contended : System
contended = record {
  cells = write_bytes (write_bytes (λ _. 0) 4096 (1 ∷ [])) 4096 (1 ∷ []);
  phase = moved_to 0 inside (moved_to 1 spinning (moved_to 0 spinning (λ _. outside)));
}

unfoldable contended-Reaches : Reaches 4096 at_first contended
unfolding test_and_set write_bytes write
contended-Reaches =
    goes {p = 1}
      (goes {p = 0} (goes {p = 1} (goes {p = 0} stays (calls refl)) (calls refl))
        (enters refl refl))
      (tries refl refl)

contended-Quiet : Quiet contended-Reaches
unfolding contended-Reaches Quiet IsLocking
contended-Quiet = ((((tt, tt), tt), tt), tt)

lock_excludes_example :
    ((p q : ℕ) → contended.phase p ≡ inside → contended.phase q ≡ inside → p ≡ q)
    × ((p : ℕ)
        → contended.phase p ≡ spinning
        → ((q : ℕ) → contended.phase q ≢ inside)
        → (u : System) × (move : Moves 4096 p contended u) × IsLocking move × (u.phase p ≡ inside))
lock_excludes_example = lock_excludes refl (λ q. refl) contended-Reaches contended-Quiet

initialized_inside_example :
    (u : System) × Reaches 4096 contended u
    × (u.cells ≡ (test_and_set 4096 (fresh_metric 4096 contended.cells)).1)
    × (u.phase 0 ≡ inside)
    × (u.phase 2 ≡ inside)
initialized_inside_example = initialized_inside 0 2 contended refl refl
