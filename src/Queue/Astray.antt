-- ===== src/Queue/Astray.antt =====
-- `TraversalQueue` adds each link to the address of the message that holds it, but `PutOnSHM` makes
-- links relative to the front of the queue. The two agree for the front message alone.
use streaming_gateway.Prelude.{
  ℕ, suc, ◌+◌, ◌-◌, ◌++◌, ◌^◌, ◌≤◌, ◌<◌, ◌≡◌, ◌∙◌, List, [], ◌∷◌, Bytes, arith, length,
}
use mathlib.Core.Path.{subst}
use streaming_gateway.Manager.{SharedMemoryInfo}
use streaming_gateway.Queue.{World, ptr_on_data_length, ptr_on_next}
use streaming_gateway.Queue.Access.{load64}
use streaming_gateway.Queue.Join.{traversal_loop}
use streaming_gateway.Queue.Ready.{IsReady, mapped}
use streaming_gateway.Queue.Shape.{IsMessage, Laid}

module _ {region_name : Bytes} {info : SharedMemoryInfo} (w : World)
    (r : IsReady w.manager region_name info) where
  open info use {mapped_addr as base, byte_size as size}

  -- One round of the loop at a message
  traversal_step :
      (fuel max_offset start distance next further : ℕ) (x : Bytes) (addresses : List ℕ)
      → IsMessage w.cells (base + 32) start x
      → base + 32 ≤ start
      → start + 17 + length x ≤ base + size
      → distance + 17 + length x < max_offset
      → max_offset < 2 ^ 62
      → next ≡ start + (start + 17 + length x - (base + 32))
      → further ≡ distance + 17 + length x
      → traversal_loop (suc fuel) max_offset start distance addresses w
        ≡ traversal_loop fuel max_offset next further (addresses ++ (start ∷ [])) w
  unfolding traversal_loop load64
  traversal_step fuel max_offset start distance next further x addresses m low high more small to
        by =
      ground (
        arith,
        r.high,
        m.size,
        m.link,
        mapped r (ptr_on_data_length start) 8,
        mapped r (ptr_on_next start) 8,
      )

  -- Behind the first two messages, of sizes `s` and `t`, the loop stands at a distance of `2 * s + t`
  -- from the front; the third message stands at `s + t`.
  pub traversal_astray :
      (fuel max_offset stop : ℕ) (x y : Bytes)
      → Laid w.cells (base + 32) (base + 32) (x ∷ y ∷ []) stop
      → stop ≤ base + size
      → 34 + length x + length y < max_offset
      → max_offset < 2 ^ 62
      → traversal_loop (suc (suc fuel)) max_offset (base + 32) 0 [] w
        ≡ traversal_loop fuel max_offset
            (stop + (17 + length x))
            (34 + length x + length y)
            ((base + 32) ∷ (base + 49 + length x) ∷ [])
            w
  traversal_astray fuel max_offset stop x y (m, (n, e)) inside more small =
      traversal_step (suc fuel) max_offset (base + 32) 0 (base + 49 + length x) (17 + length x) x []
        m (omega arith) (omega arith) (omega arith) small (omega arith) (omega arith)
      ∙ traversal_step fuel max_offset (base + 49 + length x) (17 + length x)
          (stop + (17 + length x)) (34 + length x + length y) y ((base + 32) ∷ [])
          (subst (λ p. IsMessage w.cells (base + 32) p y) (omega arith) n) (omega arith)
          (omega arith) (omega arith) small (omega arith) (omega arith)
