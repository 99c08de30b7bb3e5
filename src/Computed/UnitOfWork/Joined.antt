-- ===== src/Computed/UnitOfWork/Joined.antt =====
-- Blocks within blocks are one unit of work.
use totem_backend.Base.{ℕ, suc, ◌<◌, ◌≡◌, refl, Bool, true, false, Option, some, List, [], arith}
use totem_backend.Computed.Depths.{compute_depths, depths}
use totem_backend.Computed.Refresh.{Schema, Store, Pending, Round, flush}
use totem_backend.Computed.Refresh.Deeper.{IsNaming}
use totem_backend.Computed.Refresh.Covered.{AllStale, is_refreshed}
use totem_backend.Computed.Refresh.Flushed.{deepest, IsRising, apply_rounds, flush_refreshes}
use totem_backend.Computed.UnitOfWork.{Block, done, write, inner, write_in, exit, run, fresh}

-- The writes of a block and of the blocks within it, in their order, without any refresh.
abbrev pub writes_of : {S : Type 0} → Block S → S × Pending → S × Pending
writes_of done p = p
writes_of (write step rest) p = writes_of rest (step p)
writes_of (inner raised block rest) p = writes_of rest (writes_of block p)

module _ (store : Store) (schema : Schema) (fuel : ℕ) where
  exit-inner :
      (raised : Bool) (p : store.State × Pending) (n : ℕ)
      → exit store schema fuel raised (write_in p (suc (suc n))) ≡ some (write_in p (suc n))
  unfolding exit
  exit-inner raised (s, pending) n = ground arith

  -- A block within another writes, and nothing is refreshed yet.
  run-writes_of :
      (block : Block store.State) (p : store.State × Pending) (n : ℕ)
      → run store schema fuel block (write_in p (suc n))
        ≡ some (write_in (writes_of block p) (suc n))
  unfolding run
  run-writes_of done p n = refl
  run-writes_of (write step rest) (s, pending) n = run-writes_of rest (step (s, pending)) n
  run-writes_of (inner raised block rest) (s, pending) n =
      rw
        (
          run-writes_of block (s, pending) (suc n),
          exit-inner raised (writes_of block (s, pending)) n,
        )
        (run-writes_of rest (writes_of block (s, pending)) n)

  exit-outer :
      (p : store.State × Pending) {rounds : List (Round store schema)} {last : store.State}
      → flush store schema fuel p.0 p.1 ≡ some (rounds, last)
      → exit store schema fuel false (write_in p 1) ≡ some (fresh store schema fuel last)
  unfolding exit
  exit-outer (s, pending) e = rw (e) refl

  exit-raised :
      (p : store.State × Pending)
      → exit store schema fuel true (write_in p 1) ≡ some (fresh store schema fuel p.0)
  unfolding exit
  exit-raised (s, pending) = refl

-- Blocks nested in any way are one unit of work. With more fuel than the greatest of the depths that
-- were computed for the bindings, the outermost block ends with nothing pending, after a single flush:
-- its rounds are of increasing depths, every field that a write of some block made stale on a row is
-- refreshed there, the writes of the blocks that raised within it included, and the database is left
-- as the writes and then these refreshes, one after the other, leave it. When the outermost
-- block raises, nothing is refreshed and nothing is left pending.
pub run-refreshes :
    (stored_fields : ℕ → ℕ → Option ℕ) (store : Store) (schema : Schema) (fuel : ℕ)
    (block : Block store.State) (s : store.State)
    → IsNaming stored_fields schema
    → compute_depths stored_fields schema.bindings ≡ depths schema.depth
    → deepest schema.depth < fuel
    → ((rounds : List (Round store schema)) × (last : store.State) × (flush store schema fuel
            (writes_of block (s, [])).0
            (writes_of block (s, [])).1
          ≡ some (rounds, last))
        × (run store schema fuel (inner false block done) (fresh store schema fuel s)
            ≡ some (fresh store schema fuel last))
        × IsRising store schema 0 rounds
        × AllStale
            (λ f pk. is_refreshed store schema f pk rounds ≡ true)
            (writes_of block (s, [])).1
        × (last ≡ apply_rounds store schema rounds (writes_of block (s, [])).0))
      × (run store schema fuel (inner true block done) (fresh store schema fuel s)
          ≡ some (fresh store schema fuel (writes_of block (s, [])).0))
unfolding run
run-refreshes stored_fields store schema fuel block s naming e enough =
    let p = writes_of block (s, []) in
    let (rounds, last, q, rising, refreshed, applied) =
      flush_refreshes stored_fields store schema fuel p.0 p.1 naming e enough in
    (
      (
        rounds,
        last,
        q,
        rw
            (
              run-writes_of store schema fuel block (s, []) 0,
              exit-outer store schema fuel p {rounds = rounds} q,
            )
            refl,
        rising,
        refreshed,
        applied,
      ),
      rw (run-writes_of store schema fuel block (s, []) 0, exit-raised store schema fuel p) refl,
    )
