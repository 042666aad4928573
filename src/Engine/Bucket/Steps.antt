-- ===== src/Engine/Bucket/Steps.antt =====
-- src/engine/bucket.rs: `insert` and `remove` touch the map and the index under different locks; the
-- tasks that call them take turns between the two.
pub mod Alone
pub mod Open
pub mod Agree
pub mod Lost
use matchmaker.Base.{
  ℕ, ◌≡◌, refl, ap, sym, ◌∙◌, none, some, List, [], ◌∷◌, ◌==◌, if◌then◌else◌, Option-cases, inl,
  inr,
}
use matchmaker.Models.Player.{Uuid}
use matchmaker.Models.Memory.{Ref, Heap}
use matchmaker.Engine.Bucket.Store.{ConcurrentMap}
use matchmaker.Engine.Bucket.Index.{Key, index_insert, index_remove}
use matchmaker.Engine.Bucket.{PlayerPool, key_of, insert, remove, get}

-- What a task has still to do to the index.
pub data Pending : Type 0 where
  nothing : Pending
  adds : (r : Ref) → Pending
  drops : (k : Key) → Pending

-- A task calls `insert`, a task calls `remove`, a task writes the index and returns.
pub data Step : Type 0 where
  inserts : (i : ℕ) (r : Ref) → Step
  removes : (i : ℕ) (id : Uuid) → Step
  returns : (i : ℕ) → Step

module _ (S : ConcurrentMap) where
  pub record Tasks : Type 0 where
    pub pool : PlayerPool S
    pub pending : ℕ → Pending

  abbrev pub now_pending : ℕ → Pending → (ℕ → Pending) → ℕ → Pending
  now_pending i p pending j = if i == j then p else pending j

  module _ (heap : Heap) where
    abbrev pub insert_begin : ℕ → Ref → Tasks → Pending → Tasks
    insert_begin i r w nothing = record {
      pool = record w.pool { primary = S.insert (heap r).id r w.pool.primary };
      pending = now_pending i (adds r) w.pending;
    }
    insert_begin i r w p = w

    abbrev pub remove_begin : ℕ → Uuid → Tasks → Pending → Tasks
    remove_begin i id w nothing = elim (S.get id w.pool.primary) [
      | none ↦ w
      | some r ↦ record {
        pool = record w.pool { primary = S.remove id w.pool.primary };
        pending = now_pending i (drops (key_of S heap r)) w.pending;
      }
    ]
    remove_begin i id w p = w

    abbrev pub finish : ℕ → Tasks → Pending → Tasks
    finish i w nothing = w
    finish i w (adds r) = record {
      pool = record w.pool { index = index_insert (key_of S heap r) r w.pool.index };
      pending = now_pending i nothing w.pending;
    }
    finish i w (drops k) = record {
      pool = record w.pool { index = index_remove k w.pool.index };
      pending = now_pending i nothing w.pending;
    }

    -- A call by a task that is already in one does not happen.
    unfoldable pub step : Step → Tasks → Tasks
    step (inserts i r) w = insert_begin i r w (w.pending i)
    step (removes i id) w = remove_begin i id w (w.pending i)
    step (returns i) w = finish i w (w.pending i)

    unfoldable pub run : List Step → Tasks → Tasks
    run [] w = w
    run (s ∷ ss) w = run ss (step s w)

  abbrev pub quiet : PlayerPool S → Tasks
  quiet pool = record { pool = pool; pending = λ i. nothing }
