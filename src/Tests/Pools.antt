-- ===== src/Tests/Pools.antt =====
-- src/engine/bucket.rs: the theorems on overlapping calls at concrete pools.
use matchmaker.Base.{ℕ, ◌≡◌, ◌⊎◌, refl, false, some, List, [], ◌∷◌, arith, In}
use matchmaker.Models.Player
use matchmaker.Models.Player.{Uuid}
use matchmaker.Models.Memory.{Ref, Heap}
use matchmaker.Engine.Bucket
use matchmaker.Engine.Bucket.{PlayerPool, key_of, get, contains, range_scan}
use matchmaker.Engine.Bucket.Index.{Entry}
use matchmaker.Engine.Bucket.Invariant.{new-IsPool}
use matchmaker.Engine.Bucket.Steps.{
  nothing, adds, Tasks, Step, inserts, removes, returns, quiet, run,
}
use matchmaker.Engine.Bucket.Steps.Agree.{run-listed}
use matchmaker.Engine.Bucket.Steps.Lost.{lost_entry}
use matchmaker.Tests.AssocMap.{assoc_map}

-- Every player has its own identifier.
abbrev visitors : Heap
visitors r = Player.new r 1500 1000

-- Every player has the same identifier and rating.
abbrev twins : Heap
twins r = Player.new 7 1500 1000

abbrev one_twin : PlayerPool assoc_map
one_twin = Bucket.insert assoc_map twins 1 (Bucket.new assoc_map)

-- Task 1 inserts a player and takes it out again while task 0 is between its two steps.
abbrev overlapping : List Step
overlapping = inserts 0 11 ∷ inserts 1 12 ∷ returns 1 ∷ removes 1 12 ∷ returns 0 ∷ returns 1 ∷ []

run-listed_example :
    ((visitors 11).id ≡ 11)
    × (Entry
          (key_of assoc_map visitors 11)
          11
          (run assoc_map visitors overlapping (quiet assoc_map (Bucket.new assoc_map))).pool.index
        ⊎ ((i : ℕ) × ((run assoc_map visitors overlapping
                  (quiet assoc_map (Bucket.new assoc_map))).pending
                i
              ≡ adds 11)))
unfolding run matchmaker.Engine.Bucket.Steps.step matchmaker.Engine.Bucket.new
run-listed_example =
    run-listed assoc_map visitors (Bucket.new assoc_map) (new-IsPool assoc_map visitors) overlapping
      (refl, (refl, tt)) (λ id r e. absurd (ground arith)) 11 11 refl

-- Task 0 has taken player 1 from the map.
abbrev taken : Tasks assoc_map
taken = run assoc_map twins (removes 0 7 ∷ []) (quiet assoc_map one_twin)

-- Task 1 inserts player 2, then task 0 writes the index.
abbrev crossed : Tasks assoc_map
crossed = run assoc_map twins (inserts 1 2 ∷ returns 1 ∷ returns 0 ∷ []) taken

lost_entry_example :
    (contains assoc_map 7 taken.pool ≡ false)
    × ((t : ℕ) → crossed.pending t ≡ nothing)
    × (get assoc_map 7 crossed.pool ≡ some 2)
    × ((heap : Heap) (held : List Ref) (least most : ℕ) (rs : List Ref)
        → range_scan assoc_map heap held crossed.pool least most ≡ some rs
        → ¬ In 2 rs)
unfolding matchmaker.Engine.Bucket.insert matchmaker.Engine.Bucket.new
    matchmaker.Engine.Bucket.Index.index_insert
lost_entry_example =
    lost_entry assoc_map twins one_twin 1 2 0 1 refl refl refl refl (λ m. ground arith)
