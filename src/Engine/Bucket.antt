-- ===== src/Engine/Bucket.antt =====
-- src/engine/bucket.rs: `PlayerPool`, the map from identifiers and the index by rating, and its
-- operations, each with no other task between its two structures; `Steps` lets tasks in between.
pub mod Store
pub mod Index
pub mod Invariant
pub mod Order
pub mod Sorted
pub mod Lowest
pub mod Scan
pub mod Seeds
pub mod Listed
pub mod Steps
use matchmaker.Base.{
  ℕ, ◌-◌, ◌^◌, min, Bool, true, false, ◌&&◌, ◌||◌, not, Option, none, some, List, [], ◌∷◌, map, ltb,
  leb, ◌==◌, if◌then◌else◌, keep,
}
use matchmaker.Models.Player.{Uuid, Player, waiting, is_waiting}
use matchmaker.Models.Memory.{Ref, Heap, is_held}
use Store.{ConcurrentMap}
use Index.{RatingIndex, Key, index_insert, index_remove, range}

abbrev pub max_candidates_per_scan : ℕ
max_candidates_per_scan = 200

abbrev pub max_skill_rating : ℕ
max_skill_rating = 3000

abbrev pub uuid_nil : Uuid
uuid_nil = 0

abbrev pub uuid_max : Uuid
uuid_max = 2 ^ 128 - 1

-- The order of the candidates and of the seeds: by time of joining, rating, identifier.
abbrev pub older : Player → Player → Bool
older a b =
    ltb a.join_timestamp b.join_timestamp
    || (a.join_timestamp == b.join_timestamp
        && (ltb a.skill_rating b.skill_rating
            || (a.skill_rating == b.skill_rating && ltb a.id b.id)))

-- The standard library's sort by a total order.
unfoldable pub insert_by : Heap → Ref → List Ref → List Ref
insert_by heap r [] = r ∷ []
insert_by heap r (q ∷ qs) =
    let later = insert_by heap r qs in if older (heap q) (heap r) then q ∷ later else r ∷ q ∷ qs

unfoldable pub sort_by_age : Heap → List Ref → List Ref
sort_by_age heap [] = []
sort_by_age heap (r ∷ rs) = insert_by heap r (sort_by_age heap rs)

-- The loop of `range_scan`: the references that can be upgraded and whose player is Waiting, until
-- `room` of them are found.
unfoldable pub collect : (Ref → Bool) → Heap → ℕ → RatingIndex → List Ref
collect alive heap room [] = []
collect alive heap room ((k, r) ∷ es) =
    let more = collect alive heap (room - 1) es in
    let skip = collect alive heap room es in
    if alive r && (heap r).state == waiting then (if leb room 1 then r ∷ [] else r ∷ more) else skip

-- `Iterator::min_by`: the first of the least elements.
unfoldable pub oldest_from : Heap → Ref → List Ref → Ref
oldest_from heap best [] = best
oldest_from heap best (q ∷ qs) =
    oldest_from heap (if older (heap q) (heap best) then q else best) qs

unfoldable pub oldest_of : Heap → List Ref → Option Ref
oldest_of heap [] = none
oldest_of heap (r ∷ rs) = some (oldest_from heap r rs)

pub record PlayerPool (S : ConcurrentMap) : Type 0 where
  pub primary : S.Map
  pub index : RatingIndex

module _ (S : ConcurrentMap) where
  unfoldable pub new : PlayerPool S
  new = record { primary = S.new; index = [] }

  abbrev pub key_of : Heap → Ref → Key
  key_of heap r = ((heap r).skill_rating, (heap r).id)

  unfoldable pub insert : Heap → Ref → PlayerPool S → PlayerPool S
  insert heap r pool = record {
    primary = S.insert (heap r).id r pool.primary;
    index = index_insert (key_of heap r) r pool.index;
  }

  unfoldable pub remove : Heap → Uuid → PlayerPool S → Option Ref × PlayerPool S
  remove heap id pool = elim (S.get id pool.primary) [
    | none ↦ (none, pool)
    | some r ↦ (
      some r,
      record {
        primary = S.remove id pool.primary;
        index = index_remove (key_of heap r) pool.index;
      },
    )
  ]

  -- Whether a weak reference can be upgraded: the map holds its object, or a task does.
  unfoldable pub is_alive : Heap → List Ref → PlayerPool S → Ref → Bool
  is_alive heap held pool r =
      elim (S.get (heap r).id pool.primary) [ none ↦ false | some q ↦ q == r ] || is_held r held

  abbrev scan : Heap → (Ref → Bool) → Option RatingIndex → Option (List Ref)
  scan heap alive none = none
  scan heap alive (some entries) =
      some (sort_by_age heap (collect alive heap max_candidates_per_scan entries))

  -- `held` are the references that tasks hold. `none` is the panic of `BTreeMap::range`.
  unfoldable pub range_scan : Heap → List Ref → PlayerPool S → ℕ → ℕ → Option (List Ref)
  range_scan heap held pool min_rating max_rating = scan heap (is_alive heap held pool) (
      range (min min_rating max_skill_rating, uuid_nil) (min max_rating max_skill_rating, uuid_max)
        pool.index)

  abbrev pub refs_of : PlayerPool S → List Ref
  refs_of pool = map (λ e. e.1) (S.iter pool.primary)

  unfoldable pub oldest_waiting : Heap → PlayerPool S → Option Ref
  oldest_waiting heap pool = oldest_of heap (keep (λ r. is_waiting (heap r)) (refs_of pool))

  abbrev pub in_range : ℕ → ℕ → ℕ → Bool
  in_range least most mmr = leb least mmr && leb mmr most

  unfoldable pub oldest_waiting_excluding_range : Heap → PlayerPool S → ℕ → ℕ → Option Ref
  oldest_waiting_excluding_range heap pool exclude_min exclude_max = oldest_of heap (
      keep
        (λ r. is_waiting (heap r) && not (in_range exclude_min exclude_max (heap r).skill_rating))
        (refs_of pool))

  abbrev pub all_players : PlayerPool S → List Ref
  all_players pool = refs_of pool

  abbrev pub len : PlayerPool S → ℕ
  len pool = S.len pool.primary

  abbrev pub is_empty : PlayerPool S → Bool
  is_empty pool = len pool == 0

  abbrev pub get : Uuid → PlayerPool S → Option Ref
  get id pool = S.get id pool.primary

  abbrev pub contains : Uuid → PlayerPool S → Bool
  contains id pool = elim (get id pool) [ none ↦ false | some r ↦ true ]
