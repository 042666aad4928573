-- ===== src/Engine/Matcher/Forming.antt =====
-- src/engine/matcher.rs, phases 4 to 6: the match that ten claims make.
pub mod Success
use mathlib.Core.List.{map-append}
use mathlib.Core.List.Perm
use mathlib.Core.Path.{fun_ext}
use matchmaker.Base.{
  ◌-◌, total-map_le, ◌+◌, Bool-cases, ℕ, ◌≤◌, ◌≡◌, refl, sym, ap, ◌∙◌, true, false, some, List, [],
  ◌∷◌, ◌++◌, map, Perm, arith, ltb, length, length-map, total, All, In, All-In, wrapping_sum_exact,
}
use matchmaker.Models.Player.{claimed, Instant}
use matchmaker.Models.Memory.{Ref, Heap, is_held}
use matchmaker.Models.Team.{PlayerSnapshot, ratings_of, capture}
use matchmaker.Models.Team
use matchmaker.Models.Match.{Match}
use matchmaker.Models.Match
use matchmaker.Engine.Bucket.Store.{ConcurrentMap}
use matchmaker.Engine.Bucket.{max_skill_rating}
use matchmaker.Engine.Bucket.Invariant.{SameKeys}
use matchmaker.Engine.Balancer.{BalanceResult, match_size, exhaustive_balance}
use matchmaker.Engine.Balancer.Splits.{Splits-total}
use matchmaker.Engine.Balancer.Optimal.Teams.{IsBalanced}
use matchmaker.Engine.Matcher.{
  max_of, min_of, WorkerContext, WorkerState, Readings, Shared, snapshots, build_match, mark_all,
  claim_phase, complete,
}
use matchmaker.Engine.Matcher.Claiming.{claims, claims-Claims}
use matchmaker.Engine.Matcher.Marking.{IsMarked, mark_all_others, mark_all-IsMarked}

-- Membership as a Boolean and with a witness.
pub In-is_held : (r : Ref) (rs : List Ref) → In r rs → is_held r rs ≡ true
In-is_held r [] m = absurd m
In-is_held r (q ∷ qs) m = ground (arith, In-is_held r qs)

pub is_held-In : (r : Ref) (rs : List Ref) → is_held r rs ≡ true → In r rs
is_held-In r [] h = absurd (ground arith)
is_held-In r (q ∷ qs) h = ground (arith, is_held-In r qs)

ratings_of-snapshots :
    (now : Instant) (heap : Heap) (rs : List Ref)
    → ratings_of (snapshots now heap rs) ≡ map (λ r. (heap r).skill_rating) rs
unfolding capture
ratings_of-snapshots now heap [] = refl
ratings_of-snapshots now heap (r ∷ rs) =
    ap (λ xs. (heap r).skill_rating ∷ xs) (ratings_of-snapshots now heap rs)

abbrev pub snapshot_ids : List PlayerSnapshot → List ℕ
snapshot_ids = map λ p. p.id

snapshot_ids-snapshots :
    (now : Instant) (heap : Heap) (rs : List Ref)
    → snapshot_ids (snapshots now heap rs) ≡ map (λ r. (heap r).id) rs
unfolding capture
snapshot_ids-snapshots now heap [] = refl
snapshot_ids-snapshots now heap (r ∷ rs) =
    ap (λ xs. (heap r).id ∷ xs) (snapshot_ids-snapshots now heap rs)

-- The greatest of bounded ratings is bounded.
max_of-le : (f : Ref → ℕ) (n : ℕ) (rs : List Ref) → All (λ r. f r ≤ n) rs → max_of (map f rs) ≤ n
unfolding max_of
max_of-le f n [] h = omega arith
max_of-le f n (r ∷ rs) h = omega (arith, h.0, max_of-le f n rs h.1)

module _ (S : ConcurrentMap) (ctx : WorkerContext) (t : Readings) (s : Shared S) (w : WorkerState)
    (seed : Ref) (cs : List Ref)
    (valid : (r : Ref) → is_held r cs ≡ true → (s.heap r).skill_rating ≤ max_skill_rating)
    (ten : length (claims S ctx t s cs).1 ≡ match_size) where
  abbrev got : List Ref
  got = (claims S ctx t s cs).1

  abbrev claimed_heap : Heap
  claimed_heap = (claims S ctx t s cs).0

  abbrev marked_heap : Heap
  marked_heap = mark_all t.matched 0 claimed_heap got

  abbrev rating : Ref → ℕ
  rating r = (claimed_heap r).skill_rating

  open (claims-Claims S ctx t s cs) use {writes, ready, from, distinct}

  got-claimed : (r : Ref) → is_held r got ≡ true → (claimed_heap r).state ≡ claimed
  got-claimed r h = ground (arith, writes r)

  rating-kept : (r : Ref) → rating r ≡ (s.heap r).skill_rating
  rating-kept r = ground (arith, writes r)

  ratings-valid : All (λ r. rating r ≤ max_skill_rating) got
  ratings-valid =
      All-In _ got (λ r m. ground (arith, rating-kept r, valid r, from r, In-is_held r got m))

  marked : (r : Ref) → is_held r got ≡ true → IsMarked (s.heap r) (marked_heap r)
  marked r h =
      let k = mark_all-IsMarked t.matched 0 claimed_heap got distinct got-claimed r h in
      record {
        state = k.state;
        id = ground (arith, k.id, writes r);
        rating = ground (arith, k.rating, writes r);
        joined = ground (arith, k.joined, writes r);
        stamped = k.stamped;
      }

  unmarked : (r : Ref) → is_held r got ≡ false → marked_heap r ≡ s.heap r
  unmarked r h = mark_all_others t.matched 0 claimed_heap got r h ∙ ground (arith, writes r)

  marked-SameKeys : SameKeys s.heap marked_heap
  marked-SameKeys = record {
    ids = λ r. ground (arith, Bool-cases (is_held r got), marked r, unmarked r);
    ratings = λ r. ground (arith, Bool-cases (is_held r got), marked r, unmarked r);
  }

  -- The same record of a match that the program builds, from the claimed players and their teams.
  abbrev formed : BalanceResult Ref → Match
  formed balance = build_match t marked_heap got balance

  marked_rating : ◌≡◌ {A = Ref → ℕ} (λ r. (marked_heap r).skill_rating) rating
  marked_rating = fun_ext λ r. marked-SameKeys.ratings r ∙ sym (rating-kept r)

  marked_id : ◌≡◌ {A = Ref → ℕ} (λ r. (marked_heap r).id) (λ r. (s.heap r).id)
  marked_id = fun_ext marked-SameKeys.ids

  team_ratings : (rs : List Ref) → ratings_of (snapshots t.late marked_heap rs) ≡ map rating rs
  team_ratings rs = ratings_of-snapshots t.late marked_heap rs ∙ ap (λ f. map f rs) marked_rating

  module _ (balance : BalanceResult Ref) (fair : IsBalanced rating got balance) where
    -- The spread of the match is that of the claimed players, and at most that of all ratings.
    formed_spread :
        ((formed balance).skill_spread ≡ max_of (map rating got) - min_of (map rating got))
        × ((formed balance).skill_spread ≤ max_skill_rating)
    unfolding build_match Match.new
    formed_spread =
        let same : (formed balance).skill_spread
            ≡ max_of (map rating got) - min_of (map rating got) =
          ap (λ (f : Ref → ℕ). max_of (map f got) - min_of (map f got)) marked_rating in
        (same, omega (arith, same, max_of-le rating max_skill_rating got ratings-valid))

    team_size_a : length (formed balance).team_a.players ≡ 5
    unfolding build_match Match.new Team.new
    team_size_a = length-map _ balance.team_a ∙ fair.five_a

    team_size_b : length (formed balance).team_b.players ≡ 5
    unfolding build_match Match.new Team.new
    team_size_b = length-map _ balance.team_b ∙ fair.five_b

    sums : total (map rating balance.team_a) + total (map rating balance.team_b) ≤ 30000
    sums = omega (
      arith,
      Splits-total rating fair.split,
      total-map_le rating max_skill_rating got ratings-valid,
      ten,
    )

    formed_delta : (formed balance).team_delta ≡ balance.team_delta
    unfolding build_match Match.new Team.new
    formed_delta =
        rw
          (
            team_ratings balance.team_a,
            team_ratings balance.team_b,
            wrapping_sum_exact 32 (map rating balance.team_a) (omega (arith, sums)),
            wrapping_sum_exact 32 (map rating balance.team_b) (omega (arith, sums)),
          )
          (sym fair.delta)

    formed_bounded : (formed balance).team_delta ≤ 30000
    formed_bounded = ground (arith, formed_delta, fair.delta, sums)

    formed_ids :
        Perm (balance.team_a ++ balance.team_b) got
        → Perm
            (snapshot_ids (formed balance).team_a.players
              ++ snapshot_ids (formed balance).team_b.players)
            (map (λ r. (s.heap r).id) got)
    unfolding build_match Match.new Team.new
    formed_ids p =
        rw
          (
            snapshot_ids-snapshots t.late marked_heap balance.team_a,
            snapshot_ids-snapshots t.late marked_heap balance.team_b,
            marked_id,
            ← map-append,
          )
          (Perm.map _ p)

    formed_teams :
        (snapshot_ids (formed balance).team_a.players ≡ map (λ r. (s.heap r).id) balance.team_a)
        × (snapshot_ids (formed balance).team_b.players ≡ map (λ r. (s.heap r).id) balance.team_b)
    unfolding build_match Match.new Team.new
    formed_teams =
        rw
          (
            snapshot_ids-snapshots t.late marked_heap balance.team_a,
            snapshot_ids-snapshots t.late marked_heap balance.team_b,
            marked_id,
          )
          (refl, refl)

  claim_phase-formed :
      (balance : BalanceResult Ref)
      → exhaustive_balance rating got ≡ some balance
      → claim_phase S ctx t s w seed cs
        ≡ some (complete S ctx t (record s { heap = claimed_heap }) w got balance)
  unfolding claim_phase claims
  claim_phase-formed balance e =
      let enough : ltb (length got) match_size ≡ false = rw ten refl in rw (enough, e)
