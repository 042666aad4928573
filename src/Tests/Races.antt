-- ===== src/Tests/Races.antt =====
-- Interleavings of two workers, the Reaper and a cancellation over ten players.
use matchmaker.Workers.Interleaving.Undated.{IsLost}
use matchmaker.Workers.Interleaving.Others.{is_silent}
use matchmaker.Tests.Fixtures.{no_players}
use matchmaker.Workers.Interleaving.Leads.{are_guarded}
use matchmaker.Workers.Interleaving.Stranded.{strands}
use matchmaker.Base.{
  false, ℕ, ◌≡◌, refl, true, List, [], ◌∷◌, ◌++◌, arith, replicate, if◌then◌else◌, ◌==◌,
}
use matchmaker.Models.Player
use matchmaker.Models.Memory.{Ref, Heap, is_held, Distinct}
use matchmaker.Workers.Interleaving.{
  Event, World, begins, works, scans, reaps, evicts, ticks, apply, run, at_rest, marking, idle,
}
use matchmaker.Workers.Interleaving.Invariant.{InTime, has, holds}
use matchmaker.Workers.Interleaving.Late.{matched_twice}
use matchmaker.Workers.Interleaving.Recovery.{run-recovers}
use matchmaker.Workers.Interleaving.Safety.{run-Distinct, run-compare_exchange, run-reaps}

abbrev ten : List Ref
ten = 0 ∷ 1 ∷ 2 ∷ 3 ∷ 4 ∷ 5 ∷ 6 ∷ 7 ∷ 8 ∷ 9 ∷ []

abbrev new_players : Heap
new_players r = Player.new r 1000 0

-- Worker 1 claims three players before worker 2 enters, which finds seven of the ten and gives them
-- back while the Reaper scans; worker 1 claims the rest but one that was cancelled, and gives up.
abbrev contended : List Event
contended =
    begins 1 ten ∷ replicate 9 (works 1 0)
    ++ (begins 2 ten ∷ replicate 13 (works 2 0)
        ++ (scans ten ∷ evicts 9 ∷ replicate 12 reaps ++ (ticks 3 ∷ replicate 26 (works 2 0))))

-- Worker 1 claims and marks ten players while worker 2 finds none left.
abbrev served : List Event
served =
    begins 1 ten ∷ replicate 31 (works 1 0)
    ++ (begins 2 ten ∷ replicate 5 (works 2 0) ++ replicate 21 (works 1 7))

served_formed : (run 500 served (at_rest new_players 1)).formed ≡ ten
unfolding run apply
served_formed = refl

-- A worker that goes on after the Reaper has reset its claims, and after another worker has claimed
-- the players again, forms a second match of them; worker 2's compare-exchanges fail unnoticed.
abbrev overtaken : List Event
overtaken =
    begins 1 ten ∷ replicate 31 (works 1 0)
    ++ (ticks 501 ∷ scans ten ∷ replicate 51 reaps
        ++ (begins 2 ten ∷ replicate 31 (works 2 0)
            ++ (replicate 21 (works 1 7) ++ replicate 21 (works 2 8))))

overtaken_formed : (run 500 overtaken (at_rest new_players 1)).formed ≡ ten ++ ten
unfolding run apply
overtaken_formed = refl

-- Worker 1 stops with three claims; its claims grow stale, and the Reaper is about to reset one.
abbrev crashed : List Event
crashed =
    begins 1 ten ∷ replicate 9 (works 1 0)
    ++ (ticks 501 ∷ begins 2 ten ∷ replicate 6 (works 2 0) ++ (scans ten ∷ replicate 2 reaps))

abbrev served_world : World
served_world = run 500 served (at_rest new_players 1)

run-Distinct_example :
    ((i j : ℕ) (r : Ref)
      → InTime 500 served_world.clock (served_world.pc i)
      → InTime 500 served_world.clock (served_world.pc j)
      → has (served_world.pc i) r ≡ true
      → has (served_world.pc j) r ≡ true
      → i ≡ j)
    × Distinct served_world.formed
    × ((r : Ref)
        → is_held r served_world.formed ≡ true
        → (served_world.heap r).state ≡ Player.matched)
unfolding run apply
run-Distinct_example = run-Distinct 500 new_players 1 (λ r. refl) served refl

abbrev contended_world : World
contended_world = run 500 contended (at_rest new_players 1)

run-compare_exchange_example :
    Player.compare_exchange Player.claimed 0 (contended_world.heap 2)
    ≡ (record (contended_world.heap 2) { state = 0 }, true)
unfolding run apply
run-compare_exchange_example =
    run-compare_exchange 500 new_players 1 (λ r. refl) contended refl 1 2 0 (omega arith) refl

run-reaps_example : is_held 0 (holds ((run 500 crashed (at_rest new_players 1)).pc 2)) ≡ false
unfolding run apply
run-reaps_example = run-reaps 500 new_players 1 (λ r. refl) crashed refl 2 0 refl refl (omega arith)

ten-waiting : (r : Ref) → is_held r ten ≡ true → (new_players r).state ≡ Player.waiting
ten-waiting r h = refl

matched_twice_example : (x : List Event) × (run 500 x (at_rest new_players 1)).formed ≡ ten ++ ten
matched_twice_example =
    matched_twice 500 new_players 1 ten refl
      (refl, (refl, (refl, (refl, (refl, (refl, (refl, (refl, (refl, (refl, tt)))))))))) ten-waiting
      (omega arith)

-- Worker 1 has claimed player 0 and stopped, and its claim is stale.
abbrev stopped_world : World
stopped_world =
    record (at_rest
      (λ r. record (new_players r) { state = Player.claimed; claimed_by = 1; claim_timestamp = 1 })
      502) { pc = λ j. if j == 1 then marking 1 (0 ∷ []) [] else idle }

-- The Reaper takes turns with worker 2.
abbrev in_turns : List Event
in_turns =
    begins 2 ten
    ∷ reaps
    ∷ works 2 0
    ∷ reaps
    ∷ reaps
    ∷ works 2 0
    ∷ evicts 0
    ∷ reaps
    ∷ reaps
    ∷ reaps
    ∷ []

run-recovers_example :
    (before after : List Event) × (scans (0 ∷ []) ∷ in_turns ≡ before ++ after)
    × (((run 500 before stopped_world).heap 0).state ≡ Player.waiting)
run-recovers_example =
    run-recovers 500 1 0 stopped_world (0 ∷ []) in_turns refl refl (λ e. ground arith) (omega arith)
      (λ j ne. ground (arith, ne)) refl refl (omega arith)

abbrev nine : List Ref
nine = 0 ∷ 1 ∷ 2 ∷ 3 ∷ 4 ∷ 5 ∷ 6 ∷ 7 ∷ 8 ∷ []

strands_example :
    (es : List Event) × (are_guarded es ≡ true)
    × (holds ((run 500 es (at_rest no_players 1700000000000)).pc 2) ≡ nine ++ 9 ∷ [])
    × ((fs : List Event)
        → is_silent 1 fs ≡ true
        → is_silent 2 fs ≡ true
        → IsLost 500 9 (run 500 (es ++ fs) (at_rest no_players 1700000000000)))
strands_example =
    strands 500 nine 9 refl
      (refl, (refl, (refl, (refl, (refl, (refl, (refl, (refl, (refl, (refl, tt)))))))))) no_players
      1700000000000 (λ q h. refl) (omega arith)
