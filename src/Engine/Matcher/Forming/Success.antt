-- ===== src/Engine/Matcher/Forming/Success.antt =====
-- src/engine/matcher.rs: what holds of every match that an attempt forms.
use matchmaker.Base.{
  ◌-◌, ◌⊎◌, none, ℕ, ◌≤◌, ◌<◌, ◌≡◌, refl, sym, ap, ◌∙◌, inl, inr, true, false, some, List, [], ◌∷◌,
  ◌++◌, map, Perm, arith, if◌then◌else◌, length, total, abs_diff, some-eq, subst,
}
use matchmaker.Models.Player.{waiting, Instant}
use matchmaker.Models.Team.{waited_ms}
use matchmaker.Models.Memory.{Distinct, Ref, is_held}
use matchmaker.Models.Match.{Match}
use matchmaker.Engine.Bucket.Store.{ConcurrentMap}
use matchmaker.Engine.Bucket.{max_skill_rating, get}
use matchmaker.Engine.Balancer.{BalanceResult, match_size, exhaustive_balance}
use matchmaker.Engine.Balancer.Splits.{Splits}
use matchmaker.Engine.Balancer.Optimal.Teams.{
  IsBalanced, exhaustive_balance_teams, exhaustive_balance_optimal,
}
use matchmaker.Engine.Matcher.{
  max_of, min_of, claim_failed, roll_back, remove_all, update_metrics_on_success, WorkerContext,
  WorkerState, Readings, Shared, MatchAttemptResult, success, claim_phase, complete, evict_oldest,
  reset,
}
use matchmaker.Engine.Matcher.Claiming.{claims, claims-Claims}
use matchmaker.Engine.Matcher.Marking.{IsMarked}
use matchmaker.Engine.Matcher.Removal.{ids_of, remove_all-get}
use matchmaker.Engine.Matcher.Rollback.{claim_phase_few}
use matchmaker.Engine.Matcher.Forming.{
  formed_spread, formed_bounded, fun_ext, snapshot_ids, got, claimed_heap, marked_heap, rating,
  formed, ratings-valid, rating-kept, marked, unmarked, marked_id, team_size_a, team_size_b,
  formed_delta, formed_ids, formed_teams, claim_phase-formed,
}

-- The match `m` is made of the players `got`, which were among the candidates `cs`.
pub record FormedFrom (S : ConcurrentMap) (limit : ℕ) (cs : List Ref) (s s' : Shared S) (m : Match)
    (got : List Ref) : Type 0 where
  pub distinct : Distinct got
  pub ten : length got ≡ match_size
  pub candidates : (r : Ref) → is_held r got ≡ true → is_held r cs ≡ true
  pub were_waiting : (r : Ref) → is_held r got ≡ true → (s.heap r).state ≡ waiting
  pub are_matched : (r : Ref) → is_held r got ≡ true → IsMarked (s.heap r) (s'.heap r)
  pub untouched : (r : Ref) → is_held r got ≡ false → s'.heap r ≡ s.heap r
  pub teams :
      Perm (snapshot_ids m.team_a.players ++ snapshot_ids m.team_b.players) (ids_of S s.heap got)
  pub parted :
      (qs bs : List Ref) × Splits got qs bs
      × (snapshot_ids m.team_a.players ≡ ids_of S s.heap qs)
      × (snapshot_ids m.team_b.players ≡ ids_of S s.heap bs)
      × (m.team_delta
          ≡ abs_diff
              (total (map (λ r. (s.heap r).skill_rating) qs))
              (total (map (λ r. (s.heap r).skill_rating) bs)))
  pub five_a : length m.team_a.players ≡ 5
  pub five_b : length m.team_b.players ≡ 5
  pub fairest :
      (ps bs : List Ref)
      → Splits got ps bs
      → length ps ≡ 5
      → m.team_delta
        ≤ abs_diff
            (total (map (λ r. (s.heap r).skill_rating) ps))
            (total (map (λ r. (s.heap r).skill_rating) bs))
  pub removed :
      (j : ℕ) → get S j s'.pool ≡ (if is_held j (ids_of S s.heap got) then none else get S j s.pool)
  pub spread :
      m.skill_spread
      ≡ max_of (map (λ r. (s.heap r).skill_rating) got)
        - min_of (map (λ r. (s.heap r).skill_rating) got)
  pub bounded : (m.team_delta ≤ 30000) × (m.skill_spread ≤ max_skill_rating)
  pub recorded : s'.match_history ≡ evict_oldest limit (s.match_history ++ m ∷ [])
  pub emptied : s'.pool ≡ remove_all S s'.heap got s.pool
  pub same_next : s'.next ≡ s.next
  pub metrics :
      (late : Instant) × (s'.metrics
        ≡ update_metrics_on_success m
            (map (λ r. waited_ms late (s'.heap r)) got)
            m.skill_spread
            s.metrics)

module _ (S : ConcurrentMap) (ctx : WorkerContext) (t : Readings) (s : Shared S) (w : WorkerState)
    (seed : Ref) (cs : List Ref)
    (valid : (r : Ref) → is_held r cs ≡ true → (s.heap r).skill_rating ≤ max_skill_rating) where
  module _ (ten : length (claims S ctx t s cs).1 ≡ match_size) (balance : BalanceResult Ref)
      (e : exhaustive_balance
          (rating S ctx t s w seed cs valid ten)
          (got S ctx t s w seed cs valid ten)
        ≡ some balance)
      (fair : IsBalanced
        (rating S ctx t s w seed cs valid ten)
        (got S ctx t s w seed cs valid ten)
        balance)
      (whole : Perm (balance.team_a ++ balance.team_b) (got S ctx t s w seed cs valid ten)) where
    rating_before :
        ◌≡◌ {A = Ref → ℕ} (rating S ctx t s w seed cs valid ten) (λ r. (s.heap r).skill_rating)
    rating_before = fun_ext (rating-kept S ctx t s w seed cs valid ten)

    complete-FormedFrom :
        FormedFrom S ctx.match_history_limit cs s
          (complete S ctx t
            (record s { heap = claimed_heap S ctx t s w seed cs valid ten })
            w
            (got S ctx t s w seed cs valid ten)
            balance).0
          (formed S ctx t s w seed cs valid ten balance)
          (got S ctx t s w seed cs valid ten)
    unfolding complete
    complete-FormedFrom = record {
      distinct = (claims-Claims S ctx t s cs).distinct;
      ten = ten;
      candidates = (claims-Claims S ctx t s cs).from;
      were_waiting = (claims-Claims S ctx t s cs).ready;
      are_matched = marked S ctx t s w seed cs valid ten;
      untouched = unmarked S ctx t s w seed cs valid ten;
      teams = formed_ids S ctx t s w seed cs valid ten balance fair whole;
      parted = (
        balance.team_a,
        balance.team_b,
        fair.split,
        (formed_teams S ctx t s w seed cs valid ten balance fair).0,
        (formed_teams S ctx t s w seed cs valid ten balance fair).1,
        rw (← rating_before) (formed_delta S ctx t s w seed cs valid ten balance fair ∙ fair.delta),
      );
      five_a = team_size_a S ctx t s w seed cs valid ten balance fair;
      five_b = team_size_b S ctx t s w seed cs valid ten balance fair;
      fairest = λ ps bs split five.
          rw (formed_delta S ctx t s w seed cs valid ten balance fair, ← rating_before)
            (exhaustive_balance_optimal _ _ ten (ratings-valid S ctx t s w seed cs valid ten) e
              split five);
      removed = λ j.
          remove_all-get S (marked_heap S ctx t s w seed cs valid ten)
            (got S ctx t s w seed cs valid ten) s.pool j
          ∙ ap
              (λ (f : Ref → ℕ).
                if is_held j (map f (got S ctx t s w seed cs valid ten))
                then none
                else get S j s.pool)
              (marked_id S ctx t s w seed cs valid ten);
      spread = rw (← rating_before) (formed_spread S ctx t s w seed cs valid ten balance fair).0;
      bounded = (
        formed_bounded S ctx t s w seed cs valid ten balance fair,
        (formed_spread S ctx t s w seed cs valid ten balance fair).1,
      );
      recorded = refl;
      emptied = refl;
      same_next = refl;
      metrics = (t.late, refl);
    }

  -- With ten claims the attempt completes a match.
  pub claim_phase-ten :
      length (claims S ctx t s cs).1 ≡ match_size
      → (s' : Shared S) × (m : Match) × (claim_phase S ctx t s w seed cs
          ≡ some (s', reset w, success m))
        × FormedFrom S ctx.match_history_limit cs s s' m (claims S ctx t s cs).1
  unfolding complete
  claim_phase-ten ten =
      let (balance, e, fair, whole) =
        exhaustive_balance_teams (rating S ctx t s w seed cs valid ten)
          (got S ctx t s w seed cs valid ten) ten (ratings-valid S ctx t s w seed cs valid ten) in
      (
        _,
        _,
        claim_phase-formed S ctx t s w seed cs valid ten balance e,
        complete-FormedFrom ten balance e fair whole,
      )

  -- Fewer claims end in a rollback, more are not made.
  claims-cases :
      (length (claims S ctx t s cs).1 < match_size) ⊎ (length (claims S ctx t s cs).1 ≡ match_size)
  claims-cases = grind (arith, (claims-Claims S ctx t s cs).bounded)

  -- Phase 3 and what follows never panic on candidates with valid ratings, whatever other tasks did
  -- to the candidates meanwhile: the attempt ends in a match or in a rollback.
  pub claim_phase_total :
      (o : Shared S × WorkerState × MatchAttemptResult) × (claim_phase S ctx t s w seed cs ≡ some o)
      × (((m : Match) × (o.2 ≡ success m)) ⊎ ((n : ℕ) × (o.2 ≡ claim_failed n match_size)))
  unfolding roll_back
  claim_phase_total = elim claims-cases [
    | inl few ↦
        (_, claim_phase_few S ctx t s w seed cs few, inr (length (claims S ctx t s cs).1, refl))
    | inr ten ↦
        let (s', m, e, _) = claim_phase-ten ten in ((s', reset w, success m), e, inl (m, refl))
  ]

  -- Of every match that an attempt forms from candidates with valid ratings, whatever other tasks
  -- did to them before it claimed them: it is made of ten different players among the candidates,
  -- all of them Waiting before; they are Matched now and no other player has changed; the two
  -- teams of five are these ten, and no other division into five and five has a smaller
  -- difference of ratings than `team_delta`; `skill_spread` is their greatest rating less their least; exactly they have left the pool; the match is the
  -- last record of the history, cut to its limit; the counters have been updated by it and by the
  -- waits of its players; and the worker's count of failures is reset.
  pub claim_phase_success :
      {s' : Shared S} {w' : WorkerState} {m : Match}
      → claim_phase S ctx t s w seed cs ≡ some (s', w', success m)
      → (w' ≡ reset w) × FormedFrom S ctx.match_history_limit cs s s' m (claims S ctx t s cs).1
  unfolding roll_back
  claim_phase_success {s'} {w'} {m} e = elim claims-cases [
    | inl few ↦ absurd (ground (arith, e, claim_phase_few S ctx t s w seed cs few))
    | inr ten ↦
        let (s'', m', e', f) = claim_phase-ten ten in
        let same = some-eq (sym e' ∙ e) in
        (
          ground (arith, same),
          subst
              (λ (o : Shared S × Match).
                FormedFrom S ctx.match_history_limit cs s o.0 o.1 (claims S ctx t s cs).1)
              (ground (arith, same)) f,
        )
  ]
