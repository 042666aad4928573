-- ===== src/Workers/Records.antt =====
-- src/engine/matcher.rs: what an attempt adds to the match history and to the counters.
use mathlib.Core.List.{append-nil}
use matchmaker.Engine.Bucket.{max_skill_rating}
use matchmaker.Base.{
  ◌≤◌, All, All-snoc, ℕ, ◌*◌, total, total-map-snoc, ◌≡◌, refl, ap, sym, ◌∙◌, some, List, [], ◌∷◌,
  ◌++◌, arith, length, u64, subst, some-eq, inl, inr, map, length-append,
}
use matchmaker.Models.Memory.{Ref}
use matchmaker.Models.Match.{Match}
use matchmaker.Engine.Bucket.Store.{ConcurrentMap}
use matchmaker.Engine.Balancer.{match_size}
use matchmaker.Engine.Matcher.{
  WorkerContext, WorkerState, Readings, Shared, MatchAttemptResult, Outcome, success, attempt_match,
  claim_phase, update_metrics_on_success,
}
use matchmaker.Engine.Matcher.History.{last_of, evict_oldest-push}
use matchmaker.Engine.Matcher.Rollback.{claim_phase_kept}
use matchmaker.Engine.Matcher.Forming.Success.{FormedFrom, claim_phase_success}
use matchmaker.Engine.Matcher.Attempt.{Found, cycle, gave_up, attempt_match-cases}
use matchmaker.Engine.Matcher.Attempt.Outcomes.{claim_phase-other, found-valid}
use matchmaker.Engine.Core.Queue.{IsShared}

abbrev pub matches_of : MatchAttemptResult → List Match
matches_of (success m) = m ∷ []
matches_of _ = []

module _ (S : ConcurrentMap) where
  -- The history is the last of the matches `formed`, and the counters are theirs.
  pub record IsRecorded (limit : ℕ) (formed : List Match) (s : Shared S) : Type 0 where
    pub last : s.match_history ≡ last_of limit formed
    pub counted : u64 s.metrics.total_matches_created ≡ u64 (length formed)
    pub players : s.metrics.total_players_matched ≡ u64 (match_size * length formed)
    pub small : All (λ m. (m.team_delta ≤ 30000) × (m.skill_spread ≤ max_skill_rating)) formed
    pub deltas : s.metrics.team_delta_sum ≡ u64 (total (map (λ m. m.team_delta) formed))
    pub deltas_counted : s.metrics.team_delta_count ≡ u64 (length formed)
    pub spreads : s.metrics.skill_spread_sum ≡ u64 (total (map (λ m. m.skill_spread) formed))
    pub spreads_counted : s.metrics.skill_spread_count ≡ u64 (length formed)

  -- What only a new match changes.
  pub record SameRecord (s s' : Shared S) : Type 0 where
    pub history : s'.match_history ≡ s.match_history
    pub created : s'.metrics.total_matches_created ≡ s.metrics.total_matches_created
    pub matched : s'.metrics.total_players_matched ≡ s.metrics.total_players_matched
    pub delta_sum : s'.metrics.team_delta_sum ≡ s.metrics.team_delta_sum
    pub delta_count : s'.metrics.team_delta_count ≡ s.metrics.team_delta_count
    pub spread_sum : s'.metrics.skill_spread_sum ≡ s.metrics.skill_spread_sum
    pub spread_count : s'.metrics.skill_spread_count ≡ s.metrics.skill_spread_count

  pub quiet :
      {limit : ℕ} {formed : List Match} {s s' : Shared S}
      → SameRecord s s'
      → IsRecorded limit formed s
      → IsRecorded limit (formed ++ []) s'
  quiet {formed = formed} k h = record {
    last = k.history ∙ rw (append-nil formed) h.last;
    counted = rw (k.created, append-nil formed) h.counted;
    players = rw (k.matched, append-nil formed) h.players;
    small = rw (append-nil formed) h.small;
    deltas = rw (k.delta_sum, append-nil formed) h.deltas;
    deltas_counted = rw (k.delta_count, append-nil formed) h.deltas_counted;
    spreads = rw (k.spread_sum, append-nil formed) h.spreads;
    spreads_counted = rw (k.spread_count, append-nil formed) h.spreads_counted;
  }

  module _ (ctx : WorkerContext) (t : Readings) (s : Shared S) (w : WorkerState) (v : IsShared S s)
      (formed : List Match) (h : IsRecorded ctx.match_history_limit formed s) where
    formed-IsRecorded :
        {s' : Shared S} {m : Match} {cs got : List Ref}
        → FormedFrom S ctx.match_history_limit cs (cycle S ctx t s w v.agrees) s' m got
        → IsRecorded ctx.match_history_limit (formed ++ m ∷ []) s'
    unfolding update_metrics_on_success
    formed-IsRecorded {s'} {m} f = record {
      last = f.recorded ∙ rw h.last (evict_oldest-push ctx.match_history_limit formed m);
      counted = ground (arith, f.metrics.1, h.counted, length-append formed (m ∷ []));
      players = ground (arith, f.metrics.1, h.players, length-append formed (m ∷ []));
      small = All-snoc _ formed m h.small f.bounded;
      deltas = ground (arith, f.metrics.1, h.deltas, total-map-snoc (λ m. m.team_delta) formed m);
      deltas_counted = ground (arith, f.metrics.1, h.deltas_counted, length-append formed (m ∷ []));
      spreads =
          ground (arith, f.metrics.1, h.spreads, total-map-snoc (λ m. m.skill_spread) formed m);
      spreads_counted =
          ground (arith, f.metrics.1, h.spreads_counted, length-append formed (m ∷ []));
    }

    unchanged : SameRecord s s
    unchanged = record {
      history = refl;
      created = refl;
      matched = refl;
      delta_sum = refl;
      delta_count = refl;
      spread_sum = refl;
      spread_count = refl;
    }

    gave_up-SameRecord :
        (seed : Ref) (rs : List Ref) → SameRecord s (gave_up S ctx t s w v.agrees seed rs).0
    gave_up-SameRecord seed rs = record {
      history = refl;
      created = refl;
      matched = refl;
      delta_sum = refl;
      delta_count = refl;
      spread_sum = refl;
      spread_count = refl;
    }

    claimed-IsRecorded :
        {s' : Shared S} {w' : WorkerState} {r : MatchAttemptResult} (seed : Ref) (rs : List Ref)
        → Found S ctx t s w v.agrees seed rs
        → claim_phase S ctx t (cycle S ctx t s w v.agrees) w seed rs ≡ some (s', w', r)
        → IsRecorded ctx.match_history_limit (formed ++ matches_of r) s'
    claimed-IsRecorded {s'} {w'} {r} seed rs found e =
        elim (claim_phase-other S ctx t s w v.agrees seed rs found e) [
          | inl (m, k) ↦
              let (_, f) =
                claim_phase_success S ctx t (cycle S ctx t s w v.agrees) w seed rs
                  (found-valid S ctx t s w v.agrees seed rs found)
                  (e ∙ ap (λ x. some (s', w', x)) k) in
              rw k (formed-IsRecorded f)
          | inr (n, k) ↦
              let (_, _, _, history, metrics) =
                claim_phase_kept S ctx t (cycle S ctx t s w v.agrees) w seed rs
                  (e ∙ ap (λ x. some (s', w', x)) k) in
              rw k (
                quiet
                  (record {
                    history = history;
                    created = ground (arith, metrics);
                    matched = ground (arith, metrics);
                    delta_sum = ground (arith, metrics);
                    delta_count = ground (arith, metrics);
                    spread_sum = ground (arith, metrics);
                    spread_count = ground (arith, metrics);
                  })
                  h)
        ]

    -- An attempt adds the match it forms, if any, to the history and to the count.
    pub attempt_match-IsRecorded :
        {s' : Shared S} {w' : WorkerState} {r : MatchAttemptResult}
        → attempt_match S ctx t s w ≡ some (s', w', r)
        → IsRecorded ctx.match_history_limit (formed ++ matches_of r) s'
    attempt_match-IsRecorded {s'} {w'} {r} e = elim (attempt_match-cases S ctx t s w v.agrees) [
      | inl (_, k) ↦
          subst
            (λ (o : Outcome S). IsRecorded ctx.match_history_limit (formed ++ matches_of o.2) o.0)
            (some-eq (sym k ∙ e)) (quiet unchanged h)
      | inr (seed, _, rs, _, inl (_, k)) ↦
          subst
            (λ (o : Outcome S). IsRecorded ctx.match_history_limit (formed ++ matches_of o.2) o.0)
            (some-eq (sym k ∙ e)) (quiet (gave_up-SameRecord seed rs) h)
      | inr (seed, _, rs, found, inr (_, k)) ↦ claimed-IsRecorded seed rs found (sym k ∙ e)
    ]
