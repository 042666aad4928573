-- ===== src/Workers/Service/Refines.antt =====
-- src/engine/mod.rs, src/engine/matcher.rs and src/workers/mod.rs: the service keeps its promises.
use mathlib.Core.Path.{fun_ext}
use mathlib.Core.List.{append-nil}
use matchmaker.Base.{
  ◌<◌, length, length-map, ap, sym, subst, some-eq, ◌∙◌, ◌≡◌, inl, inr, refl, true, none, some,
  List, [], ◌∷◌, ◌++◌, arith, Option-cases,
}
use matchmaker.Models.Player.{Uuid, Instant}
use matchmaker.Models.Memory.{Ref, Heap, is_held}
use matchmaker.Models.Match.{Match}
use matchmaker.Config.{Config}
use matchmaker.Engine.Bucket.Store.{ConcurrentMap}
use matchmaker.Engine.Bucket.{get}
use matchmaker.Engine.Bucket
use matchmaker.Engine.Matcher.{
  WorkerContext, WorkerState, Readings, Shared, MatchAttemptResult, Outcome, attempt_match, success,
  pool_empty,
}
use matchmaker.Engine.Matcher.Removal.{ids_of, held_id}
use matchmaker.Engine.Matcher.Rollback.{Unclaimed}
use matchmaker.Engine.Matcher.Attempt.{cycle, gave_up, attempt_match-cases, select_seed-Candidate}
use matchmaker.Engine.Matcher.Attempt.Outcomes.{attempt_match_success}
use matchmaker.Engine.Core.{MatchmakerCore, new, cancel, make_worker_context}
use matchmaker.Engine.Core.Queue.{IsShared, view, seen, forget}
use matchmaker.Engine.Core.{enqueue}
use matchmaker.Engine.Bucket.Seeds.{Candidate}
use matchmaker.Engine.Bucket.Sorted.{Distinct-length}
use matchmaker.Engine.Balancer.{match_size}
use matchmaker.Engine.Matcher.Forming.{In-is_held}
use matchmaker.Engine.Matcher.Forming.Success.{claim_phase-ten}
use matchmaker.Engine.Matcher.Attempt.Progress.{claims_ten}
use matchmaker.Engine.Matcher.Attempt.{Found}
use matchmaker.Engine.Matcher.Attempt.Outcomes.{Near-Sought, found-valid}
use matchmaker.Engine.Core.Queue.Enqueue.{enqueue-view, enqueue-cases}
use matchmaker.Engine.Core.Queue.Cancel.{cancel-view, cancel-cases}
use matchmaker.Workers.{reaper_tick}
use matchmaker.Workers.Reaper.{reaper_tick-SameAccounts}
use matchmaker.Workers.Records.{matches_of}
use matchmaker.Workers.History.{matches_of_step, formed_in}
use matchmaker.Workers.System.{
  enqueues, cancels, attempts, reaps, started, later, System, Step, Reachable, Reachable-IsShared,
}
use matchmaker.Workers.Service.{
  Service, Act, enqueued, cancelled, attempted, scanned, Move, joins, leaves, forms, fails, rests,
  Reaches, opened, moved, without, IsNear, IsShort, withdraw_spec,
}
use matchmaker.Workers.Service.Fair.{formed-view, formed-IsFair}
use matchmaker.Workers.Service.Calm.{IsCalm, Reachable-IsCalm, reaper_tick-same}

module _ (S : ConcurrentMap) where
  -- What clients see of a state, with the matches formed so far.
  abbrev pub service_of : System S → List Match → Service
  service_of sys formed = record { queue = view S sys.core.shared; matches = formed }

  same-view :
      (s s' : Shared S)
      → s'.pool ≡ s.pool
      → ((j : Uuid) (r : Ref) → get S j s.pool ≡ some r → s'.heap r ≡ s.heap r)
      → view S s' ≡ view S s
  same-view s s' p h = fun_ext (λ j. elim (Option-cases (get S j s.pool)) [
    | inl e ↦ rw (p, e) refl
    | inr (r, e) ↦ rw (p, e) (ap some (h j r e))
  ])

  left-queue :
      (id : Uuid) (core : MatchmakerCore S)
      → IsShared S core.shared
      → IsCalm S core.shared
      → view S (cancel S id core).0.shared ≡ without (id ∷ []) (view S core.shared)
  left-queue id core v c = fun_ext (λ j.
      (cancel-view S id core v).0 j ∙ elim (Option-cases (get S id core.shared.pool)) [
        | inl e ↦ ground (arith, e)
        | inr (r, e) ↦ ground (arith, e, c.ready id r e)
      ])

  module _ (ctx : WorkerContext) (t : Readings) (s : Shared S) (w : WorkerState) (v : IsShared S s)
      (c : IsCalm S s) where
    -- The attempt is one of the promised moves.
    abbrev Sees : List Match → Outcome S → Type 0
    Sees formed o =
        Move ctx.config (record { queue = view S s; matches = formed })
          (attempted t.bounds (matches_of o.2))
          (record { queue = view S o.0; matches = formed ++ matches_of o.2 })

    unseen :
        (formed : List Match) (o : Outcome S)
        → IsShort ctx.config t.bounds (view S s)
        → view S o.0 ≡ view S s
        → matches_of o.2 ≡ []
        → Sees formed o
    unseen formed o short e f = rw (e, f, append-nil formed) (fails t.bounds short)

    nobody_waits : ((q : Ref) → Candidate S s.heap s.pool q → ⊥) → (j : Uuid) → view S s j ≡ none
    nobody_waits none_waits j = elim (Option-cases (get S j s.pool)) [
      | inl e ↦ rw e refl
      | inr (r, e) ↦ absurd (none_waits r (rw (v.agrees.keyed j r e) e, c.ready j r e))
    ]

    -- Who is near in the queue is among the candidates of the scan.
    near-Found :
        (seed : Ref) (rs : List Ref)
        → Found S ctx t s w v.agrees seed rs
        → length rs < match_size
        → Candidate S s.heap s.pool seed
        → (j : Uuid) → IsNear ctx.config t.bounds (view S s) (s.heap seed) j
        → is_held j (ids_of S s.heap rs) ≡ true
    near-Found seed rs found few k j (p, q, near) = elim (Option-cases (get S j s.pool)) [
      | inl e ↦ absurd (ground (arith, e, q))
      | inr (r, e) ↦
          let keyed = v.agrees.keyed j r e in
          let pooled : Candidate S s.heap s.pool r = (rw keyed e, c.ready j r e) in
          let same : s.heap r ≡ p = ground (arith, e, q) in
          let m =
            found.all_of_few (omega (arith, few)) r
              (Near-Sought S ctx t s w v.agrees seed r k (pooled, rw same near)) in
          subst (λ i. is_held i (ids_of S s.heap rs) ≡ true) keyed
            (held_id S s.heap rs r (In-is_held r rs m))
    ]

    few-IsShort :
        (seed : Ref) (rs : List Ref)
        → Found S ctx t s w v.agrees seed rs
        → length rs < match_size
        → Candidate S s.heap s.pool seed
        → IsShort ctx.config t.bounds (view S s)
    few-IsShort seed rs found few k = inr (
      (s.heap seed).id,
      s.heap seed,
      ap (seen S s.heap) k.0,
      λ js d near. omega (
        arith,
        few,
        length-map (λ r. (s.heap r).id) rs,
        Distinct-length js (ids_of S s.heap rs) d
            (λ j h. near-Found seed rs found few k j (near j h)),
      ),
    )

    formed-Sees :
        {s' : Shared S} {w' : WorkerState} {m : Match} (formed : List Match)
        → attempt_match S ctx t s w ≡ some (s', w', success m)
        → Sees formed (s', w', success m)
    formed-Sees {s'} {w'} {m} formed h =
        let (_, (seed, cs, got, picked, near, f)) = attempt_match_success S ctx t s w v.agrees h in
        let pooled : (r : Ref) → is_held r got ≡ true → get S (s.heap r).id s.pool ≡ some r =
          λ r k. (near r (f.candidates r k)).0.0 in
        rw (formed-view S ctx t s w v c f pooled) (
          forms t.bounds (ids_of S s.heap got) m (
            formed-IsFair S ctx t s w v c f pooled seed
              (select_seed-Candidate S ctx t s w v.agrees picked).0
              (λ r k. near r (f.candidates r k))))

    attempt_match-Sees :
        {s' : Shared S} {w' : WorkerState} {r : MatchAttemptResult} (formed : List Match)
        → attempt_match S ctx t s w ≡ some (s', w', r)
        → Sees formed (s', w', r)
    attempt_match-Sees {s'} {w'} {r} formed h = elim (attempt_match-cases S ctx t s w v.agrees) [
      | inl (none_waits, e) ↦
          subst (Sees formed) (some-eq (sym e ∙ h))
            (unseen formed (s, w, pool_empty) (inl (nobody_waits none_waits)) refl refl)
      | inr (seed, picked, rs, found, inl (few, e)) ↦ subst (Sees formed) (some-eq (sym e ∙ h)) (
          unseen formed (gave_up S ctx t s w v.agrees seed rs)
            (few-IsShort seed rs found few (select_seed-Candidate S ctx t s w v.agrees picked)) refl
            refl)
      | inr (seed, picked, rs, found, inr (enough, e)) ↦
          let (s'', m, done, _) =
            claim_phase-ten S ctx t (cycle S ctx t s w v.agrees) w seed rs
              (found-valid S ctx t s w v.agrees seed rs found)
              (claims_ten S ctx t s w v.agrees seed rs found enough) in
          subst (Sees formed) (some-eq (sym (e ∙ done) ∙ h)) (formed-Sees formed (e ∙ done))
    ]

  Step-config : {sys next : System S} → Step S sys next → next.core.config ≡ sys.core.config
  Step-config {sys} (enqueues now id skill_rating wide) =
      elim (enqueue-cases S now id skill_rating sys.core) [
        | inl (_, e) ↦ rw e refl
        | inr (inl (_, _, e)) ↦ rw e refl
        | inr (inr (_, _, e)) ↦ rw e refl
      ]
  Step-config {sys} (cancels id) = elim (cancel-cases S id sys.core) [
    | inl (_, e) ↦ rw e refl
    | inr (_, _, inl (_, e)) ↦ rw e refl
    | inr (_, _, inr (_, e)) ↦ rw e refl
  ]
  Step-config (attempts i t e) = refl
  Step-config (reaps now_ms) = refl

  -- The act of a step.
  abbrev pub act_of : {sys next : System S} → Step S sys next → Act
  act_of {sys} (enqueues now id skill_rating wide) =
      enqueued now id skill_rating (forget (enqueue S now id skill_rating sys.core).1)
  act_of {sys} (cancels id) = cancelled id (cancel S id sys.core).1
  act_of (attempts i t {r = r} e) = attempted t.bounds (matches_of r)
  act_of (reaps now_ms) = scanned

  abbrev pub acts_in :
      {heap : Heap} {now : Instant} {config : Config} {sys : System S}
      → Reachable S heap now config sys
      → List Act
  acts_in started = []
  acts_in (later run st) = acts_in run ++ act_of st ∷ []

  left-answer :
      (id : Uuid) (core : MatchmakerCore S)
      → IsShared S core.shared
      → IsCalm S core.shared
      → (cancel S id core).1 ≡ (withdraw_spec id (view S core.shared)).1
  left-answer id core v c =
      (cancel-view S id core v).1 ∙ elim (Option-cases (get S id core.shared.pool)) [
        | inl e ↦ ground (arith, e)
        | inr (r, e) ↦ ground (arith, e, c.ready id r e)
      ]

  Step-Move :
      {sys next : System S} (formed : List Match) (st : Step S sys next)
      → IsShared S sys.core.shared
      → IsCalm S sys.core.shared
      → Move sys.core.config
          (service_of sys formed)
          (act_of st)
          (service_of next (formed ++ matches_of_step S st))
  Step-Move {sys} formed (enqueues now id skill_rating wide) v c =
      let promised = enqueue-view S now id skill_rating sys.core v in
      rw (fun_ext promised.0, promised.1, append-nil formed) (joins now id skill_rating)
  Step-Move {sys} formed (cancels id) v c =
      rw (left-queue id sys.core v c, left-answer id sys.core v c, append-nil formed) (leaves id)
  Step-Move {sys} formed (attempts i t e) v c =
      attempt_match-Sees (make_worker_context S i sys.core) t sys.core.shared (sys.workers i) v c
        formed e
  Step-Move {sys} formed (reaps now_ms) v c =
      let t = sys.core.config.stale_claim_timeout_ms in
      let s = sys.core.shared in
      rw
        (
          same-view s (reaper_tick S t now_ms s) (reaper_tick-SameAccounts S t now_ms s v).pool
              (λ j r e. reaper_tick-same S t now_ms s v c r (rw (v.agrees.keyed j r e) e)),
          append-nil formed,
        )
        rests

  Reachable-config :
      {heap : Heap} {now : Instant} {config : Config} {sys : System S}
      → Reachable S heap now config sys
      → sys.core.config ≡ config
  unfolding new
  Reachable-config started = refl
  Reachable-config (later run st) = Step-config st ∙ Reachable-config run

  -- Let calls of `enqueue` and `cancel`, attempts of workers and scans of the Reaper follow each
  -- other as wholes, from the start of the service with no object in memory that is Waiting and
  -- carries the fields of a claim. Then each of them, in this order, does to the queue that
  -- clients see and to the matches formed so far exactly what is promised of it, and each call
  -- answers so (apart from the length of the queue that `enqueue` reports): a player joins
  -- unless its rating is above 3000 or its identifier is in the queue; a cancellation takes the
  -- player out, and is refused only if it is not there; an attempt that forms a match takes
  -- exactly its ten different players out, all of them within the window that one player of the
  -- queue has at the reading of that attempt, in two teams of five as even as these ten allow;
  -- an attempt that forms none changes nothing, and there is none only if the queue is empty or
  -- some player of the queue has fewer than ten within its window; a scan of the Reaper changes
  -- nothing.
  pub Reachable-Reaches :
      {heap : Heap} {now : Instant} {config : Config} {sys : System S}
      → Unclaimed heap
      → (run : Reachable S heap now config sys)
      → Reaches config (acts_in run) (service_of sys (formed_in S run))
  unfolding new Bucket.new
  Reachable-Reaches {config = config} u started =
      subst (λ q. Reaches config [] (record { queue = q; matches = [] }))
        (fun_ext {f = λ j. none} (λ j. sym (rw (S.get-new j) refl))) opened
  Reachable-Reaches {config = config} u (later {sys} {next} run st) =
      moved (Reachable-Reaches u run) (
        subst
          (λ k.
            Move k (service_of sys (formed_in S run)) (act_of st)
              (service_of next (formed_in S (later run st))))
          (Reachable-config run)
          (Step-Move (formed_in S run) st (Reachable-IsShared S run) (Reachable-IsCalm S u run)))
