-- ===== src/Workers/Service/Fair.antt =====
-- src/engine/matcher.rs: a match is fair to the queue as clients see it.
use mathlib.Core.Path.{fun_ext}
use matchmaker.Base.{
  ap, sym, ◌∙◌, ℕ, ◌≡◌, inl, inr, refl, true, some, List, [], ◌∷◌, arith, Bool-cases, Option-cases,
  map-In, map, length, length-map, total,
}
use matchmaker.Models.Memory.{Ref, is_held, Distinct}
use matchmaker.Models.Match.{Match}
use matchmaker.Engine.Bucket.Store.{ConcurrentMap}
use matchmaker.Engine.Bucket.{get}
use matchmaker.Engine.Balancer.Splits.{Splits, done, left, right, flip}
use matchmaker.Engine.Matcher.{WorkerContext, WorkerState, Readings, Shared}
use matchmaker.Engine.Matcher.Removal.{held_id, ids_of}
use matchmaker.Engine.Matcher.Forming.{In-is_held, is_held-In}
use matchmaker.Engine.Matcher.Forming.Success.{FormedFrom}
use matchmaker.Engine.Matcher.Attempt.{cycle}
use matchmaker.Engine.Matcher.Attempt.Outcomes.{Near}
use matchmaker.Engine.Core.Queue.{IsShared, view, seen}
use matchmaker.Workers.Service.{IsFair, without, sum_in}
use matchmaker.Workers.Service.Calm.{IsCalm}

-- A split of the images comes from a split of the list.
Splits-map :
    {A B : Type 0} (f : A → B) (xs : List A) {ps bs : List B}
    → Splits (map f xs) ps bs
    → (qs : List A) × (cs : List A) × Splits xs qs cs × (map f qs ≡ ps) × (map f cs ≡ bs)
Splits-map f [] done = ([], [], done, refl, refl)
Splits-map f (x ∷ xs) (left s) =
    let (qs, cs, t, p, q) = Splits-map f xs s in (x ∷ qs, cs, left t, ap (λ ys. f x ∷ ys) p, q)
Splits-map f (x ∷ xs) (right s) =
    let (qs, cs, t, p, q) = Splits-map f xs s in (qs, x ∷ cs, right t, p, ap (λ ys. f x ∷ ys) q)

Splits-held :
    {xs ps bs : List Ref} → Splits xs ps bs → (r : Ref) → is_held r ps ≡ true → is_held r xs ≡ true
Splits-held done r h = h
Splits-held (left s) r h = ground (arith, Splits-held s r)
Splits-held (right s) r h = ground (arith, Splits-held s r)

module _ (S : ConcurrentMap) (ctx : WorkerContext) (t : Readings) (s : Shared S) (w : WorkerState)
    (v : IsShared S s) (c : IsCalm S s) where
  module _ {limit : ℕ} {cs got : List Ref} {s' : Shared S} {m : Match}
      (f : FormedFrom S limit cs (cycle S ctx t s w v.agrees) s' m got)
      (pooled : (r : Ref) → is_held r got ≡ true → get S (s.heap r).id s.pool ≡ some r) where
    pub formed-view : view S s' ≡ without (ids_of S s.heap got) (view S s)
    formed-view = fun_ext (λ j. elim (Bool-cases (is_held j (ids_of S s.heap got))) [
      | inl e ↦ ground (arith, f.removed j, e)
      | inr e ↦ elim (Option-cases (get S j s.pool)) [
        | inl h ↦ ground (arith, f.removed j, e, h)
        | inr (r, h) ↦ ground (
          arith,
          f.removed j,
          e,
          h,
          f.untouched r,
          v.agrees.keyed j r h,
          held_id S s.heap got r,
          Bool-cases (is_held r got),
        )
      ]
    ])

    ids-Distinct :
        (rs : List Ref)
        → Distinct rs
        → ((r : Ref) → is_held r rs ≡ true → is_held r got ≡ true)
        → Distinct (ids_of S s.heap rs)
    ids-Distinct [] d h = tt
    ids-Distinct (r ∷ rs) d h = (
      elim (Bool-cases (is_held (s.heap r).id (ids_of S s.heap rs))) [
        | inl e ↦
            let (q, m, same) = map-In (λ q. (s.heap q).id) (s.heap r).id rs (is_held-In _ _ e) in
            let k : is_held q rs ≡ true = In-is_held q rs m in
            absurd (
              ground
                (arith, pooled r (h r (ground arith)), pooled q (h q (ground arith)), same, k, d.0))
        | inr e ↦ e
      ],
      ids-Distinct rs d.1 (λ q k. h q (ground arith)),
    )

    sum_in-ids :
        (rs : List Ref)
        → ((r : Ref) → is_held r rs ≡ true → is_held r got ≡ true)
        → sum_in (view S s) (ids_of S s.heap rs) ≡ total (map (λ r. (s.heap r).skill_rating) rs)
    sum_in-ids [] h = refl
    sum_in-ids (r ∷ rs) h =
        rw (pooled r (h r (ground arith)), sum_in-ids rs (λ q k. h q (ground arith))) refl

    pub formed-IsFair :
        (seed : Ref)
        → get S (s.heap seed).id s.pool ≡ some seed
        → ((r : Ref) → is_held r got ≡ true → Near S ctx t s w v.agrees seed r)
        → IsFair ctx.config t.bounds (view S s) (ids_of S s.heap got) m
    formed-IsFair seed here near = record {
      listed = f.teams;
      distinct = ids-Distinct got f.distinct (λ r h. h);
      ten = length-map _ got ∙ f.ten;
      five_a = f.five_a;
      five_b = f.five_b;
      anchor = (s.heap seed).id;
      seed = s.heap seed;
      anchored = ap (seen S s.heap) here;
      near = λ j h.
          let (r, i, e) = map-In (λ q. (s.heap q).id) j got (is_held-In _ _ h) in
          let k : is_held r got ≡ true = In-is_held r got i in
          (s.heap r, rw (← e) (ap (seen S s.heap) (pooled r k)), (near r k).1);
      delta =
          let (qs, rs, parts, a, b, d) = f.parted in
          d
          ∙ sym (
              rw (a, b, sum_in-ids qs (Splits-held parts), sum_in-ids rs (Splits-held (flip parts)))
                refl);
      fairest = λ ps bs split five.
          let (qs, rs, parts, p, q) = Splits-map (λ r. (s.heap r).id) got split in
          rw (← p, ← q, sum_in-ids qs (Splits-held parts), sum_in-ids rs (Splits-held (flip parts)))
            (f.fairest qs rs parts (sym (length-map _ qs) ∙ ap length p ∙ five));
    }
