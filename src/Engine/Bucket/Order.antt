-- ===== src/Engine/Bucket/Order.antt =====
-- src/engine/bucket.rs: the order by age, the sort of the candidates and the choice of the oldest.
use matchmaker.Base.{
  some-eq, suc, ◌≡◌, refl, ◌⊎◌, inl, inr, true, false, none, some, List, [], ◌∷◌, arith, length,
  All, In, All-In, In-All, Bool-cases,
}
use matchmaker.Models.Player.{Player}
use matchmaker.Models.Memory.{Ref, Heap}
use matchmaker.Engine.Bucket.{older, insert_by, sort_by_age, oldest_from, oldest_of}

pub older_trans : (a b c : Player) → older b a ≡ false → older c b ≡ false → older c a ≡ false
older_trans a b c h k = ground arith

pub older_asym : (a b : Player) → older a b ≡ true → older b a ≡ false
older_asym a b h = ground arith

-- `older` tells two players apart unless they have one identifier.
pub older_total : (a b : Player) → older a b ≡ false → older b a ≡ false → a.id ≡ b.id
older_total a b h k = ground arith

module _ (heap : Heap) where
  -- Nobody in the list is older than `r`.
  abbrev pub Eldest : Ref → List Ref → Type 0
  Eldest r qs = All (λ q. older (heap q) (heap r) ≡ false) qs

  abbrev pub IsByAge : List Ref → Type 0
  IsByAge [] = Unit {0}
  IsByAge (r ∷ rs) = Eldest r rs × IsByAge rs

  pub length-insert_by : (r : Ref) (qs : List Ref) → length (insert_by heap r qs) ≡ suc (length qs)
  unfolding insert_by
  length-insert_by r [] = refl
  length-insert_by r (q ∷ qs) = ground (arith, length-insert_by r qs)

  pub length-sort_by_age : (rs : List Ref) → length (sort_by_age heap rs) ≡ length rs
  unfolding sort_by_age
  length-sort_by_age [] = refl
  length-sort_by_age (r ∷ rs) =
      ground (arith, length-insert_by r (sort_by_age heap rs), length-sort_by_age rs)

  insert_by-In : (r x : Ref) (qs : List Ref) → In x (insert_by heap r qs) → (r ≡ x) ⊎ In x qs
  unfolding insert_by
  insert_by-In r x [] m = ground arith
  insert_by-In r x (q ∷ qs) m = ground (arith, insert_by-In r x qs)

  In-insert_by : (r x : Ref) (qs : List Ref) → (r ≡ x) ⊎ In x qs → In x (insert_by heap r qs)
  unfolding insert_by
  In-insert_by r x [] m = ground arith
  In-insert_by r x (q ∷ qs) m = ground (arith, In-insert_by r x qs)

  pub sort_by_age-In : (x : Ref) (rs : List Ref) → In x (sort_by_age heap rs) → In x rs
  unfolding sort_by_age
  sort_by_age-In x [] m = m
  sort_by_age-In x (r ∷ rs) m =
      ground (arith, insert_by-In r x (sort_by_age heap rs) m, sort_by_age-In x rs)

  pub In-sort_by_age : (x : Ref) (rs : List Ref) → In x rs → In x (sort_by_age heap rs)
  unfolding sort_by_age
  In-sort_by_age x [] m = m
  In-sort_by_age x (r ∷ rs) m =
      In-insert_by r x (sort_by_age heap rs) (ground (arith, In-sort_by_age x rs))

  Eldest_mono :
      (r q : Ref) (qs : List Ref) → older (heap q) (heap r) ≡ false → Eldest q qs → Eldest r qs
  Eldest_mono r q [] h e = tt
  Eldest_mono r q (x ∷ xs) h e =
      (older_trans (heap r) (heap q) (heap x) h e.0, Eldest_mono r q xs h e.1)

  insert_by-IsByAge : (r : Ref) (qs : List Ref) → IsByAge qs → IsByAge (insert_by heap r qs)
  unfolding insert_by
  insert_by-IsByAge r [] h = (tt, tt)
  insert_by-IsByAge r (q ∷ qs) h = elim (Bool-cases (older (heap q) (heap r))) [
    | inl e ↦ rw e (
      All-In _ (insert_by heap r qs) (λ x m. elim (insert_by-In r x qs m) [
        | inl same ↦ ground (arith, older_asym (heap q) (heap r) e)
        | inr old ↦ In-All _ qs x h.0 old
      ]),
      insert_by-IsByAge r qs h.1,
    )
    | inr e ↦ rw e ((e, Eldest_mono r q qs e h.0), h)
  ]

  pub sort_by_age-IsByAge : (rs : List Ref) → IsByAge (sort_by_age heap rs)
  unfolding sort_by_age
  sort_by_age-IsByAge [] = tt
  sort_by_age-IsByAge (r ∷ rs) = insert_by-IsByAge r (sort_by_age heap rs) (sort_by_age-IsByAge rs)

  -- What the fold ends with: one of its elements, and none of them is older.
  record IsOldest (best : Ref) (qs : List Ref) (r : Ref) : Type 0 where
    among : (best ≡ r) ⊎ In r qs
    first : older (heap best) (heap r) ≡ false
    others : Eldest r qs

  oldest_from-IsOldest :
      (best : Ref) (qs : List Ref) (r : Ref) → oldest_from heap best qs ≡ r → IsOldest best qs r
  unfolding oldest_from
  oldest_from-IsOldest best [] r e = record {
    among = inl e;
    first = rw (← e) (ground arith);
    others = tt;
  }
  oldest_from-IsOldest best (q ∷ qs) r e = elim (Bool-cases (older (heap q) (heap best))) [
    | inl o ↦
        let k = oldest_from-IsOldest q qs r (rw o at e) in
        record {
          among = inr k.among;
          first =
              older_trans (heap r) (heap q) (heap best) k.first (older_asym (heap q) (heap best) o);
          others = (k.first, k.others);
        }
    | inr o ↦
        let k = oldest_from-IsOldest best qs r (rw o at e) in
        record {
          among = ground (arith, k.among);
          first = k.first;
          others = (older_trans (heap r) (heap best) (heap q) k.first o, k.others);
        }
  ]

  -- The oldest of a list is in it, and nobody in it is older.
  pub oldest_of-some :
      (rs : List Ref) (r : Ref) → oldest_of heap rs ≡ some r → In r rs × Eldest r rs
  unfolding oldest_of
  oldest_of-some [] r e = absurd (ground arith)
  oldest_of-some (q ∷ qs) r e =
      let k = oldest_from-IsOldest q qs r (some-eq e) in (k.among, (k.first, k.others))

  -- Only the empty list has none.
  pub oldest_of-none : (rs : List Ref) → oldest_of heap rs ≡ none → rs ≡ []
  unfolding oldest_of
  oldest_of-none [] e = refl
  oldest_of-none (q ∷ qs) e = absurd (ground arith)
