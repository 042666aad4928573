-- ===== src/Engine/Bucket/Sorted.antt =====
-- src/engine/bucket.rs: the index is sorted by key and no key stands twice, so no scan finds a player
-- twice.
use matchmaker.Base.{
  zero, suc, ◌+◌, ◌≤◌, refl, Bool, ◌||◌, map, ◌==◌, take, In, length, if◌then◌else◌, ◌≢◌, ◌∙◌, ap,
  subst, ℕ, ◌≡◌, true, false, List, [], ◌∷◌, arith, keep, All, Bool-cases, inl, inr,
}
use matchmaker.Models.Memory.{Ref, Heap, is_held, Distinct}
use matchmaker.Engine.Bucket.{older, insert_by, sort_by_age}
use matchmaker.Engine.Bucket.Index.{Key, RatingIndex, key_lt, key_eq, index_insert}

-- All keys are greater.
abbrev pub Above : Key → RatingIndex → Type 0
Above k m = All (λ e. key_lt k e.0 ≡ true) m

abbrev pub IsSorted : RatingIndex → Type 0
IsSorted [] = Unit {0}
IsSorted (e ∷ m) = Above e.0 m × IsSorted m

key_lt_trans : (i j k : Key) → key_lt i j ≡ true → key_lt j k ≡ true → key_lt i k ≡ true
key_lt_trans i j k h l = ground arith

Above-trans : (j k : Key) (m : RatingIndex) → key_lt j k ≡ true → Above k m → Above j m
Above-trans j k [] h a = tt
Above-trans j k (e ∷ m) h a = (key_lt_trans j k e.0 h a.0, Above-trans j k m h a.1)

Above-index_insert :
    (j k : Key) (v : ℕ) (m : RatingIndex)
    → key_lt j k ≡ true
    → Above j m
    → Above j (index_insert k v m)
unfolding index_insert
Above-index_insert j k v [] h a = (h, tt)
Above-index_insert j k v ((i, w) ∷ m) h a = ground (arith, Above-index_insert j k v m h a.1)

key_lt_cases : (k j : Key) → key_lt k j ≡ false → key_eq k j ≡ false → key_lt j k ≡ true
key_lt_cases k j h l = ground arith

key_lt-key_eq : (k j i : Key) → key_eq k j ≡ true → key_lt j i ≡ true → key_lt k i ≡ true
key_lt-key_eq k j i h l = ground arith

Above-key_eq : (k j : Key) (m : RatingIndex) → key_eq k j ≡ true → Above j m → Above k m
Above-key_eq k j [] h a = tt
Above-key_eq k j (e ∷ m) h a = (key_lt-key_eq k j e.0 h a.0, Above-key_eq k j m h a.1)

pub index_insert-IsSorted :
    (k : Key) (v : ℕ) (m : RatingIndex) → IsSorted m → IsSorted (index_insert k v m)
unfolding index_insert
index_insert-IsSorted k v [] s = (tt, tt)
index_insert-IsSorted k v ((j, w) ∷ m) s = elim (Bool-cases (key_lt k j)) [
  | inl lt ↦ rw lt ((lt, Above-trans k j m lt s.0), s)
  | inr ge ↦ elim (Bool-cases (key_eq k j)) [
    | inl eq ↦ rw (ge, eq) (Above-key_eq k j m eq s.0, s.1)
    | inr ne ↦
        rw (ge, ne)
          (Above-index_insert j k v m (key_lt_cases k j ge ne) s.0, index_insert-IsSorted k v m s.1)
  ]
]

Above-keep : (p : Key × ℕ → Bool) (k : Key) (m : RatingIndex) → Above k m → Above k (keep p m)
Above-keep p k [] a = tt
Above-keep p k (e ∷ m) a = elim (Bool-cases (p e)) [
  | inl h ↦ rw h (a.0, Above-keep p k m a.1)
  | inr h ↦ rw h (Above-keep p k m a.1)
]

pub keep-IsSorted : (p : Key × ℕ → Bool) (m : RatingIndex) → IsSorted m → IsSorted (keep p m)
keep-IsSorted p [] s = tt
keep-IsSorted p (e ∷ m) s = elim (Bool-cases (p e)) [
  | inl h ↦ rw h (Above-keep p e.0 m s.0, keep-IsSorted p m s.1)
  | inr h ↦ rw h (keep-IsSorted p m s.1)
]

key_lt_irrefl : (k : Key) → key_lt k k ≡ false
key_lt_irrefl k = ground arith

-- Where each reference has one key, a sorted index holds each reference once.
Above-is_held :
    (key : Ref → Key) (r : Ref) (m : RatingIndex)
    → ((e : Key × ℕ) → In e m → e.0 ≡ key e.1)
    → Above (key r) m
    → is_held r (map (λ e. e.1) m) ≡ false
Above-is_held key r [] own a = refl
Above-is_held key r (e ∷ m) own a = elim (Bool-cases (e.1 == r)) [
  | inl h ↦
      let same : e.1 ≡ r = ground (arith, h) in
      absurd (ground (arith, key_lt_irrefl (key r), a.0, own e (inl refl) ∙ ap key same))
  | inr h ↦ ground (arith, h, Above-is_held key r m (λ x i. own x (inr i)) a.1)
]

pub IsSorted-Distinct :
    (key : Ref → Key) (m : RatingIndex)
    → ((e : Key × ℕ) → In e m → e.0 ≡ key e.1)
    → IsSorted m
    → Distinct (map (λ e. e.1) m)
IsSorted-Distinct key [] own s = tt
IsSorted-Distinct key (e ∷ m) own s = (
  Above-is_held key e.1 m (λ x i. own x (inr i)) (subst (λ k. Above k m) (own e (inl refl)) s.0),
  IsSorted-Distinct key m (λ x i. own x (inr i)) s.1,
)

is_held-keep :
    (p : Ref → Bool) (r : Ref) (rs : List Ref)
    → is_held r rs ≡ false
    → is_held r (keep p rs) ≡ false
is_held-keep p r [] h = refl
is_held-keep p r (q ∷ qs) h = ground (arith, is_held-keep p r qs)

pub keep-Distinct : (p : Ref → Bool) (rs : List Ref) → Distinct rs → Distinct (keep p rs)
keep-Distinct p [] d = tt
keep-Distinct p (r ∷ rs) d = elim (Bool-cases (p r)) [
  | inl h ↦ rw h (is_held-keep p r rs d.0, keep-Distinct p rs d.1)
  | inr h ↦ rw h (keep-Distinct p rs d.1)
]

is_held-take :
    (n : ℕ) (r : Ref) (rs : List Ref) → is_held r rs ≡ false → is_held r (take n rs) ≡ false
is_held-take zero r rs h = refl
is_held-take (suc n) r [] h = refl
is_held-take (suc n) r (q ∷ qs) h = ground (arith, is_held-take n r qs)

pub take-Distinct : (n : ℕ) (rs : List Ref) → Distinct rs → Distinct (take n rs)
take-Distinct zero rs d = tt
take-Distinct (suc n) [] d = tt
take-Distinct (suc n) (r ∷ rs) d = (is_held-take n r rs d.0, take-Distinct n rs d.1)

module _ (heap : Heap) where
  is_held-insert_by :
      (x r : Ref) (qs : List Ref) → is_held x (insert_by heap r qs) ≡ (r == x || is_held x qs)
  unfolding insert_by
  is_held-insert_by x r [] = refl
  is_held-insert_by x r (q ∷ qs) = ground (arith, is_held-insert_by x r qs)

  insert_by-Distinct :
      (r : Ref) (qs : List Ref)
      → is_held r qs ≡ false
      → Distinct qs
      → Distinct (insert_by heap r qs)
  unfolding insert_by
  insert_by-Distinct r [] h d = (refl, tt)
  insert_by-Distinct r (q ∷ qs) h d = elim (Bool-cases (older (heap q) (heap r))) [
    | inl b ↦ rw b (
      ground (arith, is_held-insert_by q r qs, h, d.0),
      insert_by-Distinct r qs (ground (arith, h)) d.1,
    )
    | inr b ↦ rw b (h, d)
  ]

  is_held-sort_by_age : (x : Ref) (rs : List Ref) → is_held x (sort_by_age heap rs) ≡ is_held x rs
  unfolding sort_by_age
  is_held-sort_by_age x [] = refl
  is_held-sort_by_age x (r ∷ rs) =
      ground (arith, is_held-insert_by x r (sort_by_age heap rs), is_held-sort_by_age x rs)

  pub sort_by_age-Distinct : (rs : List Ref) → Distinct rs → Distinct (sort_by_age heap rs)
  unfolding sort_by_age
  sort_by_age-Distinct [] d = tt
  sort_by_age-Distinct (r ∷ rs) d =
      insert_by-Distinct r (sort_by_age heap rs) (is_held-sort_by_age r rs ∙ d.0)
        (sort_by_age-Distinct rs d.1)

without : Ref → List Ref → List Ref
without r [] = []
without r (q ∷ qs) = let rest = without r qs in if q == r then qs else q ∷ rest

length-without :
    (r : Ref) (rs : List Ref) → is_held r rs ≡ true → length (without r rs) + 1 ≡ length rs
unfolding without
length-without r [] h = absurd (ground arith)
length-without r (q ∷ qs) h = ground (arith, length-without r qs)

is_held-without :
    (r x : Ref) (rs : List Ref) → is_held x rs ≡ true → r ≢ x → is_held x (without r rs) ≡ true
unfolding without
is_held-without r x [] h ne = absurd (ground arith)
is_held-without r x (q ∷ qs) h ne = ground (arith, is_held-without r x qs)

-- Different references that all stand in a list are no more than it has.
pub Distinct-length :
    (rs qs : List Ref)
    → Distinct rs
    → ((r : Ref) → is_held r rs ≡ true → is_held r qs ≡ true)
    → length rs ≤ length qs
Distinct-length [] qs d h = omega arith
Distinct-length (r ∷ rs) qs d h = omega (
  arith,
  length-without r qs (h r (ground arith)),
  Distinct-length rs (without r qs) d.1
      (λ x m. is_held-without r x qs (h x (ground (arith, m))) (ground (arith, m, d.0))),
)
