-- ===== src/Engine/Bucket/Index.antt =====
-- The rating index of src/engine/bucket.rs: the standard library's `BTreeMap<(u32, Uuid), Weak>`, as
-- the list of its entries in the order of their keys.
use matchmaker.Base.{
  refl, arith, false, inl, ◌⊎◌, ℕ, ◌≡◌, Bool, ◌&&◌, ◌||◌, not, Option, none, some, List, [], ◌∷◌,
  ltb, ◌==◌, if◌then◌else◌, keep, Any,
}

-- The rating and the identifier.
abbrev pub Key : Type 0
Key = ℕ × ℕ

abbrev pub RatingIndex : Type 0
RatingIndex = List (Key × ℕ)

abbrev pub key_lt : Key → Key → Bool
key_lt (r, i) (s, j) = ltb r s || (r == s && ltb i j)

abbrev pub key_eq : Key → Key → Bool
key_eq (r, i) (s, j) = r == s && i == j

unfoldable pub index_insert : Key → ℕ → RatingIndex → RatingIndex
index_insert k v [] = (k, v) ∷ []
index_insert k v ((j, w) ∷ m) =
    let later = index_insert k v m in
    if key_lt k j then (k, v) ∷ (j, w) ∷ m else if key_eq k j then (k, v) ∷ m else (j, w) ∷ later

unfoldable pub index_remove : Key → RatingIndex → RatingIndex
index_remove k m = keep (λ e. not (key_eq k e.0)) m

-- `range(lower..=upper)`; `none` is the panic on a lower bound above the upper one.
unfoldable pub range : Key → Key → RatingIndex → Option RatingIndex
range lower upper m =
    if key_lt upper lower
    then none
    else some (keep (λ e. not (key_lt e.0 lower) && not (key_lt upper e.0)) m)

abbrev pub Entry : Key → ℕ → RatingIndex → Type 0
Entry k v m = Any (λ e. e ≡ (k, v)) m

pub Entry-insert_self : (k : Key) (v : ℕ) (m : RatingIndex) → Entry k v (index_insert k v m)
unfolding index_insert
Entry-insert_self k v [] = inl refl
Entry-insert_self k v ((j, w) ∷ m) = ground (arith, Entry-insert_self k v m)

-- Another entry stays, unless it has the key of the new one.
pub Entry-insert :
    (k j : Key) (v w : ℕ) (m : RatingIndex)
    → Entry j w m
    → key_eq k j ≡ false
    → Entry j w (index_insert k v m)
unfolding index_insert
Entry-insert k j v w [] e h = absurd e
Entry-insert k j v w ((i, u) ∷ m) e h = ground (arith, Entry-insert k j v w m)

pub insert-Entry :
    (k j : Key) (v w : ℕ) (m : RatingIndex)
    → Entry j w (index_insert k v m)
    → ((j ≡ k) × (w ≡ v)) ⊎ Entry j w m
unfolding index_insert
insert-Entry k j v w [] e = ground arith
insert-Entry k j v w ((i, u) ∷ m) e = ground (arith, insert-Entry k j v w m)
