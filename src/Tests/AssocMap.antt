-- ===== src/Tests/AssocMap.antt =====
-- A concurrent map as an association list, for src/engine/bucket.rs.
use matchmaker.Base.{
  ℕ, ◌+◌, ◌≡◌, refl, Option, none, some, List, [], ◌∷◌, arith, ◌==◌, if◌then◌else◌, length, Any,
}
use matchmaker.Engine.Bucket.Store.{ConcurrentMap}

abbrev Entries : Type 0
Entries = List (ℕ × ℕ)

abbrev lookup : ℕ → Entries → Option ℕ
lookup k [] = none
lookup k ((j, v) ∷ es) = if j == k then some v else lookup k es

abbrev delete : ℕ → Entries → Entries
delete k [] = []
delete k ((j, v) ∷ es) = if j == k then delete k es else (j, v) ∷ delete k es

-- No key stands twice.
abbrev Unique : Entries → Type 0
Unique [] = Unit {0}
Unique ((k, v) ∷ es) = (lookup k es ≡ none) × Unique es

pub lookup-delete :
    (k j : ℕ) (es : Entries) → lookup j (delete k es) ≡ (if j == k then none else lookup j es)
lookup-delete k j [] = ground arith
lookup-delete k j ((i, v) ∷ es) = ground (arith, lookup-delete k j es)

pub Unique-delete : (k : ℕ) (es : Entries) → Unique es → Unique (delete k es)
Unique-delete k [] u = tt
Unique-delete k ((i, v) ∷ es) u = ground (arith, Unique-delete k es, lookup-delete k i es)

pub delete-none : (k : ℕ) (es : Entries) → lookup k es ≡ none → delete k es ≡ es
delete-none k [] e = refl
delete-none k ((i, v) ∷ es) e = ground (arith, delete-none k es)

pub length-delete :
    (k v : ℕ) (es : Entries)
    → Unique es
    → lookup k es ≡ some v
    → length (delete k es) + 1 ≡ length es
length-delete k v [] u e = absurd (ground (arith, e))
length-delete k v ((i, w) ∷ es) u e = ground (arith, u, e, length-delete k v es, delete-none k es)

pub lookup-In : (k v : ℕ) (es : Entries) → lookup k es ≡ some v → Any (λ e. e ≡ (k, v)) es
lookup-In k v [] e = absurd (ground (arith, e))
lookup-In k v ((i, w) ∷ es) e = ground (arith, e, lookup-In k v es)

pub In-lookup :
    (k v : ℕ) (es : Entries) → Unique es → Any (λ e. e ≡ (k, v)) es → lookup k es ≡ some v
In-lookup k v [] u m = absurd m
In-lookup k v ((i, w) ∷ es) u m = ground (arith, u, m, In-lookup k v es)

abbrev pub insert : ℕ → ℕ → Entries → Entries
insert k v es = (k, v) ∷ delete k es

pub lookup-insert :
    (k j v : ℕ) (es : Entries) → lookup j (insert k v es) ≡ (if j == k then some v else lookup j es)
lookup-insert k j v es = ground (arith, lookup-delete k j es)

pub Unique-insert : (k v : ℕ) (es : Entries) → Unique es → Unique (insert k v es)
Unique-insert k v es u = (ground (arith, lookup-delete k k es), Unique-delete k es u)

pub length-insert :
    (k v : ℕ) (es : Entries) → lookup k es ≡ none → length (insert k v es) ≡ length es + 1
length-insert k v es e = ground (arith, delete-none k es e)

pub length-insert_again :
    (k v w : ℕ) (es : Entries)
    → Unique es
    → lookup k es ≡ some w
    → length (insert k v es) ≡ length es
length-insert_again k v w es u e = omega (arith, length-delete k w es u e)

abbrev pub assoc_map : ConcurrentMap
assoc_map = record {
  Map = (es : Entries) × Unique es;
  new = ([], tt);
  get = λ k m. lookup k m.0;
  insert = λ k v m. (insert k v m.0, Unique-insert k v m.0 m.1);
  remove = λ k m. (delete k m.0, Unique-delete k m.0 m.1);
  iter = λ m. m.0;
  len = λ m. length m.0;
  get-new = λ k. refl;
  get-insert = λ k j v m. lookup-insert k j v m.0;
  get-remove = λ k j m. lookup-delete k j m.0;
  iter-get = λ k v m. (lookup-In k v m.0, In-lookup k v m.0 m.1);
  len-new = refl;
  len-insert = λ k v m e. length-insert k v m.0 e;
  len-insert_again = λ k v w m e. length-insert_again k v w m.0 m.1 e;
  len-remove = λ k v m e. length-delete k v m.0 m.1 e;
}
