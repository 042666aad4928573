-- ===== src/Engine/Bucket/Store.antt =====
-- The concurrent map of the crate dashmap, as src/engine/bucket.rs uses it: from identifiers to
-- references, one operation at a time.
use matchmaker.Base.{ℕ, ◌+◌, ◌≡◌, ◌↔◌, Option, none, some, List, ◌==◌, if◌then◌else◌, Any}

-- What the documentation of the crate says of the map, and no more: in which order the entries come
-- is left open.
pub record ConcurrentMap : Type 1 where
  pub Map : Type 0
  pub new : Map
  pub get : ℕ → Map → Option ℕ
  pub insert : ℕ → ℕ → Map → Map
  pub remove : ℕ → Map → Map
  pub iter : Map → List (ℕ × ℕ)
  pub len : Map → ℕ
  pub get-new : (k : ℕ) → get k new ≡ none
  pub get-insert :
      (k j v : ℕ) (m : Map) → get j (insert k v m) ≡ (if j == k then some v else get j m)
  pub get-remove : (k j : ℕ) (m : Map) → get j (remove k m) ≡ (if j == k then none else get j m)
  pub iter-get : (k v : ℕ) (m : Map) → (get k m ≡ some v) ↔ Any (λ e. e ≡ (k, v)) (iter m)
  pub len-new : len new ≡ 0
  pub len-insert : (k v : ℕ) (m : Map) → get k m ≡ none → len (insert k v m) ≡ len m + 1
  pub len-insert_again : (k v w : ℕ) (m : Map) → get k m ≡ some w → len (insert k v m) ≡ len m
  pub len-remove : (k v : ℕ) (m : Map) → get k m ≡ some v → len (remove k m) + 1 ≡ len m
