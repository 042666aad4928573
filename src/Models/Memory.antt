-- ===== src/Models/Memory.antt =====
-- The memory behind `Arc<Player>` (src/models/mod.rs): every clone of an `Arc` names one object, and
-- a method that is called through one clone is seen through all.
pub mod Held
use matchmaker.Base.{◌≡◌, ℕ, Bool, false, ◌||◌, List, [], ◌∷◌, ◌==◌, if◌then◌else◌}
use matchmaker.Models.Player.{Player}

-- An `Arc<Player>`, or a `Weak<Player>`: the number of its object.
abbrev pub Ref : Type 0
Ref = ℕ

abbrev pub Heap : Type 0
Heap = Ref → Player

abbrev pub write : Heap → Ref → Player → Heap
write heap r p q = if q == r then p else heap q

abbrev pub is_held : Ref → List Ref → Bool
is_held r [] = false
is_held r (q ∷ qs) = q == r || is_held r qs

-- No reference stands twice.
abbrev pub Distinct : List Ref → Type 0
Distinct [] = Unit {0}
Distinct (r ∷ rs) = (is_held r rs ≡ false) × Distinct rs
