-- ===== src/Base/Results.antt =====
-- `Result<A, E>`; the operator `?` is the bind of a `do` block.
pub data Result {ℓ κ} (E : Type ℓ) (A : Type κ) : Type (ℓ ⊔ κ) where
  ok : A → Result E A
  err : E → Result E A

module _ {ℓ κ} {E : Type ℓ} {B : Type κ} where
  infixl 4 ◌>>=◌
  infixl 4 ◌>>◌
  -- An error leaves the block.
  abbrev pub ◌>>=◌ {ι} : {A : Type ι} → Result E A → (A → Result E B) → Result E B
  err why >>= next = err why
  ok value >>= next = next value

  abbrev pub ◌>>◌ : Result E (Unit {0}) → Result E B → Result E B
  err why >> next = err why
  ok done >> next = next
