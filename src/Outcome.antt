-- ===== src/Outcome.antt =====
-- What a call of the source does, where it may not return.
use matchengine.Prelude.{Option, some, none, ◌≡◌, refl}

-- It returns, it panics, or it has used up the fuel of the model.
pub data Outcome {ℓ} (B : Type ℓ) : Type ℓ where
  done : B → Outcome B
  panicked : Outcome B
  exhausted : Outcome B

infixl 5 ◌>>=◌
abbrev pub ◌>>=◌ {ℓ κ} : {B : Type ℓ} {C : Type κ} → Outcome B → (B → Outcome C) → Outcome C
done b >>= f = f b
panicked >>= f = panicked
exhausted >>= f = exhausted

abbrev pub within {ℓ} : {B : Type ℓ} → Option B → Outcome B
within none = exhausted
within (some b) = done b

abbrev pub checked {ℓ} : {B : Type ℓ} → Option B → Outcome B
checked none = panicked
checked (some b) = done b

pub >>=-eq-done {ℓ κ} :
    {B : Type ℓ} {C : Type κ} (m : Outcome B) (f : B → Outcome C) {c : C}
    → (m >>= f) ≡ done c
    → (b : B) × (m ≡ done b) × (f b ≡ done c)
>>=-eq-done (done b) f h = (b, refl, h)
>>=-eq-done panicked f h = cc
>>=-eq-done exhausted f h = cc

-- A value or an error.
pub data Result {ℓ κ} (E : Type ℓ) (B : Type κ) : Type (ℓ ⊔ κ) where
  ok : B → Result E B
  err : E → Result E B
