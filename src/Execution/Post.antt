-- ===== src/Execution/Post.antt =====
-- Results that are no panic, and whose value has a property.
use agent_pane.Prelude.{◌≡◌, refl, Bool, true, false, Option, none, some, on_some, if◌then◌else◌}
use agent_pane.Execution.{Code, Result, ok, err, panic, ◌>>=◌}

pub data Post {ℓ κ} {A : Type ℓ} (P : A → Type κ) : Result A → Type (ℓ ⊔ κ) where
  returns : (a : A) → P a → Post P (ok a)
  fails : (e : Code) → Post P (err e)

module _ {ℓ κ} {A : Type ℓ} (P : A → Type κ) where
  pub Post-if :
      (b : Bool) (m n : Result A)
      → (b ≡ true → Post P m)
      → (b ≡ false → Post P n)
      → Post P (if b then m else n)
  Post-if true m n h k = h refl
  Post-if false m n h k = k refl

  pub Post-option {ι} :
      {B : Type ι} (o : Option B) (f : B → Result A) (n : Result A)
      → ((b : B) → o ≡ some b → Post P (f b))
      → Post P n
      → Post P (on_some o f n)
  Post-option (some b) f n h k = h b refl
  Post-option none f n h k = k

  pub Post-ne-panic : (m : Result A) → Post P m → m ≡ panic → ⊥
  Post-ne-panic m (returns a h) e = cc
  Post-ne-panic m (fails x) e = cc

  pub Post-ok : (m : Result A) (a : A) → Post P m → m ≡ ok a → P a
  Post-ok m a (returns b h) e = ok_inj h (cc)
    where
      ok_inj : {b : A} → P b → b ≡ a → P a
      ok_inj h e = rw e at h
  Post-ok m a (fails x) e = absurd (cc)

pub Post-bind {ℓ κ ι ν} :
    {A : Type ℓ} {B : Type κ} (P : A → Type ι) (Q : B → Type ν) (m : Result A) (f : A → Result B)
    → Post P m
    → ((a : A) → P a → Post Q (f a))
    → Post Q (m >>= f)
Post-bind P Q m f (returns a h) k = k a h
Post-bind P Q m f (fails e) k = fails e

-- A result that is no panic, with its own equation.
pub Post-self {ℓ κ} :
    {A : Type ℓ} (P : A → Type κ) (m : Result A) → Post P m → Post (λ a. m ≡ ok a) m
Post-self P m (returns a h) = returns a refl
Post-self P m (fails e) = fails e

pub Post-with {ℓ κ} :
    {A : Type ℓ} (P : A → Type κ) (m : Result A) → Post P m → Post (λ a. P a × (m ≡ ok a)) m
Post-with P m (returns a h) = returns a (h, refl)
Post-with P m (fails e) = fails e

pub Post-imp {ℓ κ ι} :
    {A : Type ℓ} (P : A → Type κ) (Q : A → Type ι) (m : Result A)
    → ((a : A) → P a → Q a)
    → Post P m
    → Post Q m
Post-imp P Q m f (returns a h) = returns a (f a h)
Post-imp P Q m f (fails e) = fails e
