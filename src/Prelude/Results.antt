-- ===== src/Prelude/Results.antt =====
-- Values that may be an exception of type E instead: `fail` is a throw, `>>=` an await.
use mathlib.Core.Path.{◌≡◌, refl, ap}
use mathlib.Core.Bool.{Bool, true, false}
use mathlib.Core.Option.{Option, none, some}

pub data Checked (E : Type 0) (A : Type 0) : Type 0 where
  good : A → Checked E A
  fail : E → Checked E A

module _ {E : Type 0} where
  infixl 5 ◌>>=◌ ◌>>◌
  abbrev pub ◌>>=◌ : {A B : Type 0} → Checked E A → (A → Checked E B) → Checked E B
  good x >>= f = f x
  fail e >>= f = fail e

  abbrev pub ◌>>◌ : {B : Type 0} → Checked E (Unit {0}) → Checked E B → Checked E B
  m >> k = m >>= λ _. k

  -- `if (!condition) throw e`
  abbrev pub require : Bool → E → Checked E (Unit {0})
  require true e = good tt
  require false e = fail e

  -- `if (value === null) throw e`
  abbrev pub found : {A : Type 0} → Option A → E → Checked E A
  found none e = fail e
  found (some a) e = good a

  pub bind-good :
      {A B : Type 0} (m : Checked E A) (f : A → Checked E B) (y : B)
      → (m >>= f) ≡ good y
      → (x : A) × (m ≡ good x) × (f x ≡ good y)
  bind-good (good x) f y h = (x, refl, h)
  bind-good (fail e) f y h = cc

  pub require-good : (b : Bool) (e : E) → require b e ≡ good tt → b ≡ true
  require-good true e h = refl
  require-good false e h = cc

  pub after :
      {A : Type 0} (b : Bool) (e : E) (k : Checked E A) (x : A)
      → (require b e >> k) ≡ good x
      → (b ≡ true) × (k ≡ good x)
  after true e k x h = (refl, h)
  after false e k x h = cc

  pub good-inj : {A : Type 0} (x y : A) → Path (Checked E A) (good x) (good y) → x ≡ y
  good-inj x y h = cc

  pub found-good : {A : Type 0} (o : Option A) (e : E) (x : A) → found o e ≡ good x → o ≡ some x
  found-good none e x h = cc
  found-good (some a) e x h = ap some (good-inj a x h)

  -- Two steps that both came back.
  pub both-good :
      {A : Type 0} (m : Checked E (Unit {0})) (k : Checked E A) (y : A)
      → (m >> k) ≡ good y
      → (m ≡ good tt) × (k ≡ good y)
  both-good (good u) k y h = (refl, h)
  both-good (fail e) k y h = cc
