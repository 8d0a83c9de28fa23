-- ===== src/Prelude/Exec.antt =====
-- Methods that change a state and may raise. What was done before a raise stays done, so the state
-- comes back beside the exception too.
use mathlib.Core.Path.{◌≡◌, refl}

pub data Outcome {ℓ} (X A : Type ℓ) : Type ℓ where
  returned : A → Outcome X A
  raised : X → Outcome X A

abbrev pub Exec {ℓ} : Type ℓ → Type ℓ → Type ℓ → Type ℓ
Exec S X A = S → Outcome X A × S

module _ {ℓ} {S X A : Type ℓ} where
  abbrev pub pure : A → Exec S X A
  pure a s = (returned a, s)

  abbrev pub raise : X → Exec S X A
  raise x s = (raised x, s)

module _ {ℓ} {S X A B : Type ℓ} where
  infixl 10 ◌>>=◌ ◌>>◌
  abbrev pub ◌>>=◌ : Exec S X A → (A → Exec S X B) → Exec S X B
  ◌>>=◌ m f s = let (r, t) = m s in elim r [ returned a ↦ f a t | raised x ↦ (raised x, t) ]

  abbrev pub ◌>>◌ : Exec S X A → Exec S X B → Exec S X B
  m >> n = m >>= λ _. n

-- A property of how `m >>= f` ends, from how `m` ends.
module _ {ℓ κ} {S X A B : Type ℓ} (P : Outcome X B × S → Type κ) where
  bind_cases :
      (f : A → Exec S X B) (r : Outcome X A) (s : S)
      → ((x : X) → r ≡ raised x → P (raised x, s))
      → ((a : A) → r ≡ returned a → P (f a s))
      → P (elim r [ returned a ↦ f a s | raised x ↦ (raised x, s) ])
  bind_cases f (returned a) s hx ha = ha a refl
  bind_cases f (raised x) s hx ha = hx x refl

  pub bind_lem :
      (m : Exec S X A) (f : A → Exec S X B) (s : S)
      → ((x : X) → (m s).0 ≡ raised x → P (raised x, (m s).1))
      → ((a : A) → (m s).0 ≡ returned a → P (f a (m s).1))
      → P ((m >>= f) s)
  bind_lem m f s hx ha = bind_cases f (m s).0 (m s).1 hx ha
