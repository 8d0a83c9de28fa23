-- ===== src/Prelude/Keys.antt =====
-- The keys of a dictionary: what setting and removing an entry does to them.
use johnny.Prelude.Tests.{if◌then◌else◌, Bool-cases}
use johnny.Prelude.Lists.{count, length, Dict, insert, remove}
use Prim.Native.Nat.{◌≤◌}
use Prim.Native.String.{String}
use native.Mathlib.Omega.{arith}
use mathlib.Core.Path.{◌≡◌, refl, ap}
use mathlib.Core.Logic.{inl, inr}
use mathlib.Core.Bool.{Bool, true, false, not, ◌&&◌}
use mathlib.Core.List.{List, [], ◌∷◌, map}
use text.Mathlib.Text.{◌==◌}
use text.Mathlib.TextEquality.{eq_iff}

abbrev pub key_of : {A B : Type 0} → A × B → A
key_of (k, v) = k

abbrev pub keys : {V : Type 0} → Dict V → List String
keys d = map key_of d

-- The same entries, each as often.
abbrev pub IsRearrangement : List String → List String → Type 0
IsRearrangement xs ys = (p : String → Bool) → count p xs ≡ count p ys

abbrev pub IsDistinct : List String → Type 0
IsDistinct xs = (j : String) → count (λ i. i == j) xs ≤ 1

module _ {V : Type 0} where
  pub length-keys : (d : Dict V) → count (λ _. true) (keys d) ≡ length d
  length-keys [] = refl
  length-keys (e ∷ d) = omega (arith, length-keys d)

  pub count-remove :
      (p : String → Bool) (k : String) (d : Dict V)
      → count p (keys (remove k d)) ≡ count (λ i. p i && not (i == k)) (keys d)
  count-remove p k [] = refl
  count-remove p k ((j, v) ∷ d) = ground (arith, count-remove p k d)

  pub count-insert :
      (k j : String) (v : V) (d : Dict V)
      → (k == j) ≡ false
      → count (λ i. i == j) (keys (insert k v d)) ≡ count (λ i. i == j) (keys d)
  count-insert k j v [] h = ground (arith, h)
  count-insert k j v ((i, w) ∷ d) h = ground (arith, count-insert k j v d h)

  pub insert-IsDistinct :
      (k j : String) (v : V) (d : Dict V)
      → count (λ i. i == j) (keys d) ≤ 1
      → count (λ i. i == j) (keys (insert k v d)) ≤ 1
  insert-IsDistinct k j v [] h = ground arith
  insert-IsDistinct k j v ((i, w) ∷ d) h =
      ground
        (arith, eq_iff i j, eq_iff i k, eq_iff k j, count-insert k j v d, insert-IsDistinct k j v d)

pub count-and : (p q : String → Bool) (xs : List String) → count (λ i. p i && q i) xs ≤ count p xs
count-and p q [] = omega arith
count-and p q (x ∷ xs) = ground (arith, count-and p q xs)

-- An entry that does not occur may be left out of what is counted.
pub count-without :
    (p : String → Bool) (k : String) (xs : List String)
    → count (λ i. i == k) xs ≡ 0
    → count (λ i. p i && not (i == k)) xs ≡ count p xs
count-without p k [] h = refl
count-without p k (x ∷ xs) h = ground (arith, count-without p k xs)

abbrev pub put_key : String → List String → List String
put_key k [] = k ∷ []
put_key k (j ∷ js) = if j == k then j ∷ js else j ∷ put_key k js

abbrev pub drop_key : String → List String → List String
drop_key k [] = []
drop_key k (j ∷ js) = if j == k then drop_key k js else j ∷ drop_key k js

module _ {V : Type 0} where
  pub keys-insert : (k : String) (v : V) (d : Dict V) → keys (insert k v d) ≡ put_key k (keys d)
  keys-insert k v [] = refl
  keys-insert k v ((j, w) ∷ d) = elim (Bool-cases (j == k)) [
    | inl e ↦ rw e refl
    | inr e ↦ rw e (ap (λ js. j ∷ js) (keys-insert k v d))
  ]

  pub keys-remove : (k : String) (d : Dict V) → keys (remove k d) ≡ drop_key k (keys d)
  keys-remove k [] = refl
  keys-remove k ((j, w) ∷ d) = elim (Bool-cases (j == k)) [
    | inl e ↦ rw e (keys-remove k d)
    | inr e ↦ rw e (ap (λ js. j ∷ js) (keys-remove k d))
  ]
