-- ===== src/Memory/Snapshot/Inserted.antt =====
-- Rows that satisfy the constraints of a table are all taken into the empty table.
use johnny.Prelude.{Bool, false, some, List, [], ◌∷◌, ◌++◌, ◌≡◌, refl, ap, All, any, ◌||◌, arith}
use johnny.Memory.Tables.{Constraint, insert_all, IsSound}
use mathlib.Core.List.{append-nil, append_assoc}

any-append :
    {A : Type 0} (p : A → Bool) (xs : List A) (y : A) → any p (xs ++ y ∷ []) ≡ (any p xs || p y)
any-append p [] y = ground arith
any-append p (x ∷ xs) y = ground (arith, any-append p xs y)

module _ {R : Type 0} (k : Constraint R) where
  abbrev IsFree : List R → R → Type 0
  IsFree there r = any (λ a. k.clash a r) there ≡ false

  IsFree-push :
      (there : List R) (r : R) (rs : List R)
      → All (IsFree there) rs
      → All (λ b. k.clash r b ≡ false) rs
      → All (IsFree (there ++ r ∷ [])) rs
  IsFree-push there r [] h g = tt
  IsFree-push there r (b ∷ rs) h g = (
    ground (arith, h.0, g.0, any-append (λ a. k.clash a b) there r),
    IsFree-push there r rs h.1 g.1,
  )

  insert_all-IsSound :
      (there rs : List R)
      → All (IsFree there) rs
      → IsSound k rs
      → insert_all k there rs ≡ some (there ++ rs)
  unfolding insert_all
  insert_all-IsSound there [] h s = rw append-nil refl
  insert_all-IsSound there (r ∷ rs) h s =
      rw (s.0, h.0, insert_all-IsSound (there ++ r ∷ []) rs (IsFree-push there r rs h.1 s.1) s.2)
        (ap (λ x. some x) (append_assoc there (r ∷ []) rs))

  all-IsFree : (rs : List R) → All (IsFree []) rs
  all-IsFree [] = tt
  all-IsFree (r ∷ rs) = (refl, all-IsFree rs)

  pub insert_all_sound : (rs : List R) → IsSound k rs → insert_all k [] rs ≡ some rs
  insert_all_sound rs s = insert_all-IsSound [] rs (all-IsFree rs) s
