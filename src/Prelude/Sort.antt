-- ===== src/Prelude/Sort.antt =====
-- Python's stable sort in descending order of a key, and `max` by a key, over any test `lt` of keys.
use johnny.Prelude.Tests.{if◌then◌else◌, Bool-cases}
use johnny.Prelude.Lists.{All, count}
use Prim.Native.Nat.{◌+◌}
use native.Mathlib.Omega.{arith}
use mathlib.Core.Path.{◌≡◌, refl}
use mathlib.Core.Logic.{inl, inr}
use mathlib.Core.Bool.{Bool, true, false}
use mathlib.Core.List.{List, [], ◌∷◌, ◌++◌, Perm, perm_middle, append-nil}
use mathlib.Core.List.Perm

module _ {ℓ κ} {A : Type ℓ} {K : Type κ} (lt : K → K → Bool) (key : A → K) where
  -- An item goes before the first one with a smaller key, so equal keys keep their order.
  unfoldable pub insert_desc : A → List A → List A
  insert_desc x [] = x ∷ []
  insert_desc x (y ∷ ys) = if lt (key y) (key x) then x ∷ y ∷ ys else y ∷ insert_desc x ys

  -- `insert_desc` puts an item behind those that equal it, so the list is sorted from its end.
  unfoldable pub sort_into : List A → List A → List A
  unfolding insert_desc
  sort_into sorted [] = sorted
  sort_into sorted (x ∷ xs) = sort_into (insert_desc x sorted) xs

  -- `sorted(xs, key=key, reverse=True)`
  unfoldable pub sort_desc : List A → List A
  unfolding sort_into
  sort_desc xs = sort_into [] xs

  unfoldable later : A → A → A
  later best x = if lt (key best) (key x) then x else best

  -- `max` keeps the first of the largest.
  unfoldable pub max_by : A → List A → A
  max_by best [] = best
  max_by best (x ∷ xs) = max_by (if lt (key best) (key x) then x else best) xs

  insert_desc-perm : (x : A) (xs : List A) → Perm (insert_desc x xs) (x ∷ xs)
  unfolding insert_desc
  insert_desc-perm x [] = Perm.refl (x ∷ [])
  insert_desc-perm x (y ∷ ys) = elim (Bool-cases (lt (key y) (key x))) [
    | inl e ↦ rw e (Perm.refl (x ∷ y ∷ ys))
    | inr e ↦ rw e (Perm.trans (Perm.cons y (insert_desc-perm x ys)) (Perm.swap x y ys))
  ]

  sort_into-perm : (sorted xs : List A) → Perm (sort_into sorted xs) (xs ++ sorted)
  unfolding sort_into
  sort_into-perm sorted [] = Perm.refl sorted
  sort_into-perm sorted (x ∷ xs) =
      Perm.trans (sort_into-perm (insert_desc x sorted) xs) (
        Perm.trans (Perm.append (Perm.refl xs) (insert_desc-perm x sorted)) (perm_middle xs sorted))

  pub sort_desc-perm : (xs : List A) → Perm (sort_desc xs) xs
  unfolding sort_desc
  sort_desc-perm xs = rw append-nil at (sort_into-perm [] xs)

  insert_desc-count :
      (p : A → Bool) (x : A) (xs : List A) → count p (insert_desc x xs) ≡ count p (x ∷ xs)
  unfolding insert_desc
  insert_desc-count p x [] = refl
  insert_desc-count p x (y ∷ ys) = elim (Bool-cases (lt (key y) (key x))) [
    | inl e ↦ rw e refl
    | inr e ↦ rw e (omega (arith, insert_desc-count p x ys))
  ]

  sort_into-count :
      (p : A → Bool) (sorted xs : List A)
      → count p (sort_into sorted xs) ≡ count p sorted + count p xs
  unfolding sort_into
  sort_into-count p sorted [] = omega arith
  sort_into-count p sorted (x ∷ xs) =
      omega (arith, sort_into-count p (insert_desc x sorted) xs, insert_desc-count p x sorted)

  pub sort_desc-count : (p : A → Bool) (xs : List A) → count p (sort_desc xs) ≡ count p xs
  unfolding sort_desc
  sort_desc-count p xs = omega (arith, sort_into-count p [] xs)

  -- A sorted list: no item before a greater one.
  abbrev pub Before : A → A → Type 0
  Before x y = lt (key x) (key y) ≡ false

  abbrev pub IsDesc : List A → Type 0
  IsDesc [] = Unit
  IsDesc (x ∷ xs) = All (Before x) xs × IsDesc xs

  module _ {ι} (Good : A → Type ι) where
    later-Good : (best x : A) → Good best → Good x → Good (later best x)
    unfolding later
    later-Good best x gb gx = elim (Bool-cases (lt (key best) (key x))) [
      | inl e ↦ rw e gx
      | inr e ↦ rw e gb
    ]

    pub max_by-Good : (best : A) (xs : List A) → Good best → All Good xs → Good (max_by best xs)
    unfolding max_by later
    max_by-Good best [] gb g = gb
    max_by-Good best (x ∷ xs) gb g = max_by-Good (later best x) xs (later-Good best x gb g.0) g.1

  module _ {ι} (Good : A → Type ι)
      (asym : (x y : A) → Good x → Good y → lt (key y) (key x) ≡ true → Before x y)
      (trans : (x y z : A) → Good x → Good y → Good z → Before x y → Before y z → Before x z) where
    Before-insert_desc :
        (w x : A) (ys : List A) → Before w x → All (Before w) ys → All (Before w) (insert_desc x ys)
    unfolding insert_desc
    Before-insert_desc w x [] b h = (b, tt)
    Before-insert_desc w x (y ∷ ys) b h = elim (Bool-cases (lt (key y) (key x))) [
      | inl e ↦ rw e (b, h)
      | inr e ↦ rw e (h.0, Before-insert_desc w x ys b h.1)
    ]

    Before-tail :
        (x y : A) (zs : List A)
        → Good x
        → Good y
        → All Good zs
        → Before x y
        → All (Before y) zs
        → All (Before x) zs
    Before-tail x y [] gx gy gz b h = tt
    Before-tail x y (z ∷ zs) gx gy gz b h =
        (trans x y z gx gy gz.0 b h.0, Before-tail x y zs gx gy gz.1 b h.1)

    insert_desc-Good : (x : A) (ys : List A) → Good x → All Good ys → All Good (insert_desc x ys)
    unfolding insert_desc
    insert_desc-Good x [] gx g = (gx, tt)
    insert_desc-Good x (y ∷ ys) gx g = elim (Bool-cases (lt (key y) (key x))) [
      | inl e ↦ rw e (gx, g)
      | inr e ↦ rw e (g.0, insert_desc-Good x ys gx g.1)
    ]

    insert_desc-IsDesc :
        (x : A) (ys : List A) → Good x → All Good ys → IsDesc ys → IsDesc (insert_desc x ys)
    unfolding insert_desc
    insert_desc-IsDesc x [] gx g d = (tt, tt)
    insert_desc-IsDesc x (y ∷ ys) gx g d = elim (Bool-cases (lt (key y) (key x))) [
      | inl e ↦ let b = asym x y gx g.0 e in rw e ((b, Before-tail x y ys gx g.0 g.1 b d.0), d)
      | inr e ↦ rw e (Before-insert_desc y x ys e d.0, insert_desc-IsDesc x ys gx g.1 d.1)
    ]

    sort_into-IsDesc :
        (sorted xs : List A)
        → All Good sorted
        → All Good xs
        → IsDesc sorted
        → IsDesc (sort_into sorted xs)
    unfolding sort_into
    sort_into-IsDesc sorted [] gs g d = d
    sort_into-IsDesc sorted (x ∷ xs) gs g d =
        sort_into-IsDesc (insert_desc x sorted) xs (insert_desc-Good x sorted g.0 gs) g.1
          (insert_desc-IsDesc x sorted g.0 gs d)

    pub sort_desc-IsDesc : (xs : List A) → All Good xs → IsDesc (sort_desc xs)
    unfolding sort_desc
    sort_desc-IsDesc xs g = sort_into-IsDesc [] xs tt g tt

    Before-refl : (x : A) → Good x → Before x x
    Before-refl x g = elim (Bool-cases (lt (key x) (key x))) [ inl e ↦ asym x x g g e | inr e ↦ e ]

    later-Before :
        (best x : A) → Good best → Good x → Before (later best x) best × Before (later best x) x
    unfolding later
    later-Before best x gb gx = elim (Bool-cases (lt (key best) (key x))) [
      | inl e ↦ rw e (asym x best gx gb e, Before-refl x gx)
      | inr e ↦ rw e (Before-refl best gb, e)
    ]

    -- No item of the list is greater than what `max_by` returns.
    pub max_by-Before :
        (best : A) (xs : List A)
        → Good best
        → All Good xs
        → Before (max_by best xs) best × All (Before (max_by best xs)) xs
    unfolding max_by later
    max_by-Before best [] gb g = (Before-refl best gb, tt)
    max_by-Before best (x ∷ xs) gb g =
        let next = later best x in
        let gn = later-Good Good best x gb g.0 in
        let top = max_by-Good Good next xs gn g.1 in
        let (over, rest) = max_by-Before next xs gn g.1 in
        let (over_best, over_x) = later-Before best x gb g.0 in
        (
          trans (max_by next xs) next best top gn gb over over_best,
          (trans (max_by next xs) next x top gn g.0 over over_x, rest),
        )
