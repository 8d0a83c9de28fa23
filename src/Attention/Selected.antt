-- ===== src/Attention/Selected.antt =====
-- What a selection admits: no more than the capacity, and no content twice.
use johnny.Prelude.{
  arith, eq_iff, ℕ, zero, suc, ◌≡◌, ◌≤◌, ◌-◌, refl, String, Bool, true, List, [], ◌∷◌, ◌++◌, ◌==◌,
  Dict, lookup, insert, map, length, take, count, All, length-take, length-drop, Bool-cases, inl,
  inr,
}
use johnny.Prelude.Keys.{keys, IsDistinct, insert-IsDistinct}
use johnny.Prelude.Sort.{sort_desc, sort_desc-count}
use johnny.Workspace.{WorkspaceItem}
use johnny.Float.{Float}
use johnny.Attention.{
  Attention, AttentionState, best_by_content, beats, item_of, dedupe, scored, score_of, admitted,
  remember, select_items, bounded,
}

abbrev pub contents : {W : Type 0} → List (WorkspaceItem W) → List String
contents items = map (λ item. item.content) items

abbrev IsFiled : {W : Type 0} → String × WorkspaceItem W → Type 0
IsFiled (k, item) = (k == item.content) ≡ true

count-map :
    {A B : Type 0} (p : B → Bool) (g : A → B) (xs : List A)
    → count p (map g xs) ≡ count (λ x. p (g x)) xs
count-map p g [] = refl
count-map p g (x ∷ xs) = omega (arith, count-map p g xs)

length-map : {A B : Type 0} (g : A → B) (xs : List A) → length (map g xs) ≡ length xs
length-map g [] = refl
length-map g (x ∷ xs) = omega (arith, length-map g xs)

count-take : {A : Type 0} (p : A → Bool) (n : ℕ) (xs : List A) → count p (take n xs) ≤ count p xs
count-take p zero xs = omega arith
count-take p (suc n) [] = omega arith
count-take p (suc n) (x ∷ xs) = omega (arith, count-take p n xs)

module _ {W : Type 0} ⦃f : Float W⦄ (a : Attention W) where
  insert-IsFiled :
      (item : WorkspaceItem W) (d : Dict (WorkspaceItem W))
      → All IsFiled d
      → All IsFiled (insert item.content item d)
  insert-IsFiled item [] h = (ground (arith, eq_iff item.content item.content), tt)
  insert-IsFiled item ((k, old) ∷ d) h = elim (Bool-cases (k == item.content)) [
    | inl e ↦ rw e (e, h.1)
    | inr e ↦ rw e (h.0, insert-IsFiled item d h.1)
  ]

  -- Each content is a key once, with an item of that content.
  abbrev Filed : Dict (WorkspaceItem W) → Type 0
  Filed d = IsDistinct (keys d) × All IsFiled d

  best-Filed :
      (items : List (WorkspaceItem W)) (d : Dict (WorkspaceItem W))
      → Filed d
      → Filed (best_by_content a items d)
  unfolding best_by_content
  best-Filed [] d h = h
  best-Filed (item ∷ items) d h =
      let put = insert item.content item d in
      elim (Bool-cases (beats a item (lookup item.content d))) [
        | inl e ↦ rw e (
            best-Filed items put
              (λ j. insert-IsDistinct item.content j item d (h.0 j), insert-IsFiled item d h.1))
        | inr e ↦ rw e (best-Filed items d h)
      ]

  count-items :
      (j : String) (d : Dict (WorkspaceItem W))
      → All IsFiled d
      → count (λ item. item.content == j) (map (item_of a) d) ≡ count (λ i. i == j) (keys d)
  count-items j [] h = refl
  count-items j ((k, item) ∷ d) h =
      ground
        (arith, eq_iff k item.content, eq_iff k j, eq_iff item.content j, count-items j d h.1, h.0)

  dedupe-once :
      (j : String) (items : List (WorkspaceItem W))
      → count (λ item. item.content == j) (dedupe a items) ≤ 1
  unfolding dedupe
  dedupe-once j items =
      let filed = best-Filed items [] (λ i. omega arith, tt) in
      omega (arith, count-items j (best_by_content a items []) filed.1, filed.0 j)

  remember-bounded :
      (cs recent : List String)
      → length recent ≤ a.novelty_horizon
      → length (remember a cs recent) ≤ a.novelty_horizon
  unfolding remember
  remember-bounded [] recent h = h
  remember-bounded (c ∷ cs) recent h =
      remember-bounded cs (bounded a.novelty_horizon (recent ++ c ∷ [])) (
        omega
          (arith, length-drop (length (recent ++ c ∷ []) - a.novelty_horizon) (recent ++ c ∷ [])))

  -- A selection admits at most `capacity` items, no two with the same content, and the contents it
  -- remembers stay within the horizon if they were before, whatever the scores are.
  pub select_items-Selected :
      (working_memory percepts : List (WorkspaceItem W)) (s : AttentionState W)
      → length s.recent ≤ a.novelty_horizon
      → let (selected, t) = select_items a working_memory percepts s in
        (length selected ≤ a.capacity)
        × IsDistinct (contents selected)
        × (length t.recent ≤ a.novelty_horizon)
  unfolding select_items admitted
  select_items-Selected working_memory percepts s h =
      let candidates = dedupe a (percepts ++ working_memory) in
      let ranked = sort_desc f.lt (score_of a) (map (scored a s) candidates) in
      let top = take a.capacity ranked in
      let selected = map (admitted a) top in
      (
        omega (arith, length-map (admitted a) top, length-take a.capacity ranked),
        λ j. omega (
          arith,
          count-map (λ i. i == j) (λ (item : WorkspaceItem W). item.content) selected,
          count-map (λ (item : WorkspaceItem W). item.content == j) (admitted a) top,
          count-take (λ (p : W × WorkspaceItem W). p.1.content == j) a.capacity ranked,
          sort_desc-count f.lt (score_of a) (λ (p : W × WorkspaceItem W). p.1.content == j)
              (map (scored a s) candidates),
          count-map (λ (p : W × WorkspaceItem W). p.1.content == j) (scored a s) candidates,
          dedupe-once j (percepts ++ working_memory),
        ),
        remember-bounded (contents selected) s.recent h,
      )
