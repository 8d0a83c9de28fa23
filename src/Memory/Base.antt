-- ===== src/Memory/Base.antt =====
-- brain/memory/base.py: the similarity of two embeddings. `sqrt` is that of the `math` module; the
-- embeddings of a column have one length.
use johnny.Prelude.{Bool, List, [], ◌∷◌, ◌&&◌, ◌||◌, if◌then◌else◌}
use johnny.Float.{Float}

module _ {W : Type 0} ⦃f : Float W⦄ (sqrt : W → W) where
  abbrev dot_from : W → List W → List W → W
  dot_from total [] ys = total
  dot_from total (x ∷ xs) [] = total
  dot_from total (x ∷ xs) (y ∷ ys) = dot_from (f.add total (f.mul x y)) xs ys

  abbrev is_zero : W → Bool
  is_zero x = f.le x f.zero && f.le f.zero x

  unfoldable pub cosine_similarity : List W → List W → W
  cosine_similarity xs ys =
      let norm_x = sqrt (dot_from f.zero xs xs) in
      let norm_y = sqrt (dot_from f.zero ys ys) in
      if is_zero norm_x || is_zero norm_y
      then f.zero
      else f.div (dot_from f.zero xs ys) (f.mul norm_x norm_y)
