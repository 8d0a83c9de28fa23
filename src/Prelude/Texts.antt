-- ===== src/Prelude/Texts.antt =====
-- What the program uses of Python's texts: `strip`, `splitlines`, slices and joins.
use johnny.Prelude.Tests.{leb, eqb, if◌then◌else◌}
use Prim.Native.Nat.{ℕ, zero, suc, ◌≤◌}
use Prim.Native.Char.{Char, code}
use Prim.Native.String as Text
use Prim.Native.String.{String}
use native.Mathlib.Omega.{arith}
use mathlib.Core.Bool.{Bool, false, ◌&&◌, ◌||◌}
use mathlib.Core.List.{List, [], ◌∷◌}

-- `str.isspace` of one character
unfoldable pub is_space : ℕ → Bool
is_space c =
    (leb 9 c && leb c 13)
    || ((leb 28 c && leb c 32)
        || (eqb c 133
            || (eqb c 160
                || (eqb c 5760
                    || ((leb 8192 c && leb c 8202)
                        || (eqb c 8232
                            || (eqb c 8233 || (eqb c 8239 || (eqb c 8287 || eqb c 12288)))))))))

unfoldable pub is_line_end : ℕ → Bool
is_line_end c =
    (leb 10 c && leb c 13) || ((leb 28 c && leb c 30) || (eqb c 133 || (eqb c 8232 || eqb c 8233)))

unfoldable pub strip_start : String → String
unfolding is_space
strip_start String.[] = ""
strip_start (String.◌∷◌ c s) =
    let rest = strip_start s in if is_space (code c) then rest else String.◌∷◌ c s

abbrev pub push_unless_blank : Char → String → String
push_unless_blank c String.[] = if is_space (code c) then "" else String.◌∷◌ c ""
push_unless_blank c (String.◌∷◌ d s) = String.◌∷◌ c (String.◌∷◌ d s)

unfoldable pub strip_end : String → String
unfolding is_space
strip_end String.[] = ""
strip_end (String.◌∷◌ c s) = push_unless_blank c (strip_end s)

unfoldable pub strip : String → String
unfolding strip_start strip_end
strip s = strip_end (strip_start s)

abbrev pub push_char : Char → List String → List String
push_char c [] = (String.◌∷◌ c "") ∷ []
push_char c (l ∷ ls) = (String.◌∷◌ c l) ∷ ls

abbrev pub starts_with_feed : String → Bool
starts_with_feed String.[] = false
starts_with_feed (String.◌∷◌ c s) = eqb (code c) 10

-- A line end of two characters counts once.
unfoldable pub splitlines : String → List String
unfolding is_line_end
splitlines String.[] = []
splitlines (String.◌∷◌ c s) =
    let rest = splitlines s in
    if is_line_end (code c)
    then (if eqb (code c) 13 && starts_with_feed s then rest else "" ∷ rest)
    else push_char c rest

-- `s[:n]`
unfoldable pub take_text : ℕ → String → String
take_text zero s = ""
take_text (suc n) String.[] = ""
take_text (suc n) (String.◌∷◌ c s) = String.◌∷◌ c (take_text n s)

-- `len(s)`
abbrev pub length_text : String → ℕ
length_text String.[] = 0
length_text (String.◌∷◌ c s) = suc (length_text s)

pub length-take_text : (n : ℕ) (s : String) → length_text (take_text n s) ≤ n
unfolding take_text
length-take_text zero s = omega arith
length-take_text (suc n) String.[] = omega arith
length-take_text (suc n) (String.◌∷◌ c s) = omega (arith, length-take_text n s)

-- `sep.join(texts)`
unfoldable pub join : String → List String → String
join sep [] = ""
join sep (t ∷ []) = t
join sep (t ∷ u ∷ us) = Text.◌++◌ t (Text.◌++◌ sep (join sep (u ∷ us)))
