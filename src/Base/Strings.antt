-- ===== src/Base/Strings.antt =====
-- The operations of Python's `str` that the program uses, over lists of code points.
use Prim.Native.Nat.{ℕ}
use mathlib.Core.Path.{◌≡◌, refl}
use mathlib.Core.Bool.{Bool, true, false, ◌&&◌, ◌||◌}
use mathlib.Core.Option.{Option, none, some}
use mathlib.Core.List.{List, [], ◌∷◌, ◌++◌, map, reverse}
use pqcensus.Base.Tests.{nat_beq, if◌then◌else◌}
use pqcensus.Base.Characters.{Text, text, upper_char, lower_char, is_space}

-- `t.upper()`
unfoldable pub upper : Text → Text
unfolding upper_char
upper = map upper_char

-- `t.lower()`
unfoldable pub lower : Text → Text
unfolding lower_char
lower = map lower_char

-- `t.lstrip()`
unfoldable pub lstrip : Text → Text
unfolding is_space
lstrip [] = []
lstrip (c ∷ t) = if is_space c then lstrip t else c ∷ t

-- `t.rstrip()`
unfoldable pub rstrip : Text → Text
unfolding is_space
rstrip [] = []
rstrip (c ∷ t) =
    let rest = rstrip t in elim rest [ [] ↦ if is_space c then [] else c ∷ [] | d ∷ r ↦ c ∷ d ∷ r ]

-- `t.strip()`
unfoldable pub strip : Text → Text
unfolding lstrip rstrip
strip t = rstrip (lstrip t)

-- `t.replace(c, "")`, for one character.
unfoldable pub remove_char : ℕ → Text → Text
remove_char c [] = []
remove_char c (d ∷ t) = let rest = remove_char c t in if nat_beq d c then rest else d ∷ rest

-- `t.replace(a, b)`, for one character each.
unfoldable pub replace_char : ℕ → ℕ → Text → Text
replace_char a b = map (λ c. if nat_beq c a then b else c)

-- `t.startswith(p)`
unfoldable pub starts_with : Text → Text → Bool
starts_with [] t = true
starts_with (c ∷ p) [] = false
starts_with (c ∷ p) (d ∷ t) = nat_beq c d && starts_with p t

-- `t.endswith(s)`
unfoldable pub ends_with : Text → Text → Bool
unfolding starts_with
ends_with s t = starts_with (reverse s) (reverse t)

-- `s in t`, for texts.
unfoldable pub occurs : Text → Text → Bool
unfolding starts_with
occurs s [] = starts_with s []
occurs s (c ∷ t) = starts_with s (c ∷ t) || occurs s t

-- `sep.join(parts)`
unfoldable pub join : Text → List Text → Text
join sep [] = []
join sep (p ∷ []) = p
join sep (p ∷ q ∷ r) = p ++ (sep ++ join sep (q ∷ r))

-- `bool(t)`
abbrev pub non_empty : Text → Bool
non_empty [] = false
non_empty (c ∷ t) = true

-- `t.split()`: the words between white space. The first argument is the word so far.
words_from : Text → Text → List Text
unfolding is_space
words_from [] [] = []
words_from (d ∷ word) [] = (d ∷ word) ∷ []
words_from [] (c ∷ t) = if is_space c then words_from [] t else words_from (c ∷ []) t
words_from (d ∷ word) (c ∷ t) =
    if is_space c then (d ∷ word) ∷ words_from [] t else words_from (d ∷ (word ++ (c ∷ []))) t

unfoldable pub split_words : Text → List Text
unfolding words_from
split_words t = words_from [] t

-- `x or None`, as an `if` reads a string that may be missing.
unfoldable pub given_text : Option Text → Option Text
given_text none = none
given_text (some []) = none
given_text (some (c ∷ t)) = some (c ∷ t)

-- `t.split(separator, 1)[0]`
unfoldable pub before : Text → Text → Text
unfolding starts_with
before separator [] = []
before separator (c ∷ t) =
    let rest = before separator t in if starts_with separator (c ∷ t) then [] else c ∷ rest

text_test : strip (text " a b ") ≡ text "a b"
unfolding strip
text_test = refl

occurs_test : occurs (text "SA") (text "RSA-1") ≡ true
unfolding occurs
occurs_test = refl

ends_with_test : ends_with (text ".toml") (text "a.toml") ≡ true
unfolding ends_with
ends_with_test = refl
