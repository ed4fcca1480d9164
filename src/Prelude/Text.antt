-- ===== src/Prelude/Text.antt =====
-- ASCII text as the list of its bytes, and what Rust's `str` does with it.
use Prim.Native.Char.{code}
use Prim.Native.Nat.{ℕ, suc, ◌+◌}
use Prim.Native.String.{String}
use mathlib.Core.Bool.{Bool, true, false, ◌&&◌, ◌||◌}
use mathlib.Core.List.{List, [], ◌∷◌, reverse}
use mathlib.Core.Option.{Option, none, some}
use chono_db.Prelude.Tests.{leb, ◌==◌, if◌then◌else◌}

abbrev pub Text : Type 0
Text = List ℕ

-- The bytes of a literal.
abbrev pub codes : String → Text
codes String.[] = []
codes (String.◌∷◌ c s) = code c ∷ codes s

unfoldable pub same_text : Text → Text → Bool
same_text [] [] = true
same_text [] (b ∷ bs) = false
same_text (a ∷ more) [] = false
same_text (a ∷ more) (b ∷ bs) = a == b && same_text more bs

unfoldable pub starts_with : Text → Text → Bool
starts_with [] s = true
starts_with (p ∷ pattern') [] = false
starts_with (p ∷ pattern') (c ∷ s) = p == c && starts_with pattern' s

unfoldable pub ends_with : ℕ → Text → Bool
ends_with c [] = false
ends_with c (b ∷ []) = b == c
ends_with c (b ∷ d ∷ s) = ends_with c (d ∷ s)

unfoldable pub find_where : (ℕ → Bool) → Text → Option ℕ
find_where p [] = none
find_where p (c ∷ s) =
    let rest = find_where p s in
    if p c then some 0 else elim rest [ none ↦ none | some i ↦ some (suc i) ]

-- `find` of a character.
abbrev pub find_code : ℕ → Text → Option ℕ
find_code c s = find_where (λ b. b == c) s

-- `find` of a text.
unfoldable pub find_text : Text → Text → Option ℕ
find_text pattern' [] = if starts_with pattern' [] then some 0 else none
find_text pattern' (c ∷ s) =
    let rest = find_text pattern' s in
    if starts_with pattern' (c ∷ s)
    then some 0
    else elim rest [ none ↦ none | some i ↦ some (suc i) ]

unfoldable pub contains_code : ℕ → Text → Bool
contains_code c [] = false
contains_code c (b ∷ s) = b == c || contains_code c s

-- `char::is_whitespace` on ASCII.
abbrev pub is_whitespace : ℕ → Bool
is_whitespace c = c == 32 || (leb 9 c && leb c 13)

unfoldable pub trim_start : Text → Text
trim_start [] = []
trim_start (c ∷ s) = let rest = trim_start s in if is_whitespace c then rest else c ∷ s

unfoldable pub trim : Text → Text
trim s = reverse (trim_start (reverse (trim_start s)))

-- The first word: `split_whitespace().next().unwrap_or("")` of a text that is trimmed.
unfoldable pub first_word : Text → Text
first_word [] = []
first_word (c ∷ s) = let rest = first_word s in if is_whitespace c then [] else c ∷ rest

-- `split` at a character, as a first part and the others.
unfoldable pub split_first : ℕ → Text → Text × List Text
split_first c [] = ([], [])
split_first c (b ∷ s) =
    let (part, parts) = split_first c s in if b == c then ([], part ∷ parts) else (b ∷ part, parts)

unfoldable pub split : ℕ → Text → List Text
split c s = let (part, parts) = split_first c s in part ∷ parts

unfoldable pub to_lowercase : Text → Text
to_lowercase [] = []
to_lowercase (c ∷ s) = (if leb 65 c && leb c 90 then c + 32 else c) ∷ to_lowercase s
