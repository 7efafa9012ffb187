-- ===== src/Prelude/Text.antt =====
-- Python's operations on texts that the program uses, over the code points of a native text.
use Prim.Native.Nat.{ℕ}
use Prim.Native.Char.{Char, code}
use Prim.Native.String.append
use Prim.Native.String.{String, [], ◌∷◌, ◌++◌}
use mathlib.Core.Path.{◌≡◌, refl}
use mathlib.Core.Bool.{Bool, true, false, ◌&&◌, ◌||◌}
use mathlib.Core.List.{List}
use topografisk_gdb_api.Prelude.Tests.{eqb, leb, if◌then◌else◌}

-- `"".join(parts)`, and an f-string of its parts.
abbrev pub concat : List String → String
concat List.[] = []
concat (List.◌∷◌ s List.[]) = s
concat (List.◌∷◌ s parts) = s ++ concat parts

-- `not s`
abbrev pub is_empty : String → Bool
is_empty [] = true
is_empty (c ∷ s) = false

-- The code points for which `str.isspace` holds, which `str.strip` and `str.split` remove.
unfoldable pub is_space : ℕ → Bool
is_space c =
    (leb 9 c && leb c 13)
    || (leb 28 c && leb c 32)
    || eqb c 133
    || eqb c 160
    || eqb c 5760
    || (leb 8192 c && leb c 8202)
    || eqb c 8232
    || eqb c 8233
    || eqb c 8239
    || eqb c 8287
    || eqb c 12288

-- `s.lstrip` and `s.rstrip` of the characters that satisfy `p`.
unfoldable pub lstrip : (ℕ → Bool) → String → String
lstrip p [] = []
lstrip p (c ∷ s) = let rest = lstrip p s in if p (code c) then rest else c ∷ s

unfoldable pub rstrip : (ℕ → Bool) → String → String
rstrip p [] = []
rstrip p (c ∷ s) = let rest = rstrip p s in if p (code c) && is_empty rest then [] else c ∷ rest

-- `s.strip()`
unfoldable pub strip : String → String
unfolding is_space lstrip rstrip
strip s = rstrip is_space (lstrip is_space s)

-- `s.startswith(t)`, and `s[len(t):]`.
unfoldable pub has_prefix : String → String → Bool
has_prefix [] s = true
has_prefix (c ∷ t) [] = false
has_prefix (c ∷ t) (d ∷ s) = eqb (code c) (code d) && has_prefix t s

unfoldable pub drop_chars : String → String → String
drop_chars [] s = s
drop_chars (c ∷ t) [] = []
drop_chars (c ∷ t) (d ∷ s) = drop_chars t s

-- `s.split(c)` for one character.
unfoldable pub split_on : ℕ → String → List String
split_on k [] = List.◌∷◌ [] List.[]
split_on k (c ∷ s) = elim (split_on k s) [
  | List.[] ↦ List.[]
  | List.◌∷◌ part parts ↦
      if eqb (code c) k then List.◌∷◌ [] (List.◌∷◌ part parts) else List.◌∷◌ (c ∷ part) parts
]

-- `s.rsplit(c, 1)[-1]`: the last part.
unfoldable pub last_part : String → List String → String
last_part whole List.[] = whole
last_part whole (List.◌∷◌ part parts) = last_part part parts

-- A text that begins with a character is not empty, whatever follows.
pub is_empty-append : (c : Char) (s t : String) → is_empty ((c ∷ s) ++ t) ≡ false
is_empty-append c s t = rw append.cons refl
