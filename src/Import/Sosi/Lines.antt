-- ===== src/Import/Sosi/Lines.antt =====
-- The texts of gcimport/src/gcimport/parsers/sosi.py: lines, payloads and segments.
use Prim.Native.Char.{code}
use Prim.Native.String.{[], ◌∷◌}
use topografisk_gdb_api.Prelude.{
  ℕ, zero, suc, String, Bool, false, ◌&&◌, ◌||◌, Option, none, some, List, map, eqb, leb,
  if◌then◌else◌,
}
use topografisk_gdb_api.Prelude.Text.{is_empty, is_space, strip, has_prefix}

-- A line of the text, stripped: a directive has its dots counted, and the rest stripped.
pub data Line : Type 0 where
  blank : Line
  directive : ℕ → String → Line
  record_line : String → Line

-- The code points at which `str.splitlines` ends a line.
unfoldable pub is_break : ℕ → Bool
is_break c =
    (leb 10 c && leb c 13) || (leb 28 c && leb c 30) || eqb c 133 || eqb c 8232 || eqb c 8233

-- Puts a character before the first of the texts.
abbrev pub before_first : String → List String → List String
before_first s List.[] = List.◌∷◌ s List.[]
before_first [] (List.◌∷◌ l ls) = List.◌∷◌ l ls
before_first (c ∷ s) (List.◌∷◌ l ls) = List.◌∷◌ (c ∷ l) ls

-- The loop of `str.splitlines`; a line feed after a carriage return ends no further line.
unfoldable pub split_from : Bool → String → List String
unfolding is_break
split_from after_return [] = List.[]
split_from after_return (c ∷ s) =
    let rest = split_from (eqb (code c) 13) s in
    if after_return && eqb (code c) 10
    then rest
    else if is_break (code c)
    then List.◌∷◌ [] rest
    else before_first (c ∷ []) rest

unfoldable pub split_lines : String → List String
unfolding split_from
split_lines text = split_from false text

-- `text.removeprefix("\ufeff")`
abbrev pub without_mark : String → String
without_mark [] = []
without_mark (c ∷ s) = if eqb (code c) 65279 then s else c ∷ s

-- `_directive_depth`
unfoldable pub directive_depth : String → ℕ
directive_depth [] = 0
directive_depth (c ∷ s) = let rest = directive_depth s in if eqb (code c) b'.' then suc rest else 0

-- `line[depth:]`
unfoldable pub drop_first : ℕ → String → String
drop_first zero s = s
drop_first (suc n) [] = []
drop_first (suc n) (c ∷ s) = drop_first n s

abbrev starts_directive : String → Bool
starts_directive [] = false
starts_directive (c ∷ s) = eqb (code c) b'.'

unfoldable pub classify : String → Line
unfolding directive_depth drop_first
classify raw_line =
    let line = strip raw_line in
    if is_empty line
    then blank
    else if starts_directive line
    then directive (directive_depth line) (strip (drop_first (directive_depth line) line))
    else record_line line

-- `payload.removesuffix(":")`
unfoldable pub without_colon : String → String
without_colon [] = []
without_colon (c ∷ s) =
    let rest = without_colon s in if eqb (code c) b':' && is_empty s then [] else c ∷ rest

-- `name, _, remainder = payload.partition(" ")`
unfoldable pub partition_space : String → String × String
partition_space [] = ([], [])
partition_space (c ∷ s) =
    let (name, remainder) = partition_space s in
    if eqb (code c) b' ' then ([], s) else (c ∷ name, remainder)

-- `remainder.strip() or None`
abbrev pub stripped_or_none : String → Option String
stripped_or_none s = if is_empty (strip s) then none else some (strip s)

-- `payload.split("...")`, with the number of characters of a separator that are left.
unfoldable pub split_dots : ℕ → String → List String
split_dots skip [] = List.◌∷◌ [] List.[]
split_dots (suc skip) (c ∷ s) = split_dots skip s
split_dots zero (c ∷ s) =
    let part = List.◌∷◌ [] (split_dots 2 s) in
    let same = before_first (c ∷ []) (split_dots 0 s) in
    if has_prefix "..." (c ∷ s) then part else same

unfoldable pub segments_of : String → List String
unfolding split_dots
segments_of payload = map strip (split_dots 0 payload)

-- The words of `str.split()`; the empty words between separators are left out.
unfoldable pub split_words : String → List String
split_words [] = List.◌∷◌ [] List.[]
split_words (c ∷ s) =
    let rest = split_words s in
    if is_space (code c) then List.◌∷◌ [] rest else before_first (c ∷ []) rest

abbrev pub nonempty_words : List String → List String
nonempty_words List.[] = List.[]
nonempty_words (List.◌∷◌ w ws) =
    let rest = nonempty_words ws in if is_empty w then rest else List.◌∷◌ w rest

unfoldable pub words : String → List String
unfolding split_words
words s = nonempty_words (split_words s)

-- `token[:1] in {"-", "+"} or token[:1].isdigit()`
abbrev pub starts_number : (ℕ → Bool) → String → Bool
starts_number is_digit [] = false
starts_number is_digit (c ∷ s) = eqb (code c) b'-' || eqb (code c) b'+' || is_digit (code c)
