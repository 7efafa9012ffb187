-- ===== src/Prelude/Names.antt =====
-- Collections of names.
use mathlib.Core.Path.{◌≡◌}
use mathlib.Core.Bool.{Bool, false}
use mathlib.Core.List.{List, [], ◌∷◌}
use Prim.Native.String.{String}
use text.Mathlib.Text.{◌==◌}
use topografisk_gdb_api.Prelude.Lists.{any_of}

-- `name in names`
abbrev pub contains : String → List String → Bool
contains name names = any_of (λ n. n == name) names

-- No name stands twice, nor among those seen.
abbrev pub IsDistinct : List String → List String → Type 0
IsDistinct seen [] = Unit
IsDistinct seen (name ∷ names) = (contains name seen ≡ false) × IsDistinct (name ∷ seen) names
