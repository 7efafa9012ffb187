-- ===== src/Prelude/Counting.antt =====
-- The length of a list does not depend on its order.
use mathlib.Core.List.{List, [], ◌∷◌, Perm, foldr}
use mathlib.Core.List.Perm
use mathlib.Core.Path.{◌≡◌, refl, ap, sym, ◌∙◌}
use native.Mathlib.Nat.{ℕ_set}
use Prim.Native.Nat.{ℕ, suc}
use topografisk_gdb_api.Prelude.Lists.{length}

module _ {ℓ} {A : Type ℓ} where
  abbrev count_one : A → ℕ → ℕ
  count_one x n = suc n

  length-foldr : (xs : List A) → foldr count_one 0 xs ≡ length xs
  length-foldr [] = refl
  length-foldr (x ∷ xs) = ap suc (length-foldr xs)

  pub length-Perm : (xs ys : List A) → Perm xs ys → length xs ≡ length ys
  length-Perm xs ys p =
      sym (length-foldr xs) ∙ (Perm.foldr-eq ℕ_set count_one (λ a b n. refl) p 0 ∙ length-foldr ys)
