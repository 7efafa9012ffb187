-- ===== src/Prelude/Dict.antt =====
-- Python's `dict` with text keys, in insertion order.
use Prim.Native.String.{String}
use mathlib.Core.Path.{◌≡◌, refl, sym, subst, ◌∙◌}
use mathlib.Core.Bool.{Bool, true, false, ◌||◌}
use mathlib.Core.Option.{Option, none, some}
use mathlib.Core.List.{List, [], ◌∷◌}
use native.Mathlib.Omega.{arith}
use text.Mathlib.Text.{◌==◌}
use text.Mathlib.TextEquality.{eq_iff}
use topografisk_gdb_api.Prelude.Tests.{if◌then◌else◌, is_some}
use topografisk_gdb_api.Prelude.Lists.{All, any_of}

abbrev pub Dict {ℓ} : Type ℓ → Type ℓ
Dict V = List (String × V)

module _ {ℓ} {V : Type ℓ} where
  -- `d.get(k)`
  unfoldable pub get : String → Dict V → Option V
  get k [] = none
  get k ((j, v) ∷ d) = if j == k then some v else get k d

  -- `d[k] = v`
  unfoldable pub put : String → V → Dict V → Dict V
  put k v [] = (k, v) ∷ []
  put k v ((j, w) ∷ d) = if j == k then (j, v) ∷ d else (j, w) ∷ put k v d

  -- `d.setdefault(k, v)`
  unfoldable pub set_default : String → V → Dict V → Dict V
  unfolding get put
  set_default k v d = if is_some (get k d) then d else put k v d

  -- `{k: v for k, v in pairs}`
  unfoldable pub put_all : List (String × V) → Dict V → Dict V
  unfolding put
  put_all [] d = d
  put_all ((k, v) ∷ pairs) d = put_all pairs (put k v d)

  abbrev pub keys : Dict V → List String
  keys [] = []
  keys ((k, v) ∷ d) = k ∷ keys d

  pub get-put :
      (k j : String) (v : V) (d : Dict V) → get j (put k v d) ≡ (if k == j then some v else get j d)
  unfolding get put
  get-put k j v [] = refl
  get-put k j v ((i, w) ∷ d) = ground (arith, eq_iff k j, eq_iff i k, eq_iff i j, get-put k j v d)

  -- Every value of the dictionary satisfies `P`.
  abbrev pub Holds {κ} : (V → Type κ) → Dict V → Type (ℓ ⊔ κ)
  Holds P d = (k : String) (v : V) → get k d ≡ some v → P v

  abbrev put_or : Bool → V → Option V → Option V
  put_or b v o = if b then some v else o

  pub empty-Holds {κ} : (P : V → Type κ) → Holds P []
  unfolding get
  empty-Holds P k v h = absurd (cc h)

  pub put-Holds {κ} :
      (P : V → Type κ) (k : String) (v : V) (d : Dict V) → P v → Holds P d → Holds P (put k v d)
  put-Holds P k v d p h j w e = put_or-Holds (k == j) ((sym (get-put k j v d)) ∙ e)
    where
      put_or-Holds : (b : Bool) → put_or b v (get j d) ≡ some w → P w
      put_or-Holds true e' = let same : v ≡ w = cc e' in subst P same p
      put_or-Holds false e' = h j w e'

  pub put_all-Holds {κ} :
      (P : V → Type κ) (pairs : List (String × V)) (d : Dict V)
      → All (λ (e : String × V). P e.1) pairs
      → Holds P d
      → Holds P (put_all pairs d)
  unfolding put_all
  put_all-Holds P [] d p h = h
  put_all-Holds P ((k, v) ∷ pairs) d p h =
      put_all-Holds P pairs (put k v d) p.1 (put-Holds P k v d p.0 h)

  -- A key that stands in the dictionary or among the pairs stands in the result.
  abbrev pub has_key : String → Dict V → Bool
  has_key k d = is_some (get k d)

  pub put_all-has_key :
      (k : String) (pairs : List (String × V)) (d : Dict V)
      → any_of (λ j. j == k) (keys pairs) || has_key k d ≡ true
      → has_key k (put_all pairs d) ≡ true
  unfolding put_all
  put_all-has_key k [] d h = h
  put_all-has_key k ((j, v) ∷ pairs) d h =
      put_all-has_key k pairs (put j v d) (rw (get-put j k v d) (ground (arith, h)))
