-- ===== src/Import/Profile/Routing.antt =====
-- The routing of features to collections (gcimport/src/gcimport/profiles/base.py).
use topografisk_gdb_api.Prelude.{
  contains, String, ◌≡◌, ap, ◌∙◌, Bool, true, Option, none, some, List, [], ◌∷◌, ◌==◌, eq_iff,
  arith, if◌then◌else◌, is_nonempty, ◌||◌, ok, ◌>>=◌, first-returned, ok_injective, Returns,
  Returns-ok, Returns-bind, Returns-if, Option-cases, inl, inr,
}
use topografisk_gdb_api.Import.Profile.{
  ImportProfile, KeyError, GeometryMatch, only, matching, geometry_match_kind,
  collections_for_objtype, collection_for_objtype, is_exact, is_compatible,
}

only-contains : (names : List String) (c : String) → only names ≡ some c → contains c names ≡ true
only-contains [] c h = absurd (cc h)
only-contains (n ∷ []) c h = ground (arith, eq_iff n c, some_injective n c h)
  where
    some_injective : (a b : String) → some a ≡ some b → a ≡ b
    some_injective a b e = cc e
only-contains (n ∷ m ∷ names) c h = absurd (cc h)

module _ {N : Type 0} (casefold : String → String) (profile : ImportProfile N) where
  matching-contains :
      (wanted : GeometryMatch → Bool) (source c : String) (names found : List String)
      → matching casefold profile wanted source names ≡ ok found
      → contains c found ≡ true
      → contains c names ≡ true
  unfolding matching
  matching-contains wanted source c [] found h k =
      ap (λ (ns : List String). contains c ns) (ok_injective [] found h) ∙ k
  matching-contains wanted source c (n ∷ names) found h k =
      let (kind, _, h1) =
        first-returned (geometry_match_kind casefold profile source n)
          (λ kind. matching casefold profile wanted source names >>= λ rest.
            ok (if wanted kind then n ∷ rest else rest))
          found h in
      let (rest, later, h2) =
        first-returned (matching casefold profile wanted source names)
          (λ rest. ok (if wanted kind then n ∷ rest else rest)) found h1 in
      let hyp = matching-contains wanted source c names rest later in
      let same = ok_injective (if wanted kind then n ∷ rest else rest) found h2 in
      kept (wanted kind) n c rest names hyp (rw same k)
    where
      kept :
          (b : Bool) (n c : String) (rest names : List String)
          → (contains c rest ≡ true → contains c names ≡ true)
          → contains c (if b then n ∷ rest else rest) ≡ true
          → (n == c) || contains c names ≡ true
      kept b n c rest names f g = ground (arith, f, g)

  abbrev pub IsCandidate : List String → Option String → Type 0
  IsCandidate names o = (c : String) → o ≡ some c → contains c names ≡ true

  only_returned :
      (names : List String) (c : String)
      → only names ≡ some c
      → Returns {E = KeyError} (IsCandidate names) (ok (some c))
  only_returned names c one =
      Returns-ok (IsCandidate names) (some c) (λ d e. only-contains names d (one ∙ e))

  -- The collection that an object type is routed to, for a geometry type or none, is one of those
  -- that the profile names for the object type.
  pub collection_for_objtype-contains :
      (objtype : String) (geometry_type : Option String) (o : Option String)
      → collection_for_objtype casefold profile objtype geometry_type ≡ ok o
      → (c : String) → o ≡ some c
      → contains c (collections_for_objtype casefold profile objtype) ≡ true
  unfolding collection_for_objtype
  collection_for_objtype-contains objtype none =
      let names = collections_for_objtype casefold profile objtype in
      let P = IsCandidate names in
      elim (Option-cases (only names)) [
        | inr (c, one) ↦ rw (one, collection_for_objtype) (only_returned names c one)
        | inl many ↦ rw (many, collection_for_objtype) (Returns-ok P none (λ c e. absurd (cc e)))
      ]
  collection_for_objtype-contains objtype (some source) =
      let names = collections_for_objtype casefold profile objtype in
      let P = IsCandidate names in
      elim (Option-cases (only names)) [
        | inr (c, one) ↦ rw (one, collection_for_objtype) (only_returned names c one)
        | inl many ↦
            rw (many, collection_for_objtype)
              (Returns-bind P (matching casefold profile is_exact source names) _ (λ found exact.
                Returns-if P (is_nonempty found) _ _
                  (λ _. Returns-ok P (only found) (λ c e.
                    matching-contains is_exact source c names found exact
                      (only-contains found c e)))
                  (λ _.
                    Returns-bind P (matching casefold profile is_compatible source names) _
                      (λ others compatible. Returns-ok P (only others) (λ c e.
                        matching-contains is_compatible source c names others compatible
                          (only-contains others c e))))))
      ]
