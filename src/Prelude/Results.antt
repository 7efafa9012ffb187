-- ===== src/Prelude/Results.antt =====
-- Calls that may raise: `ok` the value returned, `err` the exception raised.
use mathlib.Core.Option.{Option, none, some}
use mathlib.Core.Bool.{Bool, true, false}
use mathlib.Core.List.{List, [], ◌∷◌}
use mathlib.Core.Path.{◌≡◌, refl, sym, subst}
use topografisk_gdb_api.Prelude.Tests.{if◌then◌else◌}
use topografisk_gdb_api.Prelude.Lists.{All}
use mathlib.Core.Logic.{◌⊎◌, inl, inr}

pub data Result {ℓ κ} (E : Type ℓ) (A : Type κ) : Type (ℓ ⊔ κ) where
  ok : A → Result E A
  err : E → Result E A

infixl 5 ◌>>=◌ ◌>>◌
abbrev pub ◌>>=◌ {ℓ κ ι} :
    {E : Type ℓ} {A : Type κ} {B : Type ι} → Result E A → (A → Result E B) → Result E B
ok a >>= f = f a
err e >>= f = err e

abbrev pub ◌>>◌ {ℓ κ} : {E : Type ℓ} {B : Type κ} → Result E (Unit {0}) → Result E B → Result E B
m >> k = m >>= λ _. k

-- `if condition: raise e`
abbrev pub raise_if {ℓ} : {E : Type ℓ} → Bool → E → Result E (Unit {0})
raise_if true e = err e
raise_if false e = ok tt

-- The value of an option, or the exception raised where there is none.
abbrev pub or_raise {ℓ κ} : {E : Type ℓ} {A : Type κ} → Option A → E → Result E A
or_raise none e = err e
or_raise (some a) e = ok a

-- `[f(x) for x in xs]` where `f` may raise: the first exception ends the loop.
unfoldable pub map_result {ℓ κ ι} :
    {E : Type ℓ} {A : Type κ} {B : Type ι} → (A → Result E B) → List A → Result E (List B)
map_result f [] = ok []
map_result f (x ∷ xs) = f x >>= λ y. map_result f xs >>= λ ys. ok (y ∷ ys)

-- A result split with its equation.
pub Result-cases {ℓ κ} :
    {E : Type ℓ} {A : Type κ} (r : Result E A) → ((a : A) × (r ≡ ok a)) ⊎ ((e : E) × (r ≡ err e))
Result-cases (ok a) = inl (a, refl)
Result-cases (err e) = inr (e, refl)

-- What a chain returned was returned by its first step.
pub first-returned {ℓ κ ι} :
    {E : Type ℓ} {A : Type κ} {B : Type ι} (m : Result E A) (f : A → Result E B) (b : B)
    → m >>= f ≡ ok b
    → (a : A) × (m ≡ ok a) × (f a ≡ ok b)
first-returned (ok a) f b h = (a, refl, h)
first-returned (err e) f b h = absurd (cc h)

pub raise_if-returned {ℓ κ} :
    {E : Type ℓ} {B : Type κ} (c : Bool) (e : E) (k : Result E B) (b : B)
    → raise_if c e >> k ≡ ok b
    → (c ≡ false) × (k ≡ ok b)
raise_if-returned true e k b h = absurd (cc h)
raise_if-returned false e k b h = (refl, h)

pub ok_injective {ℓ κ} :
    {E : Type ℓ} {A : Type κ} (a b : A) → ◌≡◌ {A = Result E A} (ok a) (ok b) → a ≡ b
ok_injective a b h = cc h

pub err_injective {ℓ κ} :
    {E : Type ℓ} {A : Type κ} (d e : E) → ◌≡◌ {A = Result E A} (err d) (err e) → d ≡ e
err_injective d e h = cc h

pub or_raise-returned {ℓ κ} :
    {E : Type ℓ} {A : Type κ} (o : Option A) (e : E) (a : A) → or_raise o e ≡ ok a → o ≡ some a
or_raise-returned none e a h = absurd (cc h)
or_raise-returned (some b) e a h = cc h

-- Whatever the call returns satisfies `P`.
abbrev pub Returns {ℓ κ ι} :
    {E : Type ℓ} {A : Type κ} → (A → Type ι) → Result E A → Type (ℓ ⊔ κ ⊔ ι)
Returns {A} P m = (a : A) → m ≡ ok a → P a

module _ {ℓ κ ι} {E : Type ℓ} {A : Type κ} (P : A → Type ι) where
  pub Returns-ok : (a : A) → P a → Returns {E = E} P (ok a)
  Returns-ok a p b h = subst P (ok_injective {E = E} a b h) p

  pub Returns-err : (e : E) → Returns P (err e)
  Returns-err e b h = absurd (cc h)

  pub Returns-bind {ζ} :
      {B : Type ζ} (m : Result E B) (f : B → Result E A)
      → ((b : B) → m ≡ ok b → Returns P (f b))
      → Returns P (m >>= f)
  Returns-bind (ok b) f h = h b refl
  Returns-bind (err e) f h = Returns-err e

  pub Returns-if :
      (c : Bool) (m k : Result E A)
      → (c ≡ true → Returns P m)
      → (c ≡ false → Returns P k)
      → Returns P (if c then m else k)
  Returns-if true m k h l = h refl
  Returns-if false m k h l = l refl

-- The lists have one length, and their elements are related place by place.
abbrev pub Each : {A B : Type 0} → (A → B → Type 0) → List A → List B → Type 0
Each R [] [] = Unit
Each R [] (y ∷ ys) = ⊥
Each R (x ∷ xs) [] = ⊥
Each R (x ∷ xs) (y ∷ ys) = R x y × Each R xs ys

pub map_result-Each :
    {E A B : Type 0} (f : A → Result E B) (xs : List A) (ys : List B)
    → map_result f xs ≡ ok ys
    → Each (λ x y. f x ≡ ok y) xs ys
unfolding map_result
map_result-Each f [] [] h = tt
map_result-Each f [] (y ∷ ys) h = absurd (cc h)
map_result-Each f (x ∷ xs) ys h =
    let (y, hy, rest) = first-returned (f x) (λ y. map_result f xs >>= λ zs. ok (y ∷ zs)) ys h in
    let (zs, hz, last) = first-returned (map_result f xs) (λ zs. ok (y ∷ zs)) ys rest in
    rw (sym (ok_injective (y ∷ zs) ys last)) (hy, map_result-Each f xs zs hz)

module _ {A B : Type 0} where
  pub Each-weaken :
      (R S : A → B → Type 0) (xs : List A) (ys : List B)
      → ((x : A) (y : B) → R x y → S x y)
      → Each R xs ys
      → Each S xs ys
  Each-weaken R S [] [] f h = tt
  Each-weaken R S [] (y ∷ ys) f h = h
  Each-weaken R S (x ∷ xs) [] f h = h
  Each-weaken R S (x ∷ xs) (y ∷ ys) f h = (f x y h.0, Each-weaken R S xs ys f h.1)

module _ {A B C : Type 0} where
  pub Each-trans :
      (R : A → B → Type 0) (S : B → C → Type 0) (T : A → C → Type 0) (xs : List A) (ys : List B)
      (zs : List C)
      → ((x : A) (y : B) (z : C) → R x y → S y z → T x z)
      → Each R xs ys
      → Each S ys zs
      → Each T xs zs
  Each-trans R S T [] [] [] f h k = tt
  Each-trans R S T [] [] (z ∷ zs) f h k = k
  Each-trans R S T [] (y ∷ ys) zs f h k = absurd h
  Each-trans R S T (x ∷ xs) [] zs f h k = absurd h
  Each-trans R S T (x ∷ xs) (y ∷ ys) [] f h k = k
  Each-trans R S T (x ∷ xs) (y ∷ ys) (z ∷ zs) f h k =
      (f x y z h.0 k.0, Each-trans R S T xs ys zs f h.1 k.1)

pub map_result-All :
    {E A B : Type 0} (P : B → Type 0) (f : A → Result E B)
    → ((x : A) → Returns P (f x))
    → (xs : List A) → Returns (All P) (map_result f xs)
unfolding map_result
map_result-All P f h [] = Returns-ok (All P) [] tt
map_result-All P f h (x ∷ xs) =
    Returns-bind (All P) (f x) (λ y. map_result f xs >>= λ ys. ok (y ∷ ys))
      (λ y here.
        Returns-bind (All P) (map_result f xs) (λ ys. ok (y ∷ ys))
          (λ ys there. Returns-ok (All P) (y ∷ ys) (h x y here, map_result-All P f h xs ys there)))

-- Whatever the call raises satisfies `P`.
abbrev pub Raises {ℓ κ ι} : {E : Type ℓ} {A : Type κ} → (E → Type ι) → Result E A → Type (ℓ ⊔ κ ⊔ ι)
Raises {E} P m = (e : E) → m ≡ err e → P e

module _ {ℓ κ ι} {E : Type ℓ} {A : Type κ} (P : E → Type ι) where
  pub Raises-ok : (a : A) → Raises P (ok a)
  Raises-ok a e h = absurd (cc h)

  pub Raises-err : (d : E) → P d → Raises {A = A} P (err d)
  Raises-err d p e h = subst P (err_injective {A = A} d e h) p

  pub Raises-bind {ζ} :
      {B : Type ζ} (m : Result E B) (f : B → Result E A)
      → Raises P m
      → ((b : B) → m ≡ ok b → Raises P (f b))
      → Raises P (m >>= f)
  Raises-bind (ok b) f h k = k b refl
  Raises-bind (err d) f h k = Raises-err d (h d refl)

  pub Raises-if :
      (c : Bool) (m k : Result E A)
      → (c ≡ true → Raises P m)
      → (c ≡ false → Raises P k)
      → Raises P (if c then m else k)
  Raises-if true m k h l = h refl
  Raises-if false m k h l = l refl

  pub Raises-or_raise : (o : Option A) (d : E) → (o ≡ none → P d) → Raises P (or_raise o d)
  Raises-or_raise none d p = Raises-err d (p refl)
  Raises-or_raise (some a) d p = Raises-ok a

module _ {ℓ ι} {E : Type ℓ} (P : E → Type ι) where
  pub Raises-raise_if : (c : Bool) (d : E) → P d → Raises P (raise_if c d)
  Raises-raise_if true d p = Raises-err P d p
  Raises-raise_if false d p = Raises-ok P tt

pub map_result-Raises :
    {E A B : Type 0} (P : E → Type 0) (Q : A → Type 0) (f : A → Result E B)
    → ((x : A) → Q x → Raises P (f x))
    → (xs : List A) → All Q xs
    → Raises P (map_result f xs)
unfolding map_result
map_result-Raises P Q f h [] q = Raises-ok P []
map_result-Raises P Q f h (x ∷ xs) q =
    Raises-bind P (f x) (λ y. map_result f xs >>= λ ys. ok (y ∷ ys)) (h x q.0)
      (λ y _.
        Raises-bind P (map_result f xs) (λ ys. ok (y ∷ ys)) (map_result-Raises P Q f h xs q.1)
          (λ ys _. Raises-ok P (y ∷ ys)))
