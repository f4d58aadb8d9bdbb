-- ===== src/Prelude/Lists.antt =====
-- Lists over the native numbers, the array methods `filter`, `find`, `some`, `at(-1)`, and the
-- predicates on lists that the invariants use.
use condui.Prelude.Tests.{if◌then◌else◌, Bool-cases}
use Prim.Native.Nat.{ℕ, zero, suc, ◌+◌, ◌≤◌}
use mathlib.Core.Path.{◌≡◌, refl, ap, subst}
use mathlib.Core.Logic.{◌≢◌, inl, inr}
use mathlib.Core.Bool.{Bool, true, false, ◌&&◌, ◌||◌, false≢true}
use mathlib.Core.Option.{Option, none, some}
use mathlib.Core.List.{List, [], ◌∷◌, ◌++◌, map, append_assoc}
use native.Mathlib.Omega.{arith}

module _ {ℓ} {A : Type ℓ} where
  abbrev pub length : List A → ℕ
  length [] = 0
  length (_ ∷ xs) = suc (length xs)

  -- `xs.filter(p)`
  abbrev pub filter : (A → Bool) → List A → List A
  filter p [] = []
  filter p (x ∷ xs) = let rest = filter p xs in if p x then x ∷ rest else rest

  -- `xs.find(p)`
  abbrev pub find : (A → Bool) → List A → Option A
  find p [] = none
  find p (x ∷ xs) = let rest = find p xs in if p x then some x else rest

  -- `xs.some(p)`
  abbrev pub any : (A → Bool) → List A → Bool
  any p [] = false
  any p (x ∷ xs) = p x || any p xs

  -- `xs.at(-1)`
  abbrev pub get_last? : List A → Option A
  get_last? [] = none
  get_last? (x ∷ []) = some x
  get_last? (_ ∷ y ∷ xs) = get_last? (y ∷ xs)

  -- `xs.slice(0, n)`
  abbrev pub take : ℕ → List A → List A
  take zero xs = []
  take (suc n) [] = []
  take (suc n) (x ∷ xs) = x ∷ take n xs

  pub length-append : (xs ys : List A) → length (xs ++ ys) ≡ length xs + length ys
  length-append [] ys = omega arith
  length-append (_ ∷ xs) ys = omega (arith, length-append xs ys)

  pub length-take : (n : ℕ) (xs : List A) → length (take n xs) ≤ n
  length-take zero xs = omega arith
  length-take (suc n) [] = omega arith
  length-take (suc n) (_ ∷ xs) = omega (arith, length-take n xs)

  pub length-filter : (p : A → Bool) (xs : List A) → length (filter p xs) ≤ length xs
  length-filter p [] = omega arith
  length-filter p (x ∷ xs) = ground (arith, length-filter p xs)

  -- A filter that drops nothing changes nothing.
  pub filter-id : (p : A → Bool) (xs : List A) → length (filter p xs) ≡ length xs → filter p xs ≡ xs
  filter-id p [] e = refl
  filter-id p (x ∷ xs) e = elim (Bool-cases (p x)) [
    | inl h ↦ rw h (ap (x ∷◌) (filter-id p xs (ground arith)))
    | inr h ↦ absurd (ground (arith, length-filter p xs))
  ]

  pub any-append : (p : A → Bool) (xs ys : List A) → any p (xs ++ ys) ≡ (any p xs || any p ys)
  any-append p [] ys = refl
  any-append p (x ∷ xs) ys = ground (arith, any-append p xs ys)

  pub filter-append :
      (p : A → Bool) (xs ys : List A) → filter p (xs ++ ys) ≡ filter p xs ++ filter p ys
  filter-append p [] ys = refl
  filter-append p (x ∷ xs) ys = elim (Bool-cases (p x)) [
    | inl h ↦ rw (h, filter-append p xs ys)
    | inr h ↦ rw (h, filter-append p xs ys)
  ]

  -- Filtering twice keeps what passes both tests.
  pub filter-filter :
      (p q : A → Bool) (xs : List A)
      → filter p (filter q xs) ≡ filter (λ x. if q x then p x else false) xs
  filter-filter p q [] = refl
  filter-filter p q (x ∷ xs) = ground (arith, filter-filter p q xs)

  pub any-filter : (p q : A → Bool) (xs : List A) → any p (filter q xs) ≡ any (λ x. q x && p x) xs
  any-filter p q [] = refl
  any-filter p q (x ∷ xs) = ground (arith, any-filter p q xs)

  pub any_ext : (p q : A → Bool) (xs : List A) → ((x : A) → p x ≡ q x) → any p xs ≡ any q xs
  any_ext p q [] h = refl
  any_ext p q (x ∷ xs) h = rw (h x, any_ext p q xs h) refl

  pub any_or : (p q : A → Bool) (xs : List A) → any (λ x. p x || q x) xs ≡ (any p xs || any q xs)
  any_or p q [] = refl
  any_or p q (x ∷ xs) = ground (arith, any_or p q xs)

  pub any-false : (xs : List A) → any (λ x. false) xs ≡ false
  any-false [] = refl
  any-false (x ∷ xs) = any-false xs

  pub any-get_last? :
      (p : A → Bool) (xs : List A) {x : A} → get_last? xs ≡ some x → p x ≡ true → any p xs ≡ true
  any-get_last? p [] e h = cc
  any-get_last? p (y ∷ []) e h = ground arith
  any-get_last? p (y ∷ z ∷ xs) e h = ground (arith, any-get_last? p (z ∷ xs) e h)

  -- An array that is not empty has a last element.
  pub get_last?-cons : (x : A) (xs : List A) → (y : A) × (get_last? (x ∷ xs) ≡ some y)
  get_last?-cons x [] = (x, refl)
  get_last?-cons x (y ∷ xs) = get_last?-cons y xs

  pub any-find : (p : A → Bool) (xs : List A) {x : A} → find p xs ≡ some x → any p xs ≡ true
  any-find p [] e = cc
  any-find p (y ∷ xs) {x} e = ground (arith, any-find p xs {x = x})

  pub find_sound : (p : A → Bool) (xs : List A) {x : A} → find p xs ≡ some x → p x ≡ true
  find_sound p [] e = cc
  find_sound p (y ∷ xs) {x} e = ground (arith, find_sound p xs {x = x})

  pub any-find-none : (p : A → Bool) (xs : List A) → find p xs ≡ none → any p xs ≡ false
  any-find-none p [] e = refl
  any-find-none p (y ∷ xs) e = ground (arith, any-find-none p xs)

abbrev pub is_some {ℓ} : {A : Type ℓ} → Option A → Bool
is_some none = false
is_some (some _) = true

module _ {ℓ κ} {A : Type ℓ} where
  abbrev pub All : (A → Type κ) → List A → Type κ
  All P [] = Unit
  All P (x ∷ xs) = P x × All P xs

  pub All-filter : (P : A → Type κ) (p : A → Bool) (xs : List A) → All P xs → All P (filter p xs)
  All-filter P p [] h = tt
  All-filter P p (x ∷ xs) (h, hs) = elim (Bool-cases (p x)) [
    | inl e ↦ rw e (h, All-filter P p xs hs)
    | inr e ↦ rw e (All-filter P p xs hs)
  ]

  pub All-append : (P : A → Type κ) (xs ys : List A) → All P xs → All P ys → All P (xs ++ ys)
  All-append P [] ys h k = k
  All-append P (x ∷ xs) ys (h, hs) k = (h, All-append P xs ys hs k)

  pub All-map : (P Q : A → Type κ) (xs : List A) → ((x : A) → P x → Q x) → All P xs → All Q xs
  All-map P Q [] f h = tt
  All-map P Q (x ∷ xs) f (h, hs) = (f x h, All-map P Q xs f hs)

  pub All-zip :
      (P Q R : A → Type κ) (xs : List A)
      → ((x : A) → P x → Q x → R x)
      → All P xs
      → All Q xs
      → All R xs
  All-zip P Q R [] f h k = tt
  All-zip P Q R (x ∷ xs) f (h, hs) (k, ks) = (f x h k, All-zip P Q R xs f hs ks)

  -- What holds of all holds of the one that `find` returns.
  pub All-find :
      (P : A → Type κ) (p : A → Bool) (xs : List A) {x : A} → All P xs → find p xs ≡ some x → P x
  All-find P p [] h e = absurd (false≢true (ap is_some e))
  All-find P p (y ∷ ys) {x} (h, hs) e = elim (Bool-cases (p y)) [
    | inl t ↦ let e' : some y ≡ some x = rw t at e in subst P (cc) h
    | inr t ↦ All-find P p ys hs (rw t at e)
  ]

-- No two places of the list have the same value of `f`.
module _ {ℓ κ} {A : Type ℓ} {B : Type κ} (f : A → B) where
  abbrev pub Distinct : List A → Type κ
  Distinct [] = Unit
  Distinct (x ∷ xs) = All (λ y. f x ≢ f y) xs × Distinct xs

  pub Distinct-filter : (p : A → Bool) (xs : List A) → Distinct xs → Distinct (filter p xs)
  Distinct-filter p [] h = tt
  Distinct-filter p (x ∷ xs) (h, hs) = elim (Bool-cases (p x)) [
    | inl e ↦ rw e (All-filter _ p xs h, Distinct-filter p xs hs)
    | inr e ↦ rw e (Distinct-filter p xs hs)
  ]

  pub Distinct-concat :
      (xs : List A) (x : A) → Distinct xs → All (λ y. f y ≢ f x) xs → Distinct (xs ++ x ∷ [])
  Distinct-concat [] x h k = (tt, tt)
  Distinct-concat (y ∷ ys) x (h, hs) (k, ks) =
      (All-append _ ys (x ∷ []) h (k, tt), Distinct-concat ys x hs ks)

module _ {ℓ} {A : Type ℓ} where
  abbrev pub concat : List (List A) → List A
  concat [] = []
  concat (xs ∷ xss) = xs ++ concat xss

  pub concat-append : (xss yss : List (List A)) → concat (xss ++ yss) ≡ concat xss ++ concat yss
  concat-append [] yss = refl
  concat-append (xs ∷ xss) yss = simp (concat-append xss yss, append_assoc)

  pub get_last?-append :
      (xs : List A) (y : A) (ys : List A) → get_last? (xs ++ y ∷ ys) ≡ get_last? (y ∷ ys)
  get_last?-append [] y ys = refl
  get_last?-append (x ∷ []) y ys = refl
  get_last?-append (x ∷ z ∷ xs) y ys = get_last?-append (z ∷ xs) y ys

  pub get_last?-cons_some :
      (x : A) (xs : List A) {y : A} → get_last? xs ≡ some y → get_last? (x ∷ xs) ≡ some y
  get_last?-cons_some x [] e = cc
  get_last?-cons_some x (z ∷ xs) e = e

  pub get_last?-append_some :
      (xs ys : List A) {y : A} → get_last? ys ≡ some y → get_last? (xs ++ ys) ≡ some y
  get_last?-append_some [] ys e = e
  get_last?-append_some (x ∷ xs) ys e =
      get_last?-cons_some x (xs ++ ys) (get_last?-append_some xs ys e)

pub length-map {ℓ κ} :
    {A : Type ℓ} {B : Type κ} (f : A → B) (xs : List A) → length (map f xs) ≡ length xs
length-map f [] = refl
length-map f (x ∷ xs) = ap suc (length-map f xs)

pub filter-ext {ℓ} :
    {A : Type ℓ} (p q : A → Bool) (xs : List A) → ((x : A) → p x ≡ q x) → filter p xs ≡ filter q xs
filter-ext p q [] h = refl
filter-ext p q (x ∷ xs) h = ground (arith, h x, filter-ext p q xs h)
