-- ===== src/Files/Walk.antt =====
-- Walking in the tree: the parent of a path, and the entries of its breadcrumb.
use condui.Prelude.{
  subst, ℕ, zero, suc, ◌+◌, Bool, true, false, not, ◌&&◌, Option, none, some, List, [], ◌∷◌, ◌++◌,
  ◌≡◌, refl, ap, ◌∙◌, arith, ◌==◌, if◌then◌else◌, filter, take,
}
use condui.Prelude.Text.{is_empty, all}
use condui.Files.Path.{slash, split, cons_part, parts, join, path_of, pop, is_root, parent, crumb}

abbrev pub no_slash : List ℕ → Bool
no_slash p = all (λ c. not (c == slash)) p

-- a part of a path: not empty, and without a slash
abbrev pub is_part : List ℕ → Bool
is_part p = not (is_empty p) && no_slash p

split-part : (p : List ℕ) → no_slash p ≡ true → split p ≡ p ∷ []
unfolding split cons_part
split-part [] h = refl
split-part (c ∷ p) h = ground (arith, split-part p)

split-append : (p cs : List ℕ) → no_slash p ≡ true → split (p ++ slash ∷ cs) ≡ p ∷ split cs
unfolding split cons_part
split-append [] cs h = refl
split-append (c ∷ p) cs h = ground (arith, split-append p cs)

split-join :
    (p : List ℕ) (ps : List (List ℕ)) → all is_part (p ∷ ps) ≡ true → split (join (p ∷ ps)) ≡ p ∷ ps
unfolding join
split-join p [] h = split-part p (ground arith)
split-join p (q ∷ ps) h =
    split-append p (join (q ∷ ps)) (ground arith) ∙ ap (p ∷◌) (split-join q ps (ground arith))

filter_parts : (ps : List (List ℕ)) → all is_part ps ≡ true → filter (λ p. not (is_empty p)) ps ≡ ps
filter_parts [] h = refl
filter_parts (p ∷ ps) h = ground (arith, filter_parts ps)

-- The parts of a path that was built of parts are those parts.
pub parts-path_of : (ps : List (List ℕ)) → all is_part ps ≡ true → parts (path_of ps) ≡ ps
unfolding parts path_of split
parts-path_of [] h = unfold join in refl
parts-path_of (p ∷ ps) h = rw (split-join p ps h) (filter_parts (p ∷ ps) h)

all-split : (cs : List ℕ) → all no_slash (split cs) ≡ true
unfolding split cons_part
all-split [] = refl
all-split (c ∷ cs) = first (split cs) (all-split cs)
  where
    first :
        (ps : List (List ℕ))
        → all no_slash ps ≡ true
        → all no_slash (if c == slash then [] ∷ ps else cons_part c ps) ≡ true
    first [] h = ground arith
    first (p ∷ ps) h = ground arith

all-filter :
    (ps : List (List ℕ))
    → all no_slash ps ≡ true
    → all is_part (filter (λ p. not (is_empty p)) ps) ≡ true
all-filter [] h = refl
all-filter (p ∷ ps) h = ground (arith, all-filter ps)

all-parts : (path : List ℕ) → all is_part (parts path) ≡ true
unfolding parts
all-parts path = all-filter (split path) (all-split path)

all-pop : (ps : List (List ℕ)) → all is_part ps ≡ true → all is_part (pop ps) ≡ true
unfolding pop
all-pop [] h = refl
all-pop (p ∷ []) h = refl
all-pop (p ∷ q ∷ ps) h = ground (arith, all-pop (q ∷ ps))

all-take : (n : ℕ) (ps : List (List ℕ)) → all is_part ps ≡ true → all is_part (take n ps) ≡ true
all-take zero ps h = refl
all-take (suc n) [] h = refl
all-take (suc n) (p ∷ ps) h = ground (arith, all-take n ps)

is_root_sound : (path : List ℕ) → is_root path ≡ true → path ≡ slash ∷ []
unfolding is_root
is_root_sound [] h = cc
is_root_sound (c ∷ []) h = ground arith
is_root_sound (c ∷ d ∷ cs) h = cc

-- Going to the parent takes the last part off the path, whatever slashes the path has, and does
-- nothing at the root only; an entry of the breadcrumb leads to the path of as many parts as it
-- stands for.
pub parent_lem :
    (path q : List ℕ) (i : ℕ)
    → (parent path ≡ some q → parts q ≡ pop (parts path))
      × (parent path ≡ none → path ≡ slash ∷ [])
      × (parts (crumb i path) ≡ take (i + 1) (parts path))
unfolding parent crumb
parent_lem path q i = (
  λ h. up (is_root path) h,
  λ h. is_root_sound path (none_only (is_root path) h),
  parts-path_of (take (i + 1) (parts path)) (all-take (i + 1) (parts path) (all-parts path)),
)
  where
    up :
        (b : Bool)
        → (if b then none else some (path_of (pop (parts path)))) ≡ some q
        → parts q ≡ pop (parts path)
    up true h = cc
    up false h =
        let same : path_of (pop (parts path)) ≡ q = cc in
        subst (λ x. parts x ≡ pop (parts path)) same
          (parts-path_of (pop (parts path)) (all-pop (parts path) (all-parts path)))

    none_only :
        (b : Bool)
        → ◌≡◌ {A = Option (List ℕ)} (if b then none else some (path_of (pop (parts path)))) none
        → b ≡ true
    none_only true h = refl
    none_only false h = cc
