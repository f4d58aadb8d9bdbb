-- ===== src/Docker/Selection.antt =====
-- The selection of images and of volumes that can be deleted, in ImagesView.jsx and VolumesView.jsx.
use condui.Prelude.{
  Bool-cases, inl, inr, ◌∙◌, ap, String, Bool, true, false, not, ◌≡◌, List, [], ◌∷◌, ◌++◌, ◌&&◌,
  ◌||◌, refl, str_eq, filter, any, if◌then◌else◌, arith, eq_iff, All, any-append, if_intro,
}
use condui.Prelude.Text.{is_empty, all}
use condui.Docker.{Container, Image, Volume}

-- `imageReferences` and `volumeReferences`
pub image_references : List Container → Image → List Container
image_references cs i = filter (λ c. str_eq c.image i.id) cs

pub volume_references : List Container → Volume → List Container
volume_references cs v = filter (λ c. any (λ n. str_eq n v.name) c.volumes) cs

-- a set of ids, in the order in which they were added
pub has : String → List String → Bool
has i s = any (λ k. str_eq k i) s

add : String → List String → List String
unfolding has
add i s = if has i s then s else s ++ i ∷ []

remove : String → List String → List String
remove i s = filter (λ k. not (str_eq k i)) s

-- `toggle`
pub toggle : String → List String → List String
unfolding has add remove
toggle i s = if has i s then remove i s else add i s

-- `allSelected`, over the ids of the rows that can be selected
pub all_selected : List String → List String → Bool
unfolding has
all_selected ids s = not (is_empty ids) && all (λ i. has i s) ids

set_all : Bool → List String → List String → List String
unfolding add remove
set_all b [] s = s
set_all b (i ∷ is) s = set_all b is (if b then add i s else remove i s)

-- `toggleAll`
pub toggle_all : List String → List String → List String
unfolding all_selected set_all
toggle_all ids s = set_all (not (all_selected ids s)) ids s

-- `selectedImages`, what the button deletes
pub selected_images : List Container → List Image → List String → List Image
unfolding has image_references
selected_images cs is s = filter (λ i. has i.id s && is_empty (image_references cs i)) is

pub selected_volumes : List Container → List Volume → List String → List Volume
unfolding has volume_references
selected_volumes cs vs s = filter (λ v. has v.name s && is_empty (volume_references cs v)) vs

has-same : (j i : String) (s : List String) → str_eq j i ≡ true → has j s ≡ has i s
has-same j i s e = ap (λ k. has k s) (eq_of_ids e)
  where
    eq_of_ids : str_eq j i ≡ true → j ≡ i
    eq_of_ids e = ground (arith, e, eq_iff j i)

has-add : (j i : String) (s : List String) → has i (add j s) ≡ (str_eq j i || has i s)
unfolding has add
has-add j i s = ground (arith, has-same j i s, any-append (λ k. str_eq k i) s (j ∷ []))

has-remove : (j i : String) (s : List String) → has i (remove j s) ≡ (not (str_eq j i) && has i s)
unfolding has remove
has-remove j i [] = ground arith
has-remove j i (k ∷ s) = ground (arith, has-remove j i s, eq_iff k j, eq_iff k i, eq_iff j i)

has-set_all :
    (b : Bool) (ids s : List String) (i : String)
    → has i (set_all b ids s) ≡ (if has i ids then b else has i s)
unfolding has set_all
has-set_all b [] s i = refl
has-set_all true (j ∷ ids) s i = ground (arith, has-set_all true ids (add j s) i, has-add j i s)
has-set_all false (j ∷ ids) s i =
    ground (arith, has-set_all false ids (remove j s) i, has-remove j i s)

has-toggle :
    (j i : String) (s : List String)
    → has i (toggle j s) ≡ (if str_eq j i then not (has i s) else has i s)
unfolding toggle
has-toggle j i s = ground (arith, has-add j i s, has-remove j i s, has-same j i s)

-- what `all_selected` says of each id
abbrev pub all_of : (String → Bool) → List String → Bool
all_of p [] = true
all_of p (i ∷ is) = p i && all_of p is

all_lem : (p : String → Bool) (ids : List String) → all p ids ≡ all_of p ids
all_lem p [] = refl
all_lem p (i ∷ is) = ap (p i &&◌) (all_lem p is)

any-All :
    (A : Type 0) (p : A → Bool) (xs : List A)
    → is_empty (filter p xs) ≡ true
    → All (λ x. p x ≡ false) xs
any-All A p [] h = tt
any-All A p (x ∷ xs) h = elim (Bool-cases (p x)) [
  | inl e ↦ let k : is_empty (x ∷ filter p xs) ≡ true = rw e at h in cc
  | inr e ↦ (e, any-All A p xs (rw e at h))
]

chosen :
    (A B : Type 0) (p : A → Bool) (used : A → B → Bool) (bs : List B) (xs : List A)
    → All
        (λ x. (p x ≡ true) × All (λ y. used x y ≡ false) bs)
        (filter (λ x. p x && is_empty (filter (used x) bs)) xs)
chosen A B p used bs [] = tt
chosen A B p used bs (x ∷ xs) =
    if_intro (λ ys. All (λ x. (p x ≡ true) × All (λ y. used x y ≡ false) bs) ys)
      (p x && is_empty (filter (used x) bs))
      (λ e.
        ((ground (arith, e), any-All B (used x) bs (ground (arith, e))), chosen A B p used bs xs))
      (λ _. chosen A B p used bs xs)

-- The box above the rows: if a row that can be selected is not, all of them are selected after it,
-- and if all are, none of them; what else was selected stays. The box of a row turns that row
-- around and no other. What the button then deletes was selected, and no container uses it,
-- whatever was selected before.
pub toggle_all_lem :
    (ids s : List String) (i j : String) (cs : List Container) (images : List Image)
    (vs : List Volume)
    → (has i (toggle_all ids s) ≡ (if has i ids then not (all_of (λ k. has k s) ids) else has i s))
      × (has i (toggle j s) ≡ (if str_eq j i then not (has i s) else has i s))
      × All
          (λ m. (has m.id s ≡ true) × All (λ c. str_eq c.image m.id ≡ false) cs)
          (selected_images cs images s)
      × All
          (λ v. (has v.name s ≡ true) × All (λ c. any (λ n. str_eq n v.name) c.volumes ≡ false) cs)
          (selected_volumes cs vs s)
unfolding toggle_all selected_images selected_volumes image_references volume_references
toggle_all_lem ids s i j cs images vs = (
  has-set_all _ ids s i ∙ selects ids,
  has-toggle j i s,
  chosen Image Container (λ m. has m.id s) (λ m c. str_eq c.image m.id) cs images,
  chosen Volume Container (λ v. has v.name s) (λ v c. any (λ n. str_eq n v.name) c.volumes) cs vs,
)
  where
    selects :
        (is : List String)
        → (if has i is then not (all_selected is s) else has i s)
          ≡ (if has i is then not (all_of (λ k. has k s) is) else has i s)
    selects [] = refl
    selects (k ∷ is) = unfold all_selected in rw (all_lem (λ k. has k s) (k ∷ is)) refl
