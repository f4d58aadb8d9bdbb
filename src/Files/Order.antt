-- ===== src/Files/Order.antt =====
-- The order of the files, in RemoteFileTree.jsx. The browser's two comparisons of texts and
-- `toLowerCase` are parameters, on code points.
use condui.Prelude.{
  ap, ℕ, Bool, true, false, not, ◌≡◌, List, [], ◌∷◌, ◌==◌, refl, if◌then◌else◌, any,
}
use condui.Panel.{Sign, before, after, sign, or_sign}
use condui.Panel.Compare.{flip, sign-flip, or_sign-flip}

-- A file; its time is in milliseconds, 0 for one that has none.
pub record File : Type 0 where
  pub name : List ℕ
  pub is_directory : Bool
  pub size : ℕ
  pub time : ℕ

pub data Key : Type 0 where
  by_name by_size by_time by_type : Key

pub record Order : Type 0 where
  pub key : Key
  pub ascending : Bool

abbrev pub same_key : Key → Key → Bool
same_key by_name by_name = true
same_key by_size by_size = true
same_key by_time by_time = true
same_key by_type by_type = true
same_key _ _ = false

-- `toggleSort`
pub toggle_order : Key → Order → Order
toggle_order k o =
    if same_key o.key k
    then record o { ascending = not o.ascending }
    else record { key = k; ascending = true }

-- `name.split(".").pop()`
last_part : List ℕ → List ℕ → List ℕ
last_part part [] = part
last_part part (c ∷ cs) = if c == b'.' then last_part cs cs else last_part part cs

unfoldable pub extension : (List ℕ → List ℕ) → List ℕ → List ℕ
unfolding last_part
extension lower_case name =
    if any (λ c. c == b'.') name then lower_case (last_part name name) else []

directed : Bool → Sign → Sign
directed ascending c = if ascending then c else flip c

-- directories first, whatever the direction
folders_first : Bool → Bool → Sign → Sign
folders_first true false c = before
folders_first false true c = after
folders_first true true c = c
folders_first false false c = c

-- the comparison by which `sortedFiles` sorts
pub compare_files :
    (List ℕ → List ℕ)
    → (List ℕ → List ℕ → Sign)
    → (List ℕ → List ℕ → Sign)
    → Order
    → File
    → File
    → Sign
unfolding extension directed folders_first
compare_files lower_case by_base by_text o a b = elim o.key [
  | by_name ↦
      folders_first a.is_directory b.is_directory (directed o.ascending (by_base a.name b.name))
  | by_size ↦
      folders_first a.is_directory b.is_directory (directed o.ascending (sign a.size b.size))
  | by_time ↦ directed o.ascending (sign a.time b.time)
  | by_type ↦ folders_first a.is_directory b.is_directory (
      directed o.ascending (
        or_sign (by_text (extension lower_case a.name) (extension lower_case b.name))
          (by_base a.name b.name)))
]

same_key_refl : (k : Key) → same_key k k ≡ true
same_key_refl by_name = refl
same_key_refl by_size = refl
same_key_refl by_time = refl
same_key_refl by_type = refl

directed-flip : (b : Bool) (c d : Sign) → d ≡ flip c → directed b d ≡ flip (directed b c)
unfolding directed
directed-flip true c d h = h
directed-flip false c d h = ap flip h

folders_first-flip :
    (a b : Bool) (c d : Sign) → d ≡ flip c → folders_first b a d ≡ flip (folders_first a b c)
unfolding folders_first
folders_first-flip true false c d h = refl
folders_first-flip false true c d h = refl
folders_first-flip true true c d h = h
folders_first-flip false false c d h = h

-- If the browser's comparisons of texts turn around with their arguments, so does the comparison
-- of two files, by each key and in both directions: their order does not depend on which comes
-- first. A directory comes before a file that is none, in both directions, unless they are sorted
-- by their times. A second click on a key turns the direction around, and a click on another key
-- starts upwards.
pub compare_files_lem :
    (lower_case : List ℕ → List ℕ) (by_base by_text : List ℕ → List ℕ → Sign)
    → ((x y : List ℕ) → by_base y x ≡ flip (by_base x y))
    → ((x y : List ℕ) → by_text y x ≡ flip (by_text x y))
    → (o : Order) (a b : File)
    → (compare_files lower_case by_base by_text o b a
        ≡ flip (compare_files lower_case by_base by_text o a b))
      × (a.is_directory ≡ true
          → b.is_directory ≡ false
          → same_key o.key by_time ≡ false
          → compare_files lower_case by_base by_text o a b ≡ before)
      × ((toggle_order o.key o).ascending ≡ not o.ascending)
      × ((k : Key)
          → same_key o.key k ≡ false
          → toggle_order k o ≡ record { key = k; ascending = true })
unfolding compare_files toggle_order
compare_files_lem lower_case by_base by_text h k o a b =
    (flips o.key, first o.key, rw (same_key_refl o.key) refl, λ j e. rw e refl)
  where
    flips :
        (key : Key)
        → compare_files lower_case by_base by_text
            (record { key = key; ascending = o.ascending })
            b
            a
          ≡ flip (
              compare_files lower_case by_base by_text
                (record { key = key; ascending = o.ascending })
                a
                b)
    flips by_name =
        folders_first-flip a.is_directory b.is_directory _ _
          (directed-flip o.ascending _ _ (h a.name b.name))
    flips by_size =
        folders_first-flip a.is_directory b.is_directory _ _
          (directed-flip o.ascending _ _ (sign-flip a.size b.size))
    flips by_time = directed-flip o.ascending _ _ (sign-flip a.time b.time)
    flips by_type = folders_first-flip a.is_directory b.is_directory _ _ (
        directed-flip o.ascending _ _ (
          rw (k (extension lower_case a.name) (extension lower_case b.name), h a.name b.name)
            (or_sign-flip _ _)))

    first :
        (key : Key)
        → a.is_directory ≡ true
        → b.is_directory ≡ false
        → same_key key by_time ≡ false
        → compare_files lower_case by_base by_text
            (record { key = key; ascending = o.ascending })
            a
            b
          ≡ before
    first by_name d e n = rw (d, e) refl
    first by_size d e n = rw (d, e) refl
    first by_time d e n = cc
    first by_type d e n = rw (d, e) refl
