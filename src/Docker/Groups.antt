-- ===== src/Docker/Groups.antt =====
-- The stacks: `groupContainers` of explorerData.js and what StacksView.jsx shows of a group.
use Prim.Native.Char.{code}
use Prim.Native.String.append
use text.Mathlib.TextLemmas.{append_cancel_left}
use condui.Prelude.{
  filter-ext, Bool-cases, inl, inr, if_intro, ℕ, String, Bool, true, false, not, ◌≡◌, ◌≢◌, Option,
  none, some, List, [], ◌∷◌, ◌++◌, ◌&&◌, ◌==◌, refl, str_eq, str_append, filter, if◌then◌else◌,
  arith, length, eq_iff, append_assoc, append-nil, ap, sym, ◌∙◌, All, Distinct,
}
use condui.Prelude.Text.{codes, is_empty}
use condui.Docker.{Container}

pub record Group : Type 0 where
  pub key : String
  pub kind : String
  pub project : String
  pub containers : List Container

has_text : Option String → Bool
has_text none = false
has_text (some s) = not (is_empty (codes s))

text_of : Option String → String
text_of none = ""
text_of (some s) = s

pub kind_of : Container → String
unfolding has_text
kind_of c = if has_text c.stack then "Swarm" else if has_text c.project then "Compose" else ""

pub project_of : Container → String
unfolding has_text text_of
project_of c =
    if has_text c.stack
    then text_of c.stack
    else if has_text c.project
    then text_of c.project
    else ""

pub key_of : Container → String
unfolding kind_of project_of
key_of c = str_append (kind_of c) (str_append ":" (project_of c))

new_group : Container → Group
unfolding key_of kind_of project_of
new_group c = record {
  key = key_of c;
  kind = kind_of c;
  project = project_of c;
  containers = c ∷ [];
}

-- one round of the loop
add_container : Container → List Group → List Group
unfolding new_group key_of
add_container c [] = new_group c ∷ []
add_container c (g ∷ gs) =
    let rest = add_container c gs in
    if str_eq g.key (key_of c)
    then record g { containers = g.containers ++ c ∷ [] } ∷ gs
    else g ∷ rest

pub groups_from : List Group → List Container → List Group
unfolding add_container
groups_from gs [] = gs
groups_from gs (c ∷ cs) = groups_from (add_container c gs) cs

-- `groupContainers`; `sort` is the browser's sort by the projects
pub group_containers : (List Group → List Group) → List Container → List Group
unfolding groups_from
group_containers sort cs = sort (groups_from [] cs)

active : Group → ℕ
active g = length (filter (λ c. c.running) g.containers)

-- the state that a group is shown in, and the actions that it offers
pub state_of : Group → String
unfolding active
state_of g =
    if active g == length g.containers
    then "running"
    else if active g == 0
    then "stopped"
    else "partial"

pub offers : Bool → Group → String → Bool
unfolding active
offers busy g action =
    str_eq g.kind "Compose"
    && not busy
    && (if str_eq action "start"
        then not (active g == length g.containers)
        else not (active g == 0))

-- the containers of the group of a key
pub in_group : String → List Group → List Container
in_group k [] = []
in_group k (g ∷ gs) = if str_eq g.key k then g.containers else in_group k gs

in_group-add_container :
    (k : String) (c : Container) (gs : List Group)
    → in_group k (add_container c gs)
      ≡ (if str_eq (key_of c) k then in_group k gs ++ c ∷ [] else in_group k gs)
unfolding in_group add_container new_group
in_group-add_container k c [] = refl
in_group-add_container k c (g ∷ gs) = ground (
  arith,
  in_group-add_container k c gs,
  eq_iff g.key (key_of c),
  eq_iff g.key k,
  eq_iff (key_of c) k,
)

append_if :
    (b : Bool) (c : Container) (xs ys : List Container)
    → (if b then xs ++ c ∷ [] else xs) ++ ys ≡ xs ++ (if b then c ∷ ys else ys)
append_if true c xs ys = append_assoc xs (c ∷ []) ys
append_if false c xs ys = refl

in_group-groups_from :
    (k : String) (gs : List Group) (cs : List Container)
    → in_group k (groups_from gs cs) ≡ in_group k gs ++ filter (λ c. str_eq (key_of c) k) cs
unfolding groups_from
in_group-groups_from k gs [] = sym (append-nil (in_group k gs))
in_group-groups_from k gs (c ∷ cs) =
    in_group-groups_from k (add_container c gs) cs
    ∙ ap (◌++ filter (λ d. str_eq (key_of d) k) cs) (in_group-add_container k c gs)
    ∙ append_if (str_eq (key_of c) k) c (in_group k gs) (filter (λ d. str_eq (key_of d) k) cs)

add_container-All :
    (k : String) (c : Container) (gs : List Group)
    → k ≢ key_of c
    → All (λ g. k ≢ g.key) gs
    → All (λ g. k ≢ g.key) (add_container c gs)
unfolding add_container new_group
add_container-All k c [] n h = (n, tt)
add_container-All k c (g ∷ gs) n (h, hs) =
    if_intro (λ xs. All (λ (x : Group). k ≢ x.key) xs) (str_eq g.key (key_of c)) (λ _. (h, hs))
      (λ _. (h, add_container-All k c gs n hs))

add_container-Distinct :
    (c : Container) (gs : List Group)
    → Distinct (λ g. g.key) gs
    → Distinct (λ g. g.key) (add_container c gs)
unfolding add_container new_group
add_container-Distinct c [] h = (tt, tt)
add_container-Distinct c (g ∷ gs) (h, hs) =
    if_intro (λ xs. Distinct (λ (x : Group). x.key) xs) (str_eq g.key (key_of c)) (λ _. (h, hs))
      (λ e. (add_container-All g.key c gs (differ e) h, add_container-Distinct c gs hs))
  where
    differ : str_eq g.key (key_of c) ≡ false → g.key ≢ key_of c
    differ e = ground (arith, e, eq_iff g.key (key_of c))

groups_from-Distinct :
    (gs : List Group) (cs : List Container)
    → Distinct (λ g. g.key) gs
    → Distinct (λ g. g.key) (groups_from gs cs)
unfolding groups_from
groups_from-Distinct gs [] h = h
groups_from-Distinct gs (c ∷ cs) h =
    groups_from-Distinct (add_container c gs) cs (add_container-Distinct c gs h)

key_text : String → String → String
key_text kind project = str_append kind (str_append ":" project)

data IsKind : String → Type 0 where
  swarm : IsKind "Swarm"
  compose : IsKind "Compose"
  neither : IsKind ""

kind_of-IsKind : (c : Container) → IsKind (kind_of c)
unfolding kind_of
kind_of-IsKind c =
    if_intro IsKind (has_text c.stack) (λ _. swarm)
      (λ _. if_intro IsKind (has_text c.project) (λ _. compose) (λ _. neither))

-- the number of the first character
first : String → ℕ
first String.[] = 0
first (String.◌∷◌ c s) = code c

first_swarm : (p : String) → first (key_text "Swarm" p) ≡ 83
unfolding key_text first
first_swarm p = ap first (append.cons "S" "warm" (str_append ":" p))

first_compose : (p : String) → first (key_text "Compose" p) ≡ 67
unfolding key_text first
first_compose p = ap first (append.cons "C" "ompose" (str_append ":" p))

first_neither : (p : String) → first (key_text "" p) ≡ 58
unfolding key_text first
first_neither p = ap first (append.nil (str_append ":" p) ∙ append.cons ":" "" p)

same_project : (k p q : String) → str_eq (key_text k p) (key_text k q) ≡ str_eq p q
unfolding key_text
same_project k p q = elim (Bool-cases (str_eq p q)) [
  | inl e ↦
      let same : key_text k p ≡ key_text k q = ap (key_text k) ((eq_iff p q).0 e) in
      ground (arith, e, same, eq_iff (key_text k p) (key_text k q))
  | inr e ↦ ground (arith, e, eq_iff (key_text k p) (key_text k q), eq_iff p q, cancelled)
]
  where
    cancelled : key_text k p ≡ key_text k q → p ≡ q
    cancelled e = append_cancel_left ":" p q (append_cancel_left k _ _ e)

differ_key : (s t : String) → first s ≢ first t → str_eq s t ≡ false
differ_key s t n = ground (arith, eq_iff s t, λ (e : s ≡ t). n (ap first e))

same_key :
    {k l : String} (p q : String)
    → IsKind k
    → IsKind l
    → str_eq (key_text k p) (key_text l q) ≡ (str_eq k l && str_eq p q)
same_key p q swarm swarm = same_project "Swarm" p q
same_key p q compose compose = same_project "Compose" p q
same_key p q neither neither = same_project "" p q
same_key p q swarm compose = differ_key _ _ (λ e. ground (arith, e, first_swarm p, first_compose q))
same_key p q swarm neither = differ_key _ _ (λ e. ground (arith, e, first_swarm p, first_neither q))
same_key p q compose swarm = differ_key _ _ (λ e. ground (arith, e, first_compose p, first_swarm q))
same_key p q compose neither =
    differ_key _ _ (λ e. ground (arith, e, first_compose p, first_neither q))
same_key p q neither swarm = differ_key _ _ (λ e. ground (arith, e, first_neither p, first_swarm q))
same_key p q neither compose =
    differ_key _ _ (λ e. ground (arith, e, first_neither p, first_compose q))

same_group :
    (c d : Container)
    → str_eq (key_of c) (key_of d)
      ≡ (str_eq (kind_of c) (kind_of d) && str_eq (project_of c) (project_of d))
unfolding key_of key_text
same_group c d = same_key (project_of c) (project_of d) (kind_of-IsKind c) (kind_of-IsKind d)

-- Before they are sorted, the groups have distinct keys, and the group of a container has exactly
-- the containers of the same kind and the same project, in their order; so a stack and a project
-- of one name are two groups. A container with a stack is of the kind Swarm and of that stack; one
-- with a project only is of the kind Compose and of that project.
pub group_containers_lem :
    (cs : List Container) (d : Container) (s : String)
    → Distinct (λ g. g.key) (group_containers (λ gs. gs) cs)
      × (in_group (key_of d) (group_containers (λ gs. gs) cs)
          ≡ filter (λ c. str_eq (kind_of c) (kind_of d) && str_eq (project_of c) (project_of d)) cs)
      × (is_empty (codes s) ≡ false → d.stack ≡ some s → (kind_of d ≡ "Swarm") × (project_of d ≡ s))
      × (is_empty (codes s) ≡ false
          → d.stack ≡ none
          → d.project ≡ some s
          → (kind_of d ≡ "Compose") × (project_of d ≡ s))
unfolding group_containers in_group kind_of project_of has_text text_of
group_containers_lem cs d s = (
  groups_from-Distinct [] cs tt,
  in_group-groups_from (key_of d) [] cs ∙ filter-ext _ _ cs (λ c. same_group c d),
  λ n e. rw (e, n) (refl, refl),
  λ n e f. rw (e, f, n) (refl, refl),
)
