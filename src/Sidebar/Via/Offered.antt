-- ===== src/Sidebar/Via/Offered.antt =====
-- Which connections the submenu offers.
use condui.Prelude.{
  any_ext, any_or, any-false, subst, ◌⊎◌, inl, inr, Bool-cases, String, Bool, true, false, not,
  ◌||◌, ◌&&◌, none, some, List, [], ◌∷◌, ◌++◌, ◌≡◌, refl, str_eq, if◌then◌else◌, filter, any,
  any-append, append-nil, if_intro, any-filter, arith, eq_iff, ◌∙◌, sym, ap,
}
use condui.Prelude.Text.{is_empty}
use condui.ConnectionForm.{has_ssh}
use condui.Sidebar.{Connection, Folder, is_ungrouped, is_in}
use condui.Sidebar.Via.{
  Item, header, divider, entry, others, entries, folder_items, in_folder, includes_id, separated,
  left_over, build_via_submenu, targets, offered,
}

targets-append : (is js : List Item) → targets (is ++ js) ≡ targets is ++ targets js
unfolding targets
targets-append [] js = refl
targets-append (header s ∷ is) js = targets-append is js
targets-append (divider ∷ is) js = targets-append is js
targets-append (entry c ∷ is) js = ap (c ∷◌) (targets-append is js)

targets-entries : (cs : List Connection) → targets (entries cs) ≡ cs
unfolding targets entries
targets-entries [] = refl
targets-entries (c ∷ cs) = ap (c ∷◌) (targets-entries cs)

nil_of_empty : {A : Type 0} (xs : List A) → is_empty xs ≡ true → xs ≡ []
nil_of_empty [] h = refl
nil_of_empty (x ∷ xs) h = cc

targets-folder_items :
    (cs : List Connection) (fs : List Folder) → targets (folder_items cs fs) ≡ in_folder cs fs
unfolding folder_items in_folder targets
targets-folder_items cs [] = refl
targets-folder_items cs (f ∷ fs) =
    if_intro (λ is. targets is ≡ filter (is_in f) cs ++ in_folder cs fs)
      (is_empty (filter (is_in f) cs))
      (λ e. rw (nil_of_empty (filter (is_in f) cs) e) (targets-folder_items cs fs))
      (λ _.
        rw
          (
            targets-append (entries (filter (is_in f) cs)) (folder_items cs fs),
            targets-entries (filter (is_in f) cs),
            targets-folder_items cs fs,
          )
          refl)

targets-divider : (is : List Item) → targets (is ++ divider ∷ []) ≡ targets is
unfolding targets
targets-divider [] = refl
targets-divider (header s ∷ is) = targets-divider is
targets-divider (divider ∷ is) = targets-divider is
targets-divider (entry c ∷ is) = ap (c ∷◌) (targets-divider is)

targets-separated : (is : List Item) → targets (separated is) ≡ targets is
unfolding separated
targets-separated [] = refl
targets-separated (i ∷ is) = targets-divider (i ∷ is)

in_folder_empty : (fs : List Folder) → in_folder [] fs ≡ []
unfolding in_folder
in_folder_empty [] = refl
in_folder_empty (f ∷ fs) = in_folder_empty fs

none_left : (fs : List Folder) → [] ≡ in_folder [] fs ++ left_over [] fs
unfolding left_over
none_left fs = rw (in_folder_empty fs) refl

-- What the submenu offers: the connections of the folders, and then the others.
offered-build_via_submenu :
    (c : Connection) (cs : List Connection) (fs : List Folder)
    → offered (build_via_submenu c cs fs) ≡ in_folder (others c cs) fs ++ left_over (others c cs) fs
unfolding offered build_via_submenu
offered-build_via_submenu c cs fs =
    if_intro (λ o. offered o ≡ in_folder (others c cs) fs ++ left_over (others c cs) fs)
      (is_empty (others c cs)) (λ e. rw (nil_of_empty (others c cs) e) (none_left fs))
      (λ _.
        if_intro (λ o. offered o ≡ in_folder (others c cs) fs ++ left_over (others c cs) fs)
          (is_empty (left_over (others c cs) fs))
          (λ e.
            rw
              (
                nil_of_empty (left_over (others c cs) fs) e,
                targets-folder_items (others c cs) fs,
                append-nil (in_folder (others c cs) fs),
              )
              refl)
          (λ _.
            rw
              (
                targets-append (separated (folder_items (others c cs) fs))
                    (entries (left_over (others c cs) fs)),
                targets-separated (folder_items (others c cs) fs),
                targets-folder_items (others c cs) fs,
                targets-entries (left_over (others c cs) fs),
              )
              refl))

pub distribute : (a b c : Bool) → (a && c || b && c) ≡ ((a || b) && c)
distribute a b c = ground arith

-- What the folders list is what is in one of them.
pub any-in_folder :
    (p : Connection → Bool) (cs : List Connection) (fs : List Folder)
    → any p (in_folder cs fs) ≡ any (λ d. any (λ f. is_in f d) fs && p d) cs
unfolding in_folder
any-in_folder p cs [] = sym (any-false cs)
any-in_folder p cs (f ∷ fs) =
    any-append p (filter (is_in f) cs) (in_folder cs fs)
    ∙ rw (any-filter p (is_in f) cs, any-in_folder p cs fs)
        (sym (any_or _ _ cs)
          ∙ any_ext _ _ cs (λ d. distribute (is_in f d) (any (λ g. is_in g d) fs) (p d)))

eq_of_ids : (a b : String) → str_eq a b ≡ true → a ≡ b
eq_of_ids a b h = ground (arith, eq_iff a b)

or_false : (b : Bool) → b ≡ (b || false)
or_false true = refl
or_false false = refl

-- One id in what the folders leave over: what is listed there already is left out.
any-left_over :
    (i : String) (cs : List Connection) (fs : List Folder)
    → any (λ d. str_eq d.id i) (in_folder cs fs) ≡ false
    → any (λ d. str_eq d.id i) (left_over cs fs) ≡ any (λ d. is_ungrouped d && str_eq d.id i) cs
unfolding left_over includes_id
any-left_over i cs fs h =
    any-filter (λ d. str_eq d.id i) _ cs
    ∙ any_ext _ _ cs (λ d. drop_id d (Bool-cases (str_eq d.id i)))
  where
    drop_id :
        (d : Connection)
        → (str_eq d.id i ≡ true) ⊎ (str_eq d.id i ≡ false)
        → (is_ungrouped d && not (any (λ e. str_eq e.id d.id) (in_folder cs fs)) && str_eq d.id i)
          ≡ (is_ungrouped d && str_eq d.id i)
    drop_id d (inl e) = ground (
      arith,
      e,
      subst (λ k. any (λ x. str_eq x.id k) (in_folder cs fs) ≡ false) (sym (eq_of_ids d.id i e)) h,
    )
    drop_id d (inr e) = ground (arith, e)

or_swap : (a l u : Bool) → (a ≡ false → l ≡ u) → (a || l) ≡ (u || a)
or_swap true l true h = refl
or_swap true l false h = refl
or_swap false l u h = h refl ∙ or_false u

-- What is listed, by id: what has no folder or a folder that there is.
any-listed :
    (i : String) (cs : List Connection) (fs : List Folder)
    → any (λ d. str_eq d.id i) (in_folder cs fs ++ left_over cs fs)
      ≡ any (λ d. (is_ungrouped d || any (λ f. is_in f d) fs) && str_eq d.id i) cs
any-listed i cs fs =
    any-append (λ d. str_eq d.id i) (in_folder cs fs) (left_over cs fs)
    ∙ or_swap _ _ _ (any-left_over i cs fs)
    ∙ ap (any (λ d. is_ungrouped d && str_eq d.id i) cs ||◌)
        (any-in_folder (λ d. str_eq d.id i) cs fs)
    ∙ sym (any_or _ _ cs)
    ∙ any_ext _ _ cs (λ d. distribute (is_ungrouped d) (any (λ f. is_in f d) fs) (str_eq d.id i))

any-others :
    (p : Connection → Bool) (c : Connection) (cs : List Connection)
    → any p (others c cs) ≡ any (λ d. (not (str_eq d.id c.id) && has_ssh d.access) && p d) cs
unfolding others
any-others p c cs = any-filter p _ cs

reorder : (a b c d : Bool) → ((a && b) && (c && d)) ≡ (c && a && b && d)
reorder a b c d = ground arith

null_of :
    (a b : Bool) (x y : List Item)
    → (if a then none else if b then some x else some y) ≡ none
    → a ≡ true
null_of true b x y h = refl
null_of false true x y h = cc
null_of false false x y h = cc

-- "Connect via" offers exactly the other connections with SSH that have no folder, or one of the
-- folders that there are; it is missing if there is no other connection with SSH.
pub offered_lem :
    (c : Connection) (cs : List Connection) (fs : List Folder) (i : String)
    → (any (λ d. str_eq d.id i) (offered (build_via_submenu c cs fs))
        ≡ any
            (λ d.
              (is_ungrouped d || any (λ f. is_in f d) fs)
              && not (str_eq d.id c.id)
              && has_ssh d.access
              && str_eq d.id i)
            cs)
      × (build_via_submenu c cs fs ≡ none → is_empty (others c cs) ≡ true)
unfolding build_via_submenu
offered_lem c cs fs i = (
  ap (any (λ d. str_eq d.id i)) (offered-build_via_submenu c cs fs)
      ∙ any-listed i (others c cs) fs
      ∙ any-others (λ d. (is_ungrouped d || any (λ f. is_in f d) fs) && str_eq d.id i) c cs
      ∙ any_ext _ _ cs (λ d.
        reorder (not (str_eq d.id c.id)) (has_ssh d.access)
          (is_ungrouped d || any (λ f. is_in f d) fs) (str_eq d.id i)),
  null_of _ _ _ _,
)
