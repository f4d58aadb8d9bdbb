-- ===== src/Sidebar/Menu/Clicks.antt =====
-- What the clicks of a row can open.
use condui.Prelude.{
  concat, append_assoc, append-nil, append_assoc, append-nil, Bool, true, false, not, ◌||◌, ◌&&◌,
  Option, none, some, List, [], ◌∷◌, ◌++◌, ◌≡◌, refl, if◌then◌else◌, any, any-append, arith, sym,
  ap, ◌∙◌, if_intro,
}
use condui.Prelude.Text.{is_empty}
use condui.ConnectionForm.{Protocol, ssh, vnc, novnc, rdp, protocols, has_ssh, has_access}
use condui.Sidebar.{Connection, Folder}
use condui.Sidebar.Via.{Item, targets}
use condui.Sidebar.Menu.{
  menu_blocks, Action, open_protocol, open_new, open_default, unlock, edit, share, delete, Entry,
  divider, choice, submenu, Row, connect, protocol_entries, new_session, via_items, when,
  menu_items, vias, entry_actions, actions, protocol_button, opens, same_protocol, opens_with,
}

actions-append : (es gs : List Entry) → actions (es ++ gs) ≡ actions es ++ actions gs
unfolding actions
actions-append [] gs = refl
actions-append (e ∷ es) gs =
    ap (entry_actions e ++◌) (actions-append es gs)
    ∙ sym (append_assoc (entry_actions e) (actions es) (actions gs))

any-vias : (p : Protocol) (cs : List Connection) → any (opens_with p) (vias cs) ≡ false
unfolding vias opens_with
any-vias p [] = refl
any-vias p (c ∷ cs) = any-vias p cs

any-protocol_entries :
    (p : Protocol) (r : Row) (ps : List Protocol)
    → any (opens_with p) (actions (protocol_entries r ps))
      ≡ any
          (λ q.
            has_access r.connection.access q
            && not (r.connection.share_revoked || r.connecting_protocol q)
            && same_protocol q p)
          ps
unfolding protocol_entries actions entry_actions opens_with
any-protocol_entries p r [] = refl
any-protocol_entries p r (q ∷ ps) =
    if_intro
      (λ es. any (opens_with p) (actions es) ≡ (
        has_access r.connection.access q
          && not (r.connection.share_revoked || r.connecting_protocol q)
          && same_protocol q p
        || any
            (λ x.
              has_access r.connection.access x
              && not (r.connection.share_revoked || r.connecting_protocol x)
              && same_protocol x p)
            ps))
      (has_access r.connection.access q)
      (λ h. rw h (
        one_choice (r.connection.share_revoked || r.connecting_protocol q) (protocol_entries r ps) _
          (any-protocol_entries p r ps)))
      (λ h. rw h (any-protocol_entries p r ps))
  where
    one_choice :
        (b : Bool) (es : List Entry) (c : Bool)
        → any (opens_with p) (actions es) ≡ c
        → any (opens_with p) (entry_actions (choice b (some (open_protocol q))) ++ actions es)
          ≡ (not b && same_protocol q p || c)
    one_choice true es c h = h
    one_choice false es c h = rw h refl

-- A revoked connection's protocols open nothing.
any-revoked :
    (r : Row) (ps : List Protocol)
    → r.connection.share_revoked ≡ true
    → any opens (actions (protocol_entries r ps)) ≡ false
unfolding protocol_entries actions
any-revoked r [] h = refl
any-revoked r (p ∷ ps) h =
    if_intro (λ es. any opens (actions es) ≡ false) (has_access r.connection.access p)
      (λ _. rw h (any-revoked r ps h)) (λ _. any-revoked r ps h)

any-when :
    (q : Action → Bool) (b : Bool) (es : List Entry)
    → any q (actions (when b es)) ≡ (b && any q (actions es))
unfolding when actions
any-when q true es = refl
any-when q false es = refl

or_false : (b : Bool) → (b || false) ≡ b
or_false true = refl
or_false false = refl

any-submenu :
    (q : Action → Bool) (is : List Item)
    → any q (actions (when (not (is_empty is)) (divider ∷ submenu is ∷ [])))
      ≡ any q (vias (targets is))
unfolding when actions entry_actions vias targets
any-submenu q [] = refl
any-submenu q (i ∷ is) = ap (any q) (append-nil (vias (targets (i ∷ is))))

any-actions :
    (q : Action → Bool) (es gs : List Entry)
    → any q (actions (es ++ gs)) ≡ (any q (actions es) || any q (actions gs))
any-actions q es gs = ap (any q) (actions-append es gs) ∙ any-append q (actions es) (actions gs)

any-concat :
    (q : Action → Bool) (ess : List (List Entry))
    → any q (actions (concat ess)) ≡ any (λ es. any q (actions es)) ess
unfolding actions
any-concat q [] = refl
any-concat q (es ∷ ess) =
    any-actions q es (concat ess) ∙ ap (any q (actions es) ||◌) (any-concat q ess)

one_entry : (q : Action → Bool) (e : Entry) → any q (actions (e ∷ [])) ≡ any q (entry_actions e)
unfolding actions
one_entry q e = ap (any q) (append-nil (entry_actions e))

or_parts :
    (a b c w v : Bool) {u e s d : Bool}
    → u ≡ false
    → e ≡ false
    → s ≡ false
    → d ≡ false
    → (a || (b || ((w && u) || (e || ((v && s) || (c || (d || false))))))) ≡ (a || (b || c))
or_parts a b c w v h k l m = ground arith

-- One entry that a click of the menu can do if it is there.
any-plain : (q : Action → Bool) (a : Action) → any q (actions (choice false (some a) ∷ [])) ≡ q a
unfolding actions entry_actions
any-plain q a = or_false (q a)

any-divided :
    (q : Action → Bool) (a : Action) → any q (actions (divider ∷ choice false (some a) ∷ [])) ≡ q a
unfolding actions entry_actions
any-divided q a = or_false (q a)

-- What the menu can do besides unlocking, editing, sharing and deleting comes from its protocols,
-- the new session or the submenu.
any-menu_items :
    (q : Action → Bool) (r : Row) (cs : List Connection) (fs : List Folder)
    → q unlock ≡ false
    → q edit ≡ false
    → q share ≡ false
    → q delete ≡ false
    → any q (actions (menu_items r cs fs)) ≡ (
        any q (actions (protocol_entries r protocols))
        || (any q (entry_actions (choice r.connection.share_revoked (new_session r)))
            || any q (vias (targets (via_items r cs fs)))))
unfolding menu_items menu_blocks
any-menu_items q r cs fs u e s d =
    any-concat q (menu_blocks r cs fs)
    ∙ rw
        (
          one_entry q (choice r.connection.share_revoked (new_session r)),
          any-when q r.connection.password_pending (choice false (some unlock) ∷ []),
          any-when q (r.can_share && has_ssh r.connection.access) (choice false (some share) ∷ []),
          any-submenu q (via_items r cs fs),
          any-plain q unlock,
          any-plain q share,
          any-divided q edit,
          any-divided q delete,
        )
        (or_parts _ _ _ r.connection.password_pending (r.can_share && has_ssh r.connection.access) u
          e s d)

not_both : (a b : Bool) → b ≡ true → (not a && not b) ≡ false
not_both a b h = ground arith

any-protocols :
    (f : Protocol → Bool) (p : Protocol) → any (λ q. f q && same_protocol q p) protocols ≡ f p
any-protocols f ssh = ground arith
any-protocols f vnc = ground arith
any-protocols f novnc = ground arith
any-protocols f rdp = ground arith

any-new_session :
    (p : Protocol) (r : Row)
    → any (opens_with p) (entry_actions (choice r.connection.share_revoked (new_session r))) ≡ false
unfolding new_session entry_actions opens_with
any-new_session p r =
    new_one r.connection.share_revoked (not r.connecting && not r.connection.share_revoked)
  where
    new_one :
        (b c : Bool)
        → any (opens_with p) (entry_actions (choice b (if c then some open_new else none))) ≡ false
    new_one true c = refl
    new_one false true = refl
    new_one false false = refl

any-disabled :
    (b : Bool) (a : Option Action) → b ≡ true → any opens (entry_actions (choice b a)) ≡ false
unfolding entry_actions
any-disabled b a h = rw h refl

opens-vias : (cs : List Connection) → any opens (vias cs) ≡ not (is_empty cs)
unfolding vias opens
opens-vias [] = refl
opens-vias (c ∷ cs) = refl

-- The menu opens a protocol exactly if the connection offers it, was not revoked, and is not
-- connecting over it. Of a connection that was revoked nothing opens, neither by a click of the
-- row nor of a button, and in the menu nothing but the submenu's ways, which are not disabled.
pub menu_items_lem :
    (r : Row) (cs : List Connection) (fs : List Folder) (p : Protocol)
    → (any (opens_with p) (actions (menu_items r cs fs)) ≡ (
        has_access r.connection.access p
        && not (r.connection.share_revoked || r.connecting_protocol p)))
      × (r.connection.share_revoked ≡ true
          → (connect r ≡ none)
            × (protocol_button r p ≡ none)
            × (any opens (actions (menu_items r cs fs))
                ≡ not (is_empty (targets (via_items r cs fs)))))
unfolding connect protocol_button opens_with opens
menu_items_lem r cs fs p = (
  any-menu_items (opens_with p) r cs fs refl refl refl refl
      ∙ rw
          (
            any-protocol_entries p r protocols,
            any-vias p (targets (via_items r cs fs)),
            any-new_session p r,
          )
          (or_false _
            ∙ any-protocols
                (λ q.
                  has_access r.connection.access q
                  && not (r.connection.share_revoked || r.connecting_protocol q))
                p),
  λ h. (
    ap (λ b. if b then some open_default else none) (not_both r.connecting _ h),
    rw h refl,
    any-menu_items opens r cs fs refl refl refl refl
        ∙ rw (any-revoked r protocols h, any-disabled _ (new_session r) h)
            (opens-vias (targets (via_items r cs fs))),
  ),
)
