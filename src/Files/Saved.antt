-- ===== src/Files/Saved.antt =====
-- What the editor keeps of unsaved changes.
use condui.Prelude.{
  String, true, false, ◌&&◌, some, List, [], ◌∷◌, ◌≡◌, ◌⊎◌, inl, inr, refl, arith, str_eq, eq_iff,
  eq_refl, if_intro, lookup, insert, lookup-insert, ap, ◌∙◌,
}
use condui.Files.Edits.{Editor, edit, open_file, discard, written, saved, close_editor}

-- What may happen between a write and its answer, but another write.
pub data Act : Type 0 where
  edits : String → Act
  opens : String → String → Act
  closes : Act
  discards : Act
  answers : String → String → Act

unfoldable pub act : Act → Editor → Editor
act (edits text) e = edit text e
act (opens path text) e = open_file path text e
act closes e = close_editor e
act discards e = discard e
act (answers path text) e = saved path text e

unfoldable pub act_all : List Act → Editor → Editor
act_all [] e = e
act_all (a ∷ acts) e = act_all acts (act a e)

server-saved : (path text : String) (e : Editor) → (saved path text e).server ≡ e.server
unfolding saved
server-saved path text e =
    if_intro (λ (x : Editor). x.server ≡ e.server) (str_eq e.path path && str_eq e.content text)
      (λ _. refl) (λ _. refl)

server-act : (a : Act) (e : Editor) → (act a e).server ≡ e.server
unfolding act edit open_file close_editor discard
server-act (edits text) e = refl
server-act (opens path text) e = refl
server-act closes e =
    if_intro (λ (x : Editor). x.server ≡ e.server) e.modified (λ _. refl) (λ _. refl)
server-act discards e = refl
server-act (answers path text) e = server-saved path text e

server-act_all : (acts : List Act) (e : Editor) → (act_all acts e).server ≡ e.server
unfolding act_all
server-act_all [] e = refl
server-act_all (a ∷ acts) e = server-act_all acts (act a e) ∙ server-act a e

-- An answer says unmodified only for the text that was saved.
modified-saved :
    (path content : String) (e : Editor)
    → lookup path e.server ≡ some content
    → (saved path content e).modified ≡ false
    → (e.modified ≡ false) ⊎ (lookup e.path e.server ≡ some e.content)
unfolding saved
modified-saved path content e w =
    if_intro
      (λ (s : Editor).
        s.modified ≡ false → (e.modified ≡ false) ⊎ (lookup e.path e.server ≡ some e.content))
      (str_eq e.path path && str_eq e.content content) (λ y _. inr (same y)) (λ _ m. inl m)
  where
    same :
        (str_eq e.path path && str_eq e.content content) ≡ true
        → lookup e.path e.server ≡ some e.content
    same y =
        let p : e.path ≡ path = (eq_iff e.path path).0 (ground (arith, y)) in
        let c : e.content ≡ content = (eq_iff e.content content).0 (ground (arith, y)) in
        rw (p, c) w

keeps-saved :
    (path content : String) (e : Editor)
    → ((saved path content e).content ≡ e.content) × ((saved path content e).path ≡ e.path)
unfolding saved
keeps-saved path content e =
    if_intro (λ (s : Editor). (s.content ≡ e.content) × (s.path ≡ e.path))
      (str_eq e.path path && str_eq e.content content) (λ _. (refl, refl)) (λ _. (refl, refl))

-- A text is written, then the editor is used in any way and other saves are answered, but nothing
-- else is written, and then the save is answered: the answer changes nothing of the text that is
-- edited, and the editor counts as unmodified afterwards only if it did before, or if the file on
-- the server has the text that is edited. If an older text is written in between, the editor counts
-- as unmodified though the file has the older text. Closing an editor with changes keeps the text
-- and asks.
pub saved_lem :
    (path content older : String) (acts : List Act) (e : Editor)
    → let w = act_all acts (written path content e) in
      let s = saved path content w in
      ((s.content ≡ w.content) × (s.path ≡ w.path) × (s.server ≡ w.server))
      × (s.modified ≡ false → (w.modified ≡ false) ⊎ (lookup w.path s.server ≡ some w.content))
      × (let l = saved e.path e.content (written e.path older (written e.path e.content e)) in
          (l.modified ≡ false) × (l.content ≡ e.content) × (lookup e.path l.server ≡ some older))
      × (e.modified ≡ true
          → ((close_editor e).content ≡ e.content)
            × ((close_editor e).modified ≡ true)
            × ((close_editor e).asks ≡ true))
saved_lem path content older acts e =
    let w = act_all acts (written path content e) in
    let kept : w.server ≡ insert path content e.server =
      server-act_all acts (written path content e) ∙ (unfold written in refl) in
    let there : lookup path w.server ≡ some content =
      ap (lookup path) kept ∙ lookup-insert path path content e.server ∙ rw (eq_refl path) refl in
    (
      ((keeps-saved path content w).0, (keeps-saved path content w).1, server-saved path content w),
      λ m. rw (server-saved path content w) (modified-saved path content w there m),
      late,
      λ m. unfold close_editor in rw m (refl, refl, refl),
    )
  where
    late :
        let l = saved e.path e.content (written e.path older (written e.path e.content e)) in
        (l.modified ≡ false) × (l.content ≡ e.content) × (lookup e.path l.server ≡ some older)
    late =
        unfold saved written in
        rw (eq_refl e.path, eq_refl e.content)
          (
            refl,
            refl,
            lookup-insert e.path e.path older (insert e.path e.content e.server)
                ∙ rw (eq_refl e.path) refl,
          )
