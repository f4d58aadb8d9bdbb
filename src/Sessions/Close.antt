-- ===== src/Sessions/Close.antt =====
-- Closing a tab.
use condui.Prelude.{
  subst, String, true, some, ◌≡◌, inl, inr, arith, eq_iff, if◌then◌else◌, Bool-cases,
  Distinct-filter,
}
use condui.ConnectionForm.{ssh, vnc, novnc, rdp}
use condui.Sessions.{
  Seen, Kind, shell, remote, Call, close_session, close_vnc, close_rdp, close_answer, first_id, App,
  is_some_id, has_tab, without, drop_session,
}
use condui.Sessions.Valid.{
  IsValid, TerminalsAreValid, has_tab-without, has_tab-first, drop_session-terminals,
}

module _ (k : String) {s : App} (v : IsValid s) where
  close_active :
      (j : String)
      → (if is_some_id s.active k then first_id (without k s.tabs) else s.active) ≡ some j
      → has_tab j (without k s.tabs) ≡ true
  close_active j e = elim (Bool-cases (is_some_id s.active k)) [
    | inl y ↦ has_tab-first (without k s.tabs) j (rw y at e)
    | inr n ↦
        let e' : s.active ≡ some j = rw n at e in
        ground (arith, has_tab-without k j s.tabs, v.active j e', eq_iff j k, eq_iff k j)
  ]

  -- When the backend answers that a session is closed, and the tabs and the active tab are those
  -- of the render in which the tab was closed, whatever else changed meanwhile, the invariant is
  -- kept: ids stay distinct, and if a tab is active afterwards, it is an open one.
  pub close_answer-IsValid :
      (seen : Seen) → seen.tabs ≡ s.tabs → seen.active ≡ s.active → IsValid (close_answer seen k s)
  unfolding close_answer
  close_answer-IsValid seen t a = record {
    ids = Distinct-filter _ _ s.tabs v.ids;
    active = λ j e. close_active j (
        subst (λ ts. (if is_some_id s.active k then first_id (without k ts) else s.active) ≡ some j)
          t
          (subst
            (λ x. (if is_some_id x k then first_id (without k seen.tabs) else s.active) ≡ some j) a
            e));
    routed = terminals.routed;
    one_visible = terminals.one_visible;
  }
    where
      terminals : TerminalsAreValid (drop_session k s).terminals (drop_session k s).attached
      terminals =
          drop_session-terminals k s (record { routed = v.routed; one_visible = v.one_visible })

-- The call that ends the session of a tab of a kind.
abbrev pub IsCallOf : Kind → String → Call → Type 0
IsCallOf shell k c = c ≡ close_session k
IsCallOf (remote ssh) k c = c ≡ close_session k
IsCallOf (remote vnc) k c = c ≡ close_vnc k
IsCallOf (remote novnc) k c = c ≡ close_vnc k
IsCallOf (remote rdp) k c = c ≡ close_rdp k
