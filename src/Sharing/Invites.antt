-- ===== src/Sharing/Invites.antt =====
-- The invitations of App.jsx: their list, and accepting or declining one.
use condui.Prelude.{
  ◌∙◌, ◌||◌, String, Bool, true, false, ◌≡◌, Option, none, some, List, [], ◌∷◌, ◌++◌, ◌&&◌, refl,
  str_eq, filter, any, map, if◌then◌else◌, any-filter, eq_refl, ap,
}
use condui.Sharing.{Share, Answer, done, failed}

pub record Invites : Type 0 where
  pub pending : List Share
  pub accepting : Option String
  pub decline_target : Option Share
  pub expanded : List String
  pub alert : Option String

is_pending : Share → Bool
is_pending s = str_eq s.status "pending"

-- `GetIncomingShares`: shares, no value, or an error
pub data Incoming : Type 0 where
  shares : List Share → Incoming
  no_value : Incoming
  error : Incoming

listed : List Share → Invites → Invites × Option (List String)
unfolding is_pending
listed ss i = (record i { pending = filter is_pending ss }, some (map (λ s. s.id) ss))

-- `refreshPendingInvites` with what the backend lists: the ids of the shares by which the imported
-- connections are reconciled, and none if it was not asked.
pub refresh : Bool → Incoming → Invites → Invites × Option (List String)
unfolding listed
refresh false a i = (record i { pending = [] }, none)
refresh true (shares ss) i = listed ss i
refresh true no_value i = listed [] i
refresh true error i = (i, none)

expand : List String → List String
expand es =
    if any (λ e. str_eq e "__pending_invites") es then es else es ++ "__pending_invites" ∷ []

-- `handleAcceptInvite` up to its await, and its end; a failure may be of any of its calls.
pub accept : Share → Invites → Invites
accept s i = record i { accepting = some s.id }

pub accepted : Answer → Invites → Invites
unfolding expand
accepted done i = record i { expanded = expand i.expanded; accepting = none }
accepted (failed m) i = record i { alert = some m; accepting = none }

-- `handleDeclineInvite`
pub decline : Share → Invites → Invites
decline s i = record i { decline_target = some s }

decline_on : Option Share → Invites → Invites × Option String
decline_on none i = (i, none)
decline_on (some s) i = (record i { decline_target = none; accepting = some s.id }, some s.id)

-- `confirmDeclineInvite` up to its await: the share that is cancelled, and its end
pub confirm_decline : Invites → Invites × Option String
unfolding decline_on
confirm_decline i = decline_on i.decline_target i

pub declined : Answer → Invites → Invites
declined done i = record i { accepting = none }
declined (failed m) i = record i { alert = some m; accepting = none }

-- Whether the buttons of an invitation are disabled, in `PendingInviteNode`.
pub is_accepting : Share → Invites → Bool
is_accepting s i = elim i.accepting [ none ↦ false | some id ↦ str_eq id s.id ]

some_inj : {a b : List String} → some a ≡ some b → b ≡ a
some_inj e = cc

any-ids :
    (id : String) (ss : List Share)
    → any (λ k. str_eq k id) (map (λ s. s.id) ss) ≡ any (λ s. str_eq s.id id) ss
any-ids id [] = refl
any-ids id (s ∷ ss) = ap (str_eq s.id id ||◌) (any-ids id ss)

-- Of what the backend lists exactly the pending shares become invitations, and every share that it
-- lists, pending or not, is named as one that is still there. An error changes nothing, and
-- without an account there is no invitation and nothing is reconciled.
pub refresh_lem :
    (ss : List Share) (i : Invites) (p : Share → Bool) (id : String)
    → (any p (refresh true (shares ss) i).0.pending
        ≡ any (λ s. str_eq s.status "pending" && p s) ss)
      × ((ids : List String)
          → (refresh true (shares ss) i).1 ≡ some ids
          → any (λ k. str_eq k id) ids ≡ any (λ s. str_eq s.id id) ss)
      × (refresh true error i ≡ (i, none))
      × (refresh false (shares ss) i ≡ (record i { pending = [] }, none))
unfolding refresh listed is_pending
refresh_lem ss i p id = (
  any-filter p _ ss,
  λ ids e. ap (any (λ k. str_eq k id)) (some_inj e) ∙ any-ids id ss,
  refl,
  refl,
)

-- One field says which invitation is on its way, so a second one hides the first: the buttons of
-- the first work again while it is on its way, and when it ends those of the second do too.
pub accept_twice :
    (s u : Share) (i : Invites)
    → str_eq u.id s.id ≡ false
    → (is_accepting s (accept s i) ≡ true)
      × (is_accepting s (accept u (accept s i)) ≡ false)
      × (is_accepting u (accepted done (accept u (accept s i))) ≡ false)
unfolding is_accepting accept accepted
accept_twice s u i h = (eq_refl s.id, h, refl)
