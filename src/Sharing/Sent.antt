-- ===== src/Sharing/Sent.antt =====
-- The dialog that shares a connection: components/account/ShareModal.jsx.
use condui.Prelude.{
  ap, filter-ext, ℕ, String, Bool, true, false, not, ◌≡◌, Option, none, some, List, [], ◌&&◌, ◌==◌,
  refl, str_eq, filter, any,
}
use condui.Prelude.Text.{codes, trim, includes_text}
use condui.Sharing.{Share, Answer, done, failed}

-- The state; an address is a list of code points.
pub record Sent : Type 0 where
  pub email : List ℕ
  pub read_only : Bool
  pub include_password : Bool
  pub loading : Bool
  pub sent_loading : Bool
  pub cancelling_id : String
  pub error : Option String
  pub sent_shares : List Share
  pub cancel_target : Option Share

-- what the backend is asked to do, about the connection of the dialog
pub data Call : Type 0 where
  share_connection : List ℕ → Bool → Bool → Call
  cancel_share : String → Call

has_blob : String → Option String → Bool
has_blob connection none = false
has_blob connection (some b) = includes_text (codes connection) (codes b)

pub is_own : String → Share → Bool
unfolding has_blob
is_own connection s = not (str_eq s.status "revoked") && has_blob connection s.blob_id

-- `loadSentShares` up to its await, and its end; `none` is an answer that failed
pub load : Sent → Sent
load d = record d { sent_loading = true }

pub loaded : String → Option (List Share) → Sent → Sent
unfolding is_own
loaded connection none d = record d { sent_loading = false }
loaded connection (some ss) d = record d {
  sent_shares = filter (is_own connection) ss;
  sent_loading = false;
}

share_to : Bool → List ℕ → Sent → Sent × Option Call
share_to true target d = (
  record d { error = none; loading = true },
  some (share_connection target d.read_only d.include_password),
)
share_to false target d = (record d { error = some "share.invalidEmail" }, none)

-- `handleShare` up to its await
unfoldable pub share : (List ℕ → List ℕ) → Sent → Sent × Option Call
unfolding trim share_to
share lower_case d =
    let target = lower_case (trim d.email) in share_to (any (λ c. c == b'@') target) target d

-- Its answer: the shares are loaded before the dialog is ready again.
pub shared : Answer → Sent → Sent
unfolding load
shared done d = load (record d { email = [] })
shared (failed m) d = record d { error = some m; loading = false }

pub share_ended : Sent → Sent
share_ended d = record d { loading = false }

cancel_on : Option Share → Sent → Sent × Option Call
cancel_on none d = (d, none)
cancel_on (some s) d = (
  record d { cancel_target = none; cancelling_id = s.id; error = none },
  some (cancel_share s.id),
)

-- `confirmCancel` and `handleCancel` up to the await, and the answer
pub confirm_cancel : Sent → Sent × Option Call
unfolding cancel_on
confirm_cancel d = cancel_on d.cancel_target d

pub cancelled : Answer → Sent → Sent
unfolding load
cancelled done d = load d
cancelled (failed m) d = record d { error = some m; cancelling_id = "" }

pub cancel_ended : Sent → Sent
cancel_ended d = record d { cancelling_id = "" }

-- the connection's id is in the id of the shared copy
abbrev pub names : String → Option String → Bool
names connection none = false
names connection (some b) = includes_text (codes connection) (codes b)

is_own_lem :
    (connection : String) (s : Share)
    → is_own connection s ≡ (not (str_eq s.status "revoked") && names connection s.blob_id)
unfolding is_own has_blob
is_own_lem connection s = ap (not (str_eq s.status "revoked") &&◌) (same s.blob_id)
  where
    same : (o : Option String) → has_blob connection o ≡ names connection o
    same none = refl
    same (some b) = refl

-- A connection is shared exactly with an address that has an @, without the space around it and in
-- lower case, with the permissions that are shown; with another one the dialog only says so. An
-- error is shown, keeps the address and makes the dialog ready again. A success clears the address,
-- and the list that is loaded then has, in their order, exactly the shares that are not revoked
-- and whose copy has the connection's id in its own.
pub share_lem :
    (lower_case : List ℕ → List ℕ) (connection : String) (d : Sent) (m : String) (ss : List Share)
    → let target = lower_case (trim d.email) in
      (any (λ k. k == b'@') target ≡ true
        → share lower_case d ≡ (
          record d { error = none; loading = true },
          some (share_connection target d.read_only d.include_password),
        ))
      × (any (λ k. k == b'@') target ≡ false
          → share lower_case d ≡ (record d { error = some "share.invalidEmail" }, none))
      × (let f = share_ended (shared (failed m) d) in
          (f.error ≡ some m) × (f.email ≡ d.email) × (f.loading ≡ false))
      × (let s = share_ended (loaded connection (some ss) (shared done d)) in
          (s.email ≡ [])
          × (s.loading ≡ false)
          × (s.sent_loading ≡ false)
          × (s.sent_shares
              ≡ filter (λ x. not (str_eq x.status "revoked") && names connection x.blob_id) ss))
unfolding share share_to shared share_ended loaded load
share_lem lower_case connection d m ss = (
  λ h. rw h refl,
  λ h. rw h refl,
  (refl, refl, refl),
  (refl, refl, refl, filter-ext _ _ ss (is_own_lem connection)),
)
