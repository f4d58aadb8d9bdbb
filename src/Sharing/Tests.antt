-- ===== src/Sharing/Tests.antt =====
-- Runs of the dialogs of sharing, and the theorems at concrete shares.
use condui.Prelude.{
  filter, not, ◌==◌, true, false, none, some, [], ◌∷◌, ◌≡◌, ◌&&◌, refl, any, str_eq,
}
use condui.Prelude.Text.{codes, trim}
use condui.Sharing.{Share, done, failed}
use condui.Sharing.Sent.{
  names, Sent, share_connection, share, shared, share_ended, loaded, share_lem,
}
use condui.Sharing.Invites.{Invites}

abbrev web : Share
web = record {
  id = "s1";
  status = "pending";
  blob_id = some "conn-c1";
  owner = some "a@b";
  permissions = none;
}

abbrev mail : Share
mail = record {
  id = "s2";
  status = "revoked";
  blob_id = some "conn-c1";
  owner = none;
  permissions = none;
}

abbrev invites : Invites
invites = record {
  pending = web ∷ [];
  accepting = none;
  decline_target = none;
  expanded = [];
  alert = none;
}

abbrev sent : Sent
sent = record {
  email = codes " a@b ";
  read_only = true;
  include_password = false;
  loading = false;
  sent_loading = false;
  cancelling_id = "";
  error = none;
  sent_shares = [];
  cancel_target = none;
}

share_run : (share (λ s. s) sent).1 ≡ some (share_connection (codes "a@b") true false)
unfolding share trim
share_run = refl

share_lem_example :
    let target = trim sent.email in
    (any (λ k. k == b'@') target ≡ true
      → share (λ s. s) sent
        ≡ (record sent { error = none; loading = true }, some (share_connection target true false)))
    × (any (λ k. k == b'@') target ≡ false
        → share (λ s. s) sent ≡ (record sent { error = some "share.invalidEmail" }, none))
    × (let f = share_ended (shared (failed "down") sent) in
        (f.error ≡ some "down") × (f.email ≡ sent.email) × (f.loading ≡ false))
    × (let s = share_ended (loaded "c1" (some (web ∷ mail ∷ [])) (shared done sent)) in
        (s.email ≡ [])
        × (s.loading ≡ false)
        × (s.sent_loading ≡ false)
        × (s.sent_shares
            ≡ filter
                (λ x. not (str_eq x.status "revoked") && names "c1" x.blob_id)
                (web ∷ mail ∷ [])))
share_lem_example = share_lem (λ s. s) "c1" sent "down" (web ∷ mail ∷ [])
