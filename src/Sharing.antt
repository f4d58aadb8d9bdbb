-- ===== src/Sharing.antt =====
-- What is shared with other users: the invitations and the synchronization of App.jsx, and the
-- dialog that shares a connection, components/account/ShareModal.jsx.
pub mod Invites
pub mod Sent
pub mod Sync
mod Tests
use condui.Prelude.{String, Option}

-- A share as the backend lists it, sent or received.
pub record Share : Type 0 where
  pub id : String
  pub status : String
  pub blob_id : Option String
  pub owner : Option String
  pub permissions : Option String

-- the answer to a call without a value
pub data Answer : Type 0 where
  done : Answer
  failed : String → Answer
