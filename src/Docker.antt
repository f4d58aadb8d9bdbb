-- ===== src/Docker.antt =====
-- The explorer of containers: components/docker/DockerExplorer.jsx, explorerData.js and its views.
pub mod Groups
pub mod Selection
pub mod Changes
mod Tests
use condui.Prelude.{String, Bool, Option, List}

-- A container, with the labels of a stack and of a project, and the volumes that it mounts.
pub record Container : Type 0 where
  pub id : String
  pub name : String
  pub image : String
  pub stack : Option String
  pub project : Option String
  pub running : Bool
  pub volumes : List String

pub record Image : Type 0 where
  pub id : String
  pub tags : List String

pub record Volume : Type 0 where
  pub name : String
