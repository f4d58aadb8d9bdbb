-- ===== src/Docker/Tests.antt =====
-- Runs of the explorer of containers, and the theorems at concrete containers.
use condui.Prelude.{
  any, true, false, not, none, some, [], ◌∷◌, ◌++◌, ◌≡◌, ◌≤◌, ◌&&◌, refl, str_eq, filter, Distinct,
  All, if◌then◌else◌,
}
use condui.Prelude.Text.{codes, is_empty}
use condui.Docker.{Container, Image, Volume}
use condui.Docker.Groups.{
  kind_of, project_of, key_of, group_containers, in_group, group_containers_lem,
}
use condui.Docker.Selection.{
  all_of, has, toggle, toggle_all, selected_images, selected_volumes, toggle_all_lem,
}
use condui.Docker.Changes.{
  Snapshot, data_of, errors, Explorer, World, success, IsExclusive, here, next, refreshes, refresh,
  mutate, ended, delete_volumes, failed, Reach-IsExclusive,
}

abbrev web : Container
web = record {
  id = "c1";
  name = "web";
  image = "i1";
  stack = none;
  project = some "shop";
  running = true;
  volumes = "v1" ∷ [];
}

abbrev db : Container
db = record {
  id = "c2";
  name = "db";
  image = "i2";
  stack = none;
  project = some "shop";
  running = false;
  volumes = [];
}

abbrev nginx : Image
nginx = record { id = "i1"; tags = "nginx" ∷ [] }

abbrev logs : Volume
logs = record { name = "v2" }

group_containers_lem_example :
    Distinct (λ g. g.key) (group_containers (λ gs. gs) (web ∷ db ∷ []))
    × (in_group (key_of web) (group_containers (λ gs. gs) (web ∷ db ∷ []))
        ≡ filter
            (λ c. str_eq (kind_of c) (kind_of web) && str_eq (project_of c) (project_of web))
            (web ∷ db ∷ []))
    × (is_empty (codes "shop") ≡ false
        → web.stack ≡ some "shop"
        → (kind_of web ≡ "Swarm") × (project_of web ≡ "shop"))
    × (is_empty (codes "shop") ≡ false
        → web.stack ≡ none
        → web.project ≡ some "shop"
        → (kind_of web ≡ "Compose") × (project_of web ≡ "shop"))
group_containers_lem_example = group_containers_lem (web ∷ db ∷ []) web "shop"

toggle_all_lem_example :
    (has "v2" (toggle_all ("v2" ∷ []) ("v9" ∷ [])) ≡ (
      if has "v2" ("v2" ∷ [])
      then not (all_of (λ k. has k ("v9" ∷ [])) ("v2" ∷ []))
      else has "v2" ("v9" ∷ [])))
    × (has "v2" (toggle "v9" ("v9" ∷ []))
        ≡ (if str_eq "v9" "v2" then not (has "v2" ("v9" ∷ [])) else has "v2" ("v9" ∷ [])))
    × All
        (λ m. (has m.id ("v9" ∷ []) ≡ true) × All (λ c. str_eq c.image m.id ≡ false) (web ∷ []))
        (selected_images (web ∷ []) (nginx ∷ []) ("v9" ∷ []))
    × All
        (λ v.
          (has v.name ("v9" ∷ []) ≡ true)
          × All (λ c. any (λ n. str_eq n v.name) c.volumes ≡ false) (web ∷ []))
        (selected_volumes (web ∷ []) (logs ∷ []) ("v9" ∷ []))
toggle_all_lem_example =
    toggle_all_lem ("v2" ∷ []) ("v9" ∷ []) "v2" "v9" (web ∷ []) (nginx ∷ []) (logs ∷ [])

abbrev explorer : Explorer
explorer = record {
  snapshot = record { containers = []; images = []; volumes = [] };
  busy = false;
  locked = false;
  status = success;
  confirmation = none;
}

abbrev at_rest : World
at_rest = record { explorer = explorer; running = 0 }

abbrev loading : World
loading = record { explorer = (refresh explorer).0; running = 1 }

at_rest-IsExclusive : IsExclusive at_rest
at_rest-IsExclusive = record { locked = refl; busy = refl }

abbrev rest_snapshot : Snapshot
rest_snapshot = record { containers = web ∷ []; images = []; volumes = [] }

Reach-IsExclusive_example :
    IsExclusive loading
    × (loading.running ≤ 1)
    × (loading.explorer.locked ≡ true
        → (refresh loading.explorer ≡ (loading.explorer, false))
          × (mutate (delete_volumes ("v1" ∷ [])) loading.explorer ≡ (loading.explorer, none)))
    × (((ended [] (failed "down") loading.explorer).locked ≡ false)
        × ((ended [] (failed "down") loading.explorer).busy ≡ false)
        × ((ended [] (data_of rest_snapshot) loading.explorer).locked ≡ false)
        × ((ended [] (data_of rest_snapshot) loading.explorer).busy ≡ false))
    × ((ended [] (data_of rest_snapshot) loading.explorer).snapshot ≡ rest_snapshot)
    × ((ended [] (failed "down") loading.explorer).snapshot ≡ loading.explorer.snapshot)
    × ((ended [] (data_of rest_snapshot) loading.explorer).status ≡ success)
    × ((ended ("in use" ∷ []) (data_of rest_snapshot) loading.explorer).status
        ≡ errors ("in use" ∷ []))
    × ((ended [] (failed "down") loading.explorer).status ≡ errors ([] ++ "down" ∷ []))
unfolding refresh
Reach-IsExclusive_example =
    Reach-IsExclusive (delete_volumes ("v1" ∷ [])) "in use" [] rest_snapshot "down"
      at_rest-IsExclusive (next here refreshes)
