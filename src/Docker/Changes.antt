-- ===== src/Docker/Changes.antt =====
-- What the explorer loads and changes, one thing at a time: DockerExplorer.jsx.
use condui.Prelude.{
  append-nil, ◌∙◌, ap, ℕ, ◌+◌, ◌-◌, ◌≤◌, ◌<◌, String, Bool, true, false, ◌≡◌, Option, none, some,
  List, [], ◌∷◌, ◌++◌, refl, if◌then◌else◌, arith, if_intro,
}
use condui.Docker.{Container, Image, Volume}

pub record Snapshot : Type 0 where
  pub containers : List Container
  pub images : List Image
  pub volumes : List Volume

-- `working` stands for the texts of an operation on its way
pub data Status : Type 0 where
  working : Status
  success : Status
  errors : List String → Status

-- A change that is to be confirmed, or that runs.
pub data Change : Type 0 where
  control_stack : String → String → Change
  delete_images : List String → Change
  delete_volumes : List String → Change

pub record Explorer : Type 0 where
  pub snapshot : Snapshot
  pub busy : Bool
  pub locked : Bool
  pub status : Status
  pub confirmation : Option Change

-- the answer to a request for a snapshot
pub data Loaded : Type 0 where
  data_of : Snapshot → Loaded
  failed : String → Loaded

set_snapshot : Loaded → Snapshot → Snapshot
set_snapshot (data_of s) old = s
set_snapshot (failed m) old = old

pub error_of : Loaded → List String
error_of (data_of s) = []
error_of (failed m) = m ∷ []

pub status_of : List String → Status
status_of [] = success
status_of (e ∷ es) = errors (e ∷ es)

-- `refresh` up to its await: whether it asks for a snapshot
unfoldable pub refresh : Explorer → Explorer × Bool
refresh e =
    if e.locked
    then (e, false)
    else (record e { locked = true; busy = true; status = working }, true)

-- `mutate` up to its await: the change that it begins
pub mutate : Change → Explorer → Explorer × Option Change
mutate c e =
    if e.locked
    then (e, none)
    else (record e { locked = true; busy = true; confirmation = none; status = working }, some c)

-- The rest of both: `failures` are the errors of the change, none for a refresh.
pub ended : List String → Loaded → Explorer → Explorer
unfolding set_snapshot error_of status_of
ended failures l e = record e {
  snapshot = set_snapshot l e.snapshot;
  status = status_of (failures ++ error_of l);
  locked = false;
  busy = false;
}

-- `stackAction`, `requestDelete` and `requestDeleteVolumes`: to start a stack is not confirmed
pub request : Bool → Change → Explorer → Explorer × Option Change
unfolding mutate
request starts c e =
    if e.busy
    then (e, none)
    else if starts
    then mutate c e
    else (record e { confirmation = some c }, none)

confirm_on : Option Change → Explorer → Explorer × Option Change
unfolding mutate
confirm_on none e = (e, none)
confirm_on (some c) e = mutate c e

-- `onConfirm`, and closing the dialog
pub confirm : Explorer → Explorer × Option Change
unfolding confirm_on
confirm e = confirm_on e.confirmation e

pub close : Explorer → Explorer
close e = record e { confirmation = none }

-- What a deletion of several does: each is asked for, whatever became of the others; the errors,
-- in their order, of what each answered.
pub failures_of : List (String × Option String) → List String
failures_of [] = []
failures_of ((i, none) ∷ rs) = failures_of rs
failures_of ((i, some m) ∷ rs) = m ∷ failures_of rs

abbrev pub count : Bool → ℕ
count true = 1
count false = 0

-- `running` counts what has not ended.
pub record World : Type 0 where
  pub explorer : Explorer
  pub running : ℕ

pub is_some : Option Change → Bool
is_some none = false
is_some (some c) = true

pub data Step : World → World → Type 0 where
  refreshes :
      {e : Explorer} {n : ℕ}
      → Step
          (record { explorer = e; running = n })
          (record { explorer = (refresh e).0; running = n + count (refresh e).1 })
  requests :
      {e : Explorer} {n : ℕ} (starts : Bool) (c : Change)
      → Step
          (record { explorer = e; running = n })
          (record {
            explorer = (request starts c e).0;
            running = n + count (is_some (request starts c e).1);
          })
  confirms :
      {e : Explorer} {n : ℕ}
      → Step
          (record { explorer = e; running = n })
          (record { explorer = (confirm e).0; running = n + count (is_some (confirm e).1) })
  closes :
      {e : Explorer} {n : ℕ}
      → Step (record { explorer = e; running = n }) (record { explorer = close e; running = n })
  ends :
      {e : Explorer} {n : ℕ} (fs : List String) (l : Loaded)
      → 0 < n
      → Step
          (record { explorer = e; running = n })
          (record { explorer = ended fs l e; running = n - 1 })

-- One thing runs at most, and the lock and the buttons say so.
pub record IsExclusive (w : World) : Type 0 where
  pub locked : w.running ≡ count w.explorer.locked
  pub busy : w.explorer.busy ≡ w.explorer.locked

unchanged :
    (e : Explorer) (n : ℕ)
    → IsExclusive (record { explorer = e; running = n })
    → IsExclusive (record { explorer = e; running = n + 0 })
unchanged e n h = record {
  locked = let z : n ≡ count e.locked = h.locked in ground (arith, z);
  busy = h.busy;
}

mutate-IsExclusive :
    (c : Change) (e : Explorer) (n : ℕ)
    → IsExclusive (record { explorer = e; running = n })
    → IsExclusive
        (record { explorer = (mutate c e).0; running = n + count (is_some (mutate c e).1) })
unfolding mutate is_some
mutate-IsExclusive c e n h =
    if_intro
      (λ (x : Explorer × Option Change).
        IsExclusive (record { explorer = x.0; running = n + count (is_some x.1) }))
      e.locked (λ k. unchanged e n h)
      (λ k. record {
        locked = let z : n ≡ 0 = h.locked ∙ ap count k in ground (arith, z);
        busy = refl;
      })

refresh-IsExclusive :
    (e : Explorer) (n : ℕ)
    → IsExclusive (record { explorer = e; running = n })
    → IsExclusive (record { explorer = (refresh e).0; running = n + count (refresh e).1 })
unfolding refresh
refresh-IsExclusive e n h =
    if_intro
      (λ (x : Explorer × Bool). IsExclusive (record { explorer = x.0; running = n + count x.1 }))
      e.locked (λ k. unchanged e n h)
      (λ k. record {
        locked = let z : n ≡ 0 = h.locked ∙ ap count k in ground (arith, z);
        busy = refl;
      })

request-IsExclusive :
    (starts : Bool) (c : Change) (e : Explorer) (n : ℕ)
    → IsExclusive (record { explorer = e; running = n })
    → IsExclusive (record {
      explorer = (request starts c e).0;
      running = n + count (is_some (request starts c e).1);
    })
unfolding request is_some
request-IsExclusive starts c e n h =
    if_intro
      (λ (x : Explorer × Option Change).
        IsExclusive (record { explorer = x.0; running = n + count (is_some x.1) }))
      e.busy (λ _. unchanged e n h)
      (λ _.
        if_intro
          (λ (x : Explorer × Option Change).
            IsExclusive (record { explorer = x.0; running = n + count (is_some x.1) }))
          starts (λ _. mutate-IsExclusive c e n h)
          (λ _. let k = unchanged e n h in record { locked = k.locked; busy = k.busy }))

confirm_on-IsExclusive :
    (c : Option Change) (e : Explorer) (n : ℕ)
    → IsExclusive (record { explorer = e; running = n })
    → IsExclusive
        (record { explorer = (confirm_on c e).0; running = n + count (is_some (confirm_on c e).1) })
unfolding confirm_on is_some
confirm_on-IsExclusive none e n h = unchanged e n h
confirm_on-IsExclusive (some c) e n h = mutate-IsExclusive c e n h

step-IsExclusive : {u v : World} → IsExclusive u → Step u v → IsExclusive v
unfolding confirm close ended
step-IsExclusive h (refreshes {e} {n}) = refresh-IsExclusive e n h
step-IsExclusive h (requests {e} {n} starts c) = request-IsExclusive starts c e n h
step-IsExclusive h (confirms {e} {n}) = confirm_on-IsExclusive e.confirmation e n h
step-IsExclusive h (closes {e} {n}) = record { locked = h.locked; busy = h.busy }
step-IsExclusive h (ends {e} {n} fs l p) = record { locked = last e.locked h.locked; busy = refl }
  where
    last : (b : Bool) → n ≡ count b → n - 1 ≡ 0
    last true z = ground (arith, z)
    last false z = ground (arith, z)

pub data Reach (u : World) : World → Type 0 where
  here : Reach u u
  next : {v w : World} → Reach u v → Step v w → Reach u w

reach-Exclusive : {u v : World} → IsExclusive u → Reach u v → IsExclusive v
reach-Exclusive h here = h
reach-Exclusive h (next r s) = step-IsExclusive (reach-Exclusive h r) s

-- In every state that the explorer reaches, at most one load or change runs, and it is locked and
-- busy exactly then. While one runs nothing else begins, and when it ends the explorer is free,
-- whatever failed: it shows what was loaded, or what it had if that failed, and it tells a success
-- exactly if the change had no errors and the load did not fail, else all errors, those of the
-- change first.
pub Reach-IsExclusive :
    {u v : World} (c : Change) (f : String) (fs : List String) (s : Snapshot) (m : String)
    → IsExclusive u
    → Reach u v
    → IsExclusive v
      × (v.running ≤ 1)
      × (v.explorer.locked ≡ true
          → (refresh v.explorer ≡ (v.explorer, false)) × (mutate c v.explorer ≡ (v.explorer, none)))
      × (((ended fs (failed m) v.explorer).locked ≡ false)
          × ((ended fs (failed m) v.explorer).busy ≡ false)
          × ((ended fs (data_of s) v.explorer).locked ≡ false)
          × ((ended fs (data_of s) v.explorer).busy ≡ false))
      × ((ended fs (data_of s) v.explorer).snapshot ≡ s)
      × ((ended fs (failed m) v.explorer).snapshot ≡ v.explorer.snapshot)
      × ((ended [] (data_of s) v.explorer).status ≡ success)
      × ((ended (f ∷ fs) (data_of s) v.explorer).status ≡ errors (f ∷ fs))
      × ((ended fs (failed m) v.explorer).status ≡ errors (fs ++ m ∷ []))
unfolding refresh mutate ended set_snapshot status_of error_of
Reach-IsExclusive {v} c f fs s m h r =
    let k = reach-Exclusive h r in
    (
      k,
      at_most v.explorer.locked k.locked,
      λ e. (rw e refl, rw e refl),
      (refl, refl, refl, refl),
      refl,
      refl,
      refl,
      rw append-nil refl,
      ends_failed fs,
    )
  where
    at_most : (b : Bool) → v.running ≡ count b → v.running ≤ 1
    at_most true z = ground (arith, z)
    at_most false z = ground (arith, z)

    ends_failed : (es : List String) → status_of (es ++ m ∷ []) ≡ errors (es ++ m ∷ [])
    ends_failed [] = refl
    ends_failed (e ∷ es) = refl
