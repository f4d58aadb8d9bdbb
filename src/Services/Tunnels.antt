-- ===== src/Services/Tunnels.antt =====
-- hooks/useTunnels.js: the tunnels of a connection. Requests are numbered, and only the answer to
-- the latest one is taken.
use condui.Prelude.{
  ==_refl, subst, eq_of_==, ◌∙◌, ℕ, ◌+◌, ◌≤◌, String, Option, none, some, List, [], ◌≡◌, refl,
  arith, ◌==◌, if◌then◌else◌, if_intro,
}

-- A list as the backend answered it: `owner` is the connection that was asked for, and an empty
-- list that no answer brought has none.
pub record Listing : Type 0 where
  pub owner : Option String
  pub items : List String

abbrev pub nothing : Listing
nothing = record { owner = none; items = [] }

-- `asked` is the connection that each request was made for.
pub record Hook : Type 0 where
  pub connection : Option String
  pub tunnels : Listing
  pub error : Option String
  pub request : ℕ
  pub asked : ℕ → Option String

abbrev pub init : Hook
init = record { connection = none; tunnels = nothing; error = none; request = 0; asked = λ _. none }

-- `reload` up to the await, of a render that showed the connection
pub reload : Option String → Hook → Hook
reload none h = record h { request = h.request + 1; tunnels = nothing; error = none }
reload (some c) h = record h {
  request = h.request + 1;
  asked = λ n. if n == h.request + 1 then some c else h.asked n;
}

pub data Answer : Type 0 where
  listed : List String → Answer
  failed : String → Answer

-- `reload` after the await of the request with the number
pub answer : ℕ → Answer → Hook → Hook
answer n (listed ts) h =
    if n == h.request
    then record h { tunnels = record { owner = h.asked n; items = ts }; error = none }
    else h
answer n (failed m) h = if n == h.request then record h { error = some m } else h

-- another connection is shown: the old effect ends, and the new one clears and reloads
unfoldable pub change : Option String → Hook → Hook
unfolding reload
change c h = reload c (record h { request = h.request + 1; connection = c; tunnels = nothing })

-- A reload is called by the render that is shown.
pub data Step : Hook → Hook → Type 0 where
  reloads : {h : Hook} → Step h (reload h.connection h)
  answers :
      {h : Hook} (n : ℕ) (c : String) (a : Answer) → h.asked n ≡ some c → Step h (answer n a h)
  changes : {h : Hook} (c : Option String) → Step h (change c h)

pub data Reach : Hook → Type 0 where
  here : Reach init
  next : {h k : Hook} → Reach h → Step h k → Reach k

-- What is listed is of the connection that is shown, or nothing; requests that were made have
-- numbers up to the latest, which was made for the connection that is shown.
pub record IsCurrent (h : Hook) : Type 0 where
  pub owner : (c : String) → h.tunnels.owner ≡ some c → h.connection ≡ some c
  pub latest : (c : String) → h.asked h.request ≡ some c → h.connection ≡ some c
  pub numbered : (n : ℕ) (c : String) → h.asked n ≡ some c → n ≤ h.request

reload-IsCurrent :
    (o : Option String) (h : Hook)
    → h.connection ≡ o
    → ((c : String) → h.tunnels.owner ≡ some c → h.connection ≡ some c)
    → ((n : ℕ) (c : String) → h.asked n ≡ some c → n ≤ h.request)
    → IsCurrent (reload o h)
unfolding reload
reload-IsCurrent none h e w b = record {
  owner = λ c q. cc;
  latest = λ c q. ground (arith, b (h.request + 1) c q);
  numbered = λ n c q. ground (arith, b n c q);
}
reload-IsCurrent (some d) h e w b = record {
  owner = w;
  latest = λ c q. newest c q;
  numbered = λ n c q. ground (arith, b n c);
}
  where
    newest :
        (c : String)
        → (if h.request + 1 == h.request + 1 then some d else h.asked (h.request + 1)) ≡ some c
        → h.connection ≡ some c
    newest c q = let z : some d ≡ some c = ground arith in e ∙ z

Step-IsCurrent : {h k : Hook} → Step h k → IsCurrent h → IsCurrent k
unfolding change answer
Step-IsCurrent {h} reloads v = reload-IsCurrent h.connection h refl v.owner v.numbered
Step-IsCurrent {h} (answers n c (listed ts) asked) v =
    if_intro IsCurrent (n == h.request)
      (λ y. record {
        owner = λ d q. v.latest d (subst (λ i. h.asked i ≡ some d) (eq_of_== n h.request y) q);
        latest = v.latest;
        numbered = v.numbered;
      })
      (λ _. v)
Step-IsCurrent {h} (answers n c (failed m) asked) v =
    if_intro IsCurrent (n == h.request)
      (λ _. record { owner = v.owner; latest = v.latest; numbered = v.numbered }) (λ _. v)
Step-IsCurrent {h} (changes c) v =
    reload-IsCurrent c (record h { request = h.request + 1; connection = c; tunnels = nothing })
      refl (λ d q. cc) (λ n d q. ground (arith, v.numbered n d q))

reached : {h : Hook} → Reach h → IsCurrent h
reached here = record { owner = λ c q. cc; latest = λ c q. cc; numbered = λ n c q. cc }
reached (next r st) = Step-IsCurrent st (reached r)

-- However requests, answers and changes of the connection interleave, if every reload is called by
-- the render that is shown: the tunnels that are listed are those of the connection that is shown,
-- or none. A reload that was kept from the render of another connection is taken for the latest:
-- its answer lists that one's tunnels under the connection that is shown.
pub Reach-IsCurrent :
    {h : Hook} (old : String) (ts : List String)
    → Reach h
    → ((c : String) → h.tunnels.owner ≡ some c → h.connection ≡ some c)
      × (let k = answer (h.request + 1) (listed ts) (reload (some old) h) in
          (k.tunnels ≡ record { owner = some old; items = ts }) × (k.connection ≡ h.connection))
unfolding answer reload
Reach-IsCurrent {h} old ts r = ((reached r).owner, rw (==_refl (h.request + 1)) (refl, refl))
