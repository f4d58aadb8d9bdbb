-- ===== src/Panel/Lists.antt =====
-- The lists of the panel: the search and the order of their rows.
use condui.Prelude.{
  any-filter, ◌&&◌, ℕ, String, Bool, true, false, Option, none, some, List, [], ◌∷◌, ◌≡◌, refl, ◌∙◌,
  str_eq, if◌then◌else◌, filter, any, map,
}
use condui.Prelude.Text.{codes, trim, lower, includes_text, is_empty}
use condui.Panel.{
  Sign, before, same, after, sign, or_sign, Sort, compare_docker_state, compare_docker_status,
}
use condui.Panel.Compare.{flip, sign-flip, or_sign-flip, compare_docker_flip}

-- Ports have a number where their text is one.
pub record Port : Type 0 where
  pub proto : String
  pub port : String
  pub number : Option ℕ
  pub address : String
  pub process : String

pub record Container : Type 0 where
  pub id : String
  pub names : String
  pub image : String
  pub state : String
  pub status : String
  pub seconds : Option ℕ
  pub ports : String

pub record Machine : Type 0 where
  pub name : String
  pub state : String
  pub fields : List String

pub record Database : Type 0 where
  pub name : String
  pub port : String
  pub number : Option ℕ
  pub fields : List String

-- `matchesSearch`, in which every text is compared in lower case
pub matches_search : String → List String → Bool
matches_search search values =
    let query = map lower (trim (codes search)) in
    if is_empty query then true else any (λ v. includes_text query (map lower (codes v))) values

-- `Number(port) || 0`
number_or_zero : Option ℕ → ℕ
number_or_zero none = 0
number_or_zero (some n) = n

-- the result of a comparison, times the direction
pub directed : Sort → Sign → Sign
directed s c = if s.ascending then c else flip c

-- the text of a port's column; another key has no text
port_field : Port → String → String
port_field p key =
    if str_eq key "proto"
    then p.proto
    else if str_eq key "address"
    then p.address
    else if str_eq key "process"
    then p.process
    else ""

-- `compare_text` is the browser's comparison, `lower_case` is `toLowerCase`.
module _ (lower_case : String → String) (compare_text : String → String → Sign) where
  pub compare_ports : Sort → Port → Port → Sign
  unfolding directed number_or_zero port_field
  compare_ports s a b =
      if str_eq s.key "port"
      then directed s (sign (number_or_zero a.number) (number_or_zero b.number))
      else directed s
          (compare_text (lower_case (port_field a s.key)) (lower_case (port_field b s.key)))

  pub compare_containers : Sort → Container → Container → Sign
  unfolding directed
  compare_containers s a b =
      if str_eq s.key "state"
      then directed s (
          or_sign
            (or_sign (compare_docker_state lower_case compare_text a.state b.state)
              (compare_docker_status lower_case compare_text a.seconds b.seconds a.status b.status))
            (compare_text a.names b.names))
      else if str_eq s.key "ports"
      then directed s (or_sign (compare_text a.ports b.ports) (compare_text a.names b.names))
      else directed s (
          or_sign (compare_text a.names b.names)
            (compare_docker_state lower_case compare_text a.state b.state))

  pub compare_machines : Sort → Machine → Machine → Sign
  unfolding directed
  compare_machines s a b =
      if str_eq s.key "state"
      then directed s (or_sign (compare_text a.state b.state) (compare_text a.name b.name))
      else directed s (or_sign (compare_text a.name b.name) (compare_text a.state b.state))

  pub compare_databases : Sort → Database → Database → Sign
  unfolding directed number_or_zero
  compare_databases s a b =
      let by_port = sign (number_or_zero a.number) (number_or_zero b.number) in
      let by_name = compare_text a.name b.name in
      if str_eq s.key "port"
      then directed s (or_sign by_port by_name)
      else directed s (or_sign by_name by_port)

-- The rows that are shown; `sort` is the sort of arrays.
module _ (lower_case : String → String) (compare_text : String → String → Sign)
    (sort : (A : Type 0) → (A → A → Sign) → List A → List A) where
  pub visible_ports : String → Sort → List Port → List Port
  unfolding compare_ports matches_search
  visible_ports search s ps =
      sort Port (compare_ports lower_case compare_text s)
        (filter (λ p. matches_search search (p.proto ∷ p.port ∷ p.address ∷ p.process ∷ [])) ps)

  pub visible_containers : String → Sort → List Container → List Container
  unfolding compare_containers matches_search
  visible_containers search s cs = sort Container (compare_containers lower_case compare_text s) (
      filter (λ c. matches_search search (c.names ∷ c.image ∷ c.state ∷ c.status ∷ c.ports ∷ []))
        cs)

  pub visible_machines : String → Sort → List Machine → List Machine
  unfolding compare_machines matches_search
  visible_machines search s ms =
      sort Machine (compare_machines lower_case compare_text s)
        (filter (λ m. matches_search search (m.name ∷ m.state ∷ m.fields)) ms)

  pub visible_databases : String → Sort → List Database → List Database
  unfolding compare_databases matches_search
  visible_databases search s ds =
      sort Database (compare_databases lower_case compare_text s)
        (filter (λ d. matches_search search (d.name ∷ d.port ∷ d.fields)) ds)

flip-flip : (c : Sign) → flip (flip c) ≡ c
flip-flip before = refl
flip-flip same = refl
flip-flip after = refl

directed-flip : (s : Sort) (c : Sign) → directed s (flip c) ≡ flip (directed s c)
unfolding directed
directed-flip s c = on s.ascending
  where
    on : (b : Bool) → (if b then flip c else flip (flip c)) ≡ flip (if b then c else flip c)
    on true = refl
    on false = refl

-- a comparison that turns around, whatever it compares first
module _ (lower_case : String → String) (ct : String → String → Sign)
    (h : (a b : String) → ct b a ≡ flip (ct a b)) where
  two :
      (s : Sort) (c d c' d' : Sign)
      → c' ≡ flip c
      → d' ≡ flip d
      → directed s (or_sign c' d') ≡ flip (directed s (or_sign c d))
  two s c d c' d' e f = rw (e, f, or_sign-flip) (directed-flip s _)

  -- If the browser's comparison of texts turns around with its arguments, so do the comparisons
  -- by which the panel orders ports, containers, machines and databases, in every column and in
  -- both directions: the order of two rows does not depend on which one comes first.
  pub compare_rows_flip :
      (s : Sort) (p q : Port) (c d : Container) (m n : Machine) (x y : Database)
      → (compare_ports lower_case ct s q p ≡ flip (compare_ports lower_case ct s p q))
        × (compare_containers lower_case ct s d c ≡ flip (compare_containers lower_case ct s c d))
        × (compare_machines lower_case ct s n m ≡ flip (compare_machines lower_case ct s m n))
        × (compare_databases lower_case ct s y x ≡ flip (compare_databases lower_case ct s x y))
  unfolding compare_ports compare_containers compare_machines compare_databases
  compare_rows_flip s p q c d m n x y = (
    on (str_eq s.key "port") _ _ _ _
        (rw (sign-flip (number_or_zero p.number) (number_or_zero q.number)) (directed-flip s _))
        (rw (h (lower_case (port_field p s.key)) (lower_case (port_field q s.key)))
          (directed-flip s _)),
    on (str_eq s.key "state") _ _ _ _
        (two s _ _ _ _ (rw (states.0, states.1) (or_sign-flip _ _)) (h c.names d.names))
        (on (str_eq s.key "ports") _ _ _ _ (two s _ _ _ _ (h c.ports d.ports) (h c.names d.names))
          (two s _ _ _ _ (h c.names d.names) states.0)),
    on (str_eq s.key "state") _ _ _ _ (two s _ _ _ _ (h m.state n.state) (h m.name n.name))
        (two s _ _ _ _ (h m.name n.name) (h m.state n.state)),
    on (str_eq s.key "port") _ _ _ _
        (two s _ _ _ _ (sign-flip (number_or_zero x.number) (number_or_zero y.number))
          (h x.name y.name))
        (two s _ _ _ _ (h x.name y.name)
          (sign-flip (number_or_zero x.number) (number_or_zero y.number))),
  )
    where
      on :
          (b : Bool) (a a' e e' : Sign)
          → a' ≡ flip a
          → e' ≡ flip e
          → (if b then a' else e') ≡ flip (if b then a else e)
      on true a a' e e' k l = k
      on false a a' e e' k l = l

      states :
          (compare_docker_state lower_case ct d.state c.state
            ≡ flip (compare_docker_state lower_case ct c.state d.state))
          × (compare_docker_status lower_case ct d.seconds c.seconds d.status c.status
              ≡ flip (compare_docker_status lower_case ct c.seconds d.seconds c.status d.status))
      states = (
        (compare_docker_flip lower_case ct h c.state d.state none none).0,
        (compare_docker_flip lower_case ct h c.status d.status c.seconds d.seconds).1,
      )

-- The panel shows exactly the rows of which a column has the text that is searched for, without
-- case and without the space around it, and all rows if nothing is searched for, if the browser's
-- sort keeps what it sorts.
pub visible_containers_lem :
    (lower_case : String → String) (ct : String → String → Sign)
    (sort : (A : Type 0) → (A → A → Sign) → List A → List A)
    → ((c : Container → Container → Sign) (p : Container → Bool) (xs : List Container)
        → any p (sort Container c xs) ≡ any p xs)
    → (wanted : String) (s : Sort) (cs : List Container) (p : Container → Bool)
    → (any p (visible_containers lower_case ct sort wanted s cs)
        ≡ any
            (λ c.
              matches_search wanted (c.names ∷ c.image ∷ c.state ∷ c.status ∷ c.ports ∷ []) && p c)
            cs)
      × ((values : List String) → matches_search "  " values ≡ true)
unfolding visible_containers matches_search trim
visible_containers_lem lc ct sort h wanted s cs p = (h _ p _ ∙ any-filter p _ cs, λ values. refl)
