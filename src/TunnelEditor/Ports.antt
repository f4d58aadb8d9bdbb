-- ===== src/TunnelEditor/Ports.antt =====
-- The ports of the tunnels.
use condui.Prelude.{
  subst, ◌||◌, All-map, All-zip, ℕ, ◌≤◌, String, Bool, true, false, ◌&&◌, Option, none, some, List,
  [], ◌∷◌, ◌++◌, ◌≡◌, ◌≢◌, refl, str_eq, leb, if_intro, All, All-filter, All-append, Distinct,
  Distinct-filter, Distinct-concat, eq_iff, arith, ne_of_==, Bool-cases, inl, inr,
}
use condui.Prelude.Text.{is_empty}
use condui.ConnectionForm.{JsNumber, whole, other}
use condui.TunnelEditor.{
  negsuc, pos, Tunnel, Draft, port_of, Checked, invalid, duplicate, checked, is_other, taken,
  check_ports, check, replace, store, submit, remove,
}

abbrev pub IsPort : ℕ → Type 0
IsPort n = (1 ≤ n) × (n ≤ 65535)

-- a tunnel that can be opened
abbrev pub IsOpenable : Tunnel → Type 0
IsOpenable t = IsPort t.local_port × IsPort t.remote_port × (is_empty t.remote_host ≡ false)

-- Every tunnel can be opened, and no two have an id or a local port in common.
pub record IsValid (ts : List Tunnel) : Type 0 where
  pub openable : All IsOpenable ts
  pub ids : Distinct (λ t. t.id) ts
  pub ports : Distinct (λ t. t.local_port) ts

port_of-IsPort : (j : JsNumber) (n : ℕ) → port_of j ≡ some n → IsPort n
unfolding port_of
port_of-IsPort (whole (pos k)) n h = elim (Bool-cases (leb 1 k && leb k 65535)) [
  | inl b ↦
      let e : some k ≡ some n = rw b at h in
      let q : k ≡ n = cc in subst IsPort {x = k} q (ground (arith, b), ground (arith, b))
  | inr b ↦ let e : none ≡ some n = rw b at h in cc
]
port_of-IsPort (whole (negsuc k)) n h = cc
port_of-IsPort other n h = cc

or-false : (a b : Bool) → (a || b) ≡ false → (a ≡ false) × (b ≡ false)
or-false true b h = (h, absurd (ground (arith, h)))
or-false false b h = (refl, h)

and-false : (a b : Bool) → (a && b) ≡ false → a ≡ true → b ≡ false
and-false a b h k = ground (arith, h, k)

-- the port of the tunnels but the one that is edited
untaken :
    (e : Option String) (p : ℕ) (ts : List Tunnel)
    → taken e p ts ≡ false
    → All (λ t. is_other e t ≡ true → t.local_port ≢ p) ts
unfolding taken
untaken e p [] h = tt
untaken e p (t ∷ ts) h =
    let k = or-false _ _ h in
    (λ o. ne_of_== t.local_port p (and-false _ _ k.0 o), untaken e p ts k.1)

-- replacing keeps the ids, and what holds of the new tunnel and of the others
replace-All :
    (Q : Tunnel → Type 0) (e : String) (l : ℕ) (h : List ℕ) (r : ℕ) (ts : List Tunnel)
    → All
        (λ t.
          (str_eq t.id e ≡ true → Q (record t { local_port = l; remote_host = h; remote_port = r }))
          × (str_eq t.id e ≡ false → Q t))
        ts
    → All Q (replace e l h r ts)
unfolding replace
replace-All Q e l h r [] k = tt
replace-All Q e l h r (t ∷ ts) (k, ks) =
    (if_intro Q (str_eq t.id e) k.0 k.1, replace-All Q e l h r ts ks)

replace-ids :
    (e : String) (l : ℕ) (h : List ℕ) (r : ℕ) (ts : List Tunnel)
    → Distinct (λ t. t.id) ts
    → Distinct (λ t. t.id) (replace e l h r ts)
unfolding replace
replace-ids e l h r [] d = tt
replace-ids e l h r (t ∷ ts) (d, ds) =
    if_intro
      (λ (x : Tunnel).
        All (λ y. x.id ≢ y.id) (replace e l h r ts) × Distinct (λ y. y.id) (replace e l h r ts))
      (str_eq t.id e) (λ _. (others, replace-ids e l h r ts ds))
      (λ _. (others, replace-ids e l h r ts ds))
  where
    others : All (λ y. t.id ≢ y.id) (replace e l h r ts)
    others =
        replace-All (λ y. t.id ≢ y.id) e l h r ts
          (All-map (λ y. t.id ≢ y.id) _ ts (λ y n. (λ _. n, λ _. n)) d)

replace-ports :
    (e : String) (l : ℕ) (h : List ℕ) (r : ℕ) (ts : List Tunnel)
    → Distinct (λ t. t.id) ts
    → Distinct (λ t. t.local_port) ts
    → All (λ t. is_other (some e) t ≡ true → t.local_port ≢ l) ts
    → Distinct (λ t. t.local_port) (replace e l h r ts)
unfolding replace is_other
replace-ports e l h r [] i d u = tt
replace-ports e l h r (t ∷ ts) (i, is) (d, ds) (u, us) =
    if_intro
      (λ (x : Tunnel).
        All (λ y. x.local_port ≢ y.local_port) (replace e l h r ts)
        × Distinct (λ y. y.local_port) (replace e l h r ts))
      (str_eq t.id e) (λ same. (edited same, replace-ports e l h r ts is ds us))
      (λ differ. (kept differ, replace-ports e l h r ts is ds us))
  where
    edited : str_eq t.id e ≡ true → All (λ y. l ≢ y.local_port) (replace e l h r ts)
    edited same =
        replace-All (λ y. l ≢ y.local_port) e l h r ts
          (All-zip (λ y. t.id ≢ y.id) (λ y. is_other (some e) y ≡ true → y.local_port ≢ l)
            (λ y. (str_eq y.id e ≡ true → l ≢ l) × (str_eq y.id e ≡ false → l ≢ y.local_port)) ts
            (λ y n v. (
              λ z. absurd (n (ground (arith, same, z, eq_iff t.id e, eq_iff y.id e))),
              λ z q. v (rw z refl) (cc),
            ))
            i us)

    kept : str_eq t.id e ≡ false → All (λ y. t.local_port ≢ y.local_port) (replace e l h r ts)
    kept differ =
        replace-All (λ y. t.local_port ≢ y.local_port) e l h r ts
          (All-map (λ y. t.local_port ≢ y.local_port) _ ts
            (λ y n. (λ _. u (rw differ refl), λ _. n)) d)

-- what a draft that was accepted is known to be
abbrev IsAccepted : Option String → List Tunnel → Checked → Type 0
IsAccepted editing ts invalid = Unit
IsAccepted editing ts duplicate = Unit
IsAccepted editing ts (checked l h r) =
    IsPort l × IsPort r × (is_empty h ≡ false) × (taken editing l ts ≡ false)

check_ports-IsAccepted :
    (editing : Option String) (l : Option ℕ) (h : List ℕ) (r : Option ℕ) (ts : List Tunnel)
    → ((n : ℕ) → l ≡ some n → IsPort n)
    → ((n : ℕ) → r ≡ some n → IsPort n)
    → IsAccepted editing ts (check_ports editing l h r ts)
unfolding check_ports
check_ports-IsAccepted editing (some l) h (some r) ts a b =
    if_intro (IsAccepted editing ts) (is_empty h) (λ _. tt)
      (λ e.
        if_intro (IsAccepted editing ts) (taken editing l ts) (λ _. tt)
          (λ k. (a l refl, b r refl, e, k)))
check_ports-IsAccepted editing none h r ts a b = tt
check_ports-IsAccepted editing (some l) h none ts a b = tt

store-IsValid :
    (editing : Option String) (fresh : String) (c : Checked) (ts us : List Tunnel)
    → IsAccepted editing ts c
    → All (λ t. t.id ≢ fresh) ts
    → store editing fresh c ts ≡ some us
    → IsValid ts
    → IsValid us
unfolding store is_other
store-IsValid editing fresh invalid ts us a f e v = cc
store-IsValid editing fresh duplicate ts us a f e v = cc
store-IsValid none fresh (checked l h r) ts us (a, b, c, k) f e v =
    subst (λ xs. IsValid xs)
      {x = ts ++ record { id = fresh; local_port = l; remote_host = h; remote_port = r } ∷ []} (cc)
      record {
        openable = All-append _ ts _ v.openable ((a, b, c), tt);
        ids = Distinct-concat _ ts _ v.ids f;
        ports =
            Distinct-concat _ ts _ v.ports (All-map _ _ ts (λ t n. n refl) (untaken none l ts k));
      }
store-IsValid (some i) fresh (checked l h r) ts us (a, b, c, k) f e v =
    subst (λ xs. IsValid xs) {x = replace i l h r ts} (cc)
      record {
        openable =
            replace-All IsOpenable i l h r ts
              (All-map IsOpenable _ ts (λ t o. (λ _. (a, b, c), λ _. o)) v.openable);
        ids = replace-ids i l h r ts v.ids;
        ports = replace-ports i l h r ts v.ids v.ports (untaken (some i) l ts k);
      }

-- For a connection that was not saved, submitting the form and removing a tunnel keep every tunnel
-- openable and no id and no local port twice, provided that the id drawn for a new tunnel is new.
pub submit-IsValid :
    (editing : Option String) (fresh : String) (d : Draft) (ts us : List Tunnel) (gone : String)
    → All (λ t. t.id ≢ fresh) ts
    → submit editing fresh d ts ≡ some us
    → IsValid ts
    → IsValid us × IsValid (remove gone us)
unfolding submit check remove
submit-IsValid editing fresh d ts us gone f e v =
    let w : IsValid us =
      store-IsValid editing fresh _ ts us
        (check_ports-IsAccepted editing (port_of d.local_port) _ (port_of d.remote_port) ts
          (port_of-IsPort d.local_port) (port_of-IsPort d.remote_port))
        f e v in
    (
      w,
      record {
        openable = All-filter IsOpenable _ us w.openable;
        ids = Distinct-filter _ _ us w.ids;
        ports = Distinct-filter _ _ us w.ports;
      },
    )
