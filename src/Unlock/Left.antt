-- ===== src/Unlock/Left.antt =====
-- The connections that are left after some passwords.
use condui.Prelude.{
  filter-ext, none, some, leb, sym, ◌∙◌, append-nil, ℕ, ◌+◌, String, Bool, true, false, not, ◌||◌,
  ◌&&◌, List, [], ◌∷◌, ◌++◌, ◌≡◌, refl, length, filter, any, if◌then◌else◌, Bool-cases, inl, inr,
  arith, append_assoc, ap,
}
use condui.Prelude.Text.{is_empty}
use condui.Unlock.{
  partial, failed, notice_of, Pending, Round, ask, ask_all, finish, handle_unlock, handle_all,
}

-- none after the dialog has closed
abbrev pub left : Pending → List String
left v = if v.closed then [] else v.pending

module _ (opens : List ℕ → String → Bool) where
  still-ask_all :
      (p : List ℕ) (cs : List String) (r : Round)
      → (ask_all opens p cs r).still_pending ≡ r.still_pending ++ filter (λ c. not (opens p c)) cs
  unfolding ask_all ask
  still-ask_all p [] r = sym (append-nil r.still_pending)
  still-ask_all p (c ∷ cs) r = elim (Bool-cases (opens p c)) [
    | inl e ↦ still-ask_all p cs (ask opens p c r) ∙ rw e refl
    | inr e ↦
        still-ask_all p cs (ask opens p c r)
        ∙ rw e (append_assoc r.still_pending (c ∷ []) (filter (λ x. not (opens p x)) cs))
  ]

  count-ask_all :
      (p : List ℕ) (cs : List String) (r : Round)
      → (ask_all opens p cs r).unlocked_count
        ≡ r.unlocked_count + length (filter (λ c. opens p c) cs)
  unfolding ask_all ask
  count-ask_all p [] r = ground arith
  count-ask_all p (c ∷ cs) r = elim (Bool-cases (opens p c)) [
    | inl e ↦ ground (arith, e, count-ask_all p cs (ask opens p c r))
    | inr e ↦ ground (arith, e, count-ask_all p cs (ask opens p c r))
  ]

  left-finish :
      (cs : List String) (n : ℕ) (v : Pending) → v.closed ≡ false → left (finish cs n v) ≡ cs
  unfolding finish
  left-finish [] n v h = refl
  left-finish (c ∷ cs) n v h = rw h refl

  filter-filter :
      (p q : String → Bool) (cs : List String)
      → filter q (filter p cs) ≡ filter (λ c. p c && q c) cs
  filter-filter p q [] = refl
  filter-filter p q (c ∷ cs) = ground (arith, filter-filter p q cs)

  filter-all : (cs : List String) → filter (λ _. true) cs ≡ cs
  filter-all [] = refl
  filter-all (c ∷ cs) = ap (λ x. c ∷ x) (filter-all cs)

  -- a round that is not refused
  handle_unlock-open :
      (x : ℕ) (xs : List ℕ) (v : Pending)
      → v.closed ≡ false
      → handle_unlock opens (x ∷ xs) v ≡ (
          let r =
            ask_all opens (x ∷ xs) v.pending (record { still_pending = []; unlocked_count = 0 }) in
          finish r.still_pending r.unlocked_count v)
  unfolding handle_unlock
  handle_unlock-open x xs v h = rw h refl

  -- what a round leaves
  left-handle_unlock :
      (p : List ℕ) (v : Pending)
      → left (handle_unlock opens p v) ≡ filter (λ c. not (not (is_empty p) && opens p c)) (left v)
  unfolding handle_unlock
  left-handle_unlock [] v = elim (Bool-cases v.closed) [
    | inl e ↦ rw e refl
    | inr e ↦ rw e (sym (filter-all v.pending))
  ]
  left-handle_unlock (x ∷ xs) v = elim (Bool-cases v.closed) [
    | inl e ↦ rw e refl
    | inr e ↦
        ap (λ w. left w) (handle_unlock-open x xs v e)
        ∙ left-finish _ _ v e
        ∙ still-ask_all (x ∷ xs) v.pending _
        ∙ rw e refl
  ]

  de_morgan : (a b : Bool) → (not a && not b) ≡ not (a || b)
  de_morgan true b = refl
  de_morgan false b = refl

  -- Whatever passwords are typed, what is left is, in its order, what none of those that are not
  -- empty opens; the dialog has closed only when that is nothing.
  pub left-handle_all :
      (ps : List (List ℕ)) (v : Pending)
      → left (handle_all opens ps v)
        ≡ filter (λ c. not (any (λ p. not (is_empty p) && opens p c) ps)) (left v)
  unfolding handle_all
  left-handle_all [] v = sym (filter-all (left v))
  left-handle_all (p ∷ ps) v =
      left-handle_all ps (handle_unlock opens p v)
      ∙ ap (filter (λ c. not (any (λ p'. not (is_empty p') && opens p' c) ps)))
          (left-handle_unlock p v)
      ∙ filter-filter _ _ (left v)
      ∙ filter-ext _ _ (left v) (λ c. de_morgan (not (is_empty p) && opens p c) _)

-- What a round says that opens `n` connections and leaves `k`, from the dialog before it to the one
-- after it.
abbrev pub Says : ℕ → ℕ → Pending → Pending → Type 0
Says n k v w =
    (w.reloads ≡ (if leb 1 n then v.reloads + 1 else v.reloads))
    × (w.closed ≡ not (leb 1 k))
    × (w.error ≡ (if leb 1 k then some (if leb 1 n then partial n k else failed) else none))

finish-Says :
    (cs : List String) (n : ℕ) (v : Pending)
    → v.closed ≡ false
    → Says n (length cs) v (finish cs n v)
unfolding finish notice_of
finish-Says [] n v h = (refl, refl, refl)
finish-Says (c ∷ cs) n v h =
    let q : leb 1 (length (c ∷ cs)) ≡ true = ground arith in (refl, rw q h, rw q refl)

-- A password that is not empty, typed in an open dialog: the list of connections is loaded again
-- exactly when it opens one of them; the dialog closes exactly when it opens all of them; and if
-- not, the error says how many it opens and how many are left, or that it opens none.
pub handle_unlock-Says :
    (opens : List ℕ → String → Bool) (x : ℕ) (xs : List ℕ) (v : Pending)
    → v.closed ≡ false
    → Says
        (length (filter (λ c. opens (x ∷ xs) c) v.pending))
        (length (filter (λ c. not (opens (x ∷ xs) c)) v.pending))
        v
        (handle_unlock opens (x ∷ xs) v)
handle_unlock-Says opens x xs v h =
    let r : Round = record { still_pending = []; unlocked_count = 0 } in
    let n : (ask_all opens (x ∷ xs) v.pending r).unlocked_count
        ≡ length (filter (λ c. opens (x ∷ xs) c) v.pending) =
      ground (arith, count-ask_all opens (x ∷ xs) v.pending r) in
    rw (handle_unlock-open opens x xs v h)
      (rw (still-ask_all opens (x ∷ xs) v.pending r) (rw n (finish-Says _ _ v h)))
