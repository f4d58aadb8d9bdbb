-- ===== src/Panel/Events.antt =====
-- What the panel keeps of the events that it hears.
use condui.Prelude.{
  Bool-cases, inl, inr, ℕ, zero, suc, ◌≤◌, String, Option, none, some, List, [], ◌∷◌, ◌≡◌, refl, ap,
  sym, ◌∙◌, arith, str_eq, eq_iff, take, Dict, lookup, lookup-insert,
}
use condui.Panel.{max_lines, push_log, push_logs, Transfer, start_of, on_transfer, on_transfers}

-- the lines before the others, the latest first
abbrev pub onto : List String → List String → List String
onto [] prev = prev
onto (l ∷ ls) prev = onto ls (l ∷ prev)

take-take : (n m : ℕ) (xs : List String) → n ≤ m → take n (take m xs) ≡ take n xs
take-take zero m xs h = refl
take-take (suc n) zero xs h = absurd (omega (arith, h))
take-take (suc n) (suc m) [] h = refl
take-take (suc n) (suc m) (x ∷ xs) h = ap (x ∷◌) (take-take n m xs (omega (arith, h)))

take-cons :
    (n : ℕ) (l : String) (xs ys : List String)
    → take n xs ≡ take n ys
    → take n (l ∷ xs) ≡ take n (l ∷ ys)
take-cons zero l xs ys h = refl
take-cons (suc n) l xs ys h = ap (l ∷◌) (
    sym (take-take n (suc n) xs (omega arith))
    ∙ ap (take n) h
    ∙ take-take n (suc n) ys (omega arith))

take-onto :
    (n : ℕ) (ls xs ys : List String)
    → take n xs ≡ take n ys
    → take n (onto ls xs) ≡ take n (onto ls ys)
take-onto n [] xs ys h = h
take-onto n (l ∷ ls) xs ys h = take-onto n ls (l ∷ xs) (l ∷ ys) (take-cons n l xs ys h)

take-push_logs :
    (ls prev : List String) → take max_lines (push_logs ls prev) ≡ take max_lines (onto ls prev)
unfolding push_logs push_log
take-push_logs [] prev = refl
take-push_logs (l ∷ ls) prev =
    take-push_logs ls (push_log l prev)
    ∙ take-onto max_lines ls (take max_lines (l ∷ prev)) (l ∷ prev)
        (take-take max_lines max_lines (l ∷ prev) (omega arith))

push_logs_whole :
    (ls prev : List String)
    → take max_lines prev ≡ prev
    → take max_lines (push_logs ls prev) ≡ push_logs ls prev
unfolding push_logs push_log
push_logs_whole [] prev h = h
push_logs_whole (l ∷ ls) prev h =
    push_logs_whole ls (push_log l prev) (take-take max_lines max_lines (l ∷ prev) (omega arith))

-- The panel has the latest 200 of all lines that were logged, the latest one first, and no other,
-- if it had at most 200 before.
pub push_logs_lem :
    (ls prev : List String)
    → take max_lines prev ≡ prev
    → push_logs ls prev ≡ take max_lines (onto ls prev)
push_logs_lem ls prev h = sym (push_logs_whole ls prev h) ∙ take-push_logs ls prev

start_of-some :
    (o : Option Transfer) (since : ℕ) (t : Transfer) (s : ℕ)
    → o ≡ some t
    → t.started_at ≡ some s
    → start_of o since ≡ some s
unfolding start_of
start_of-some none since t s e h = cc
start_of-some (some u) since t s e h = let same : u ≡ t = cc in rw (same, h) refl

-- A transfer keeps the time at which it was first heard of, whatever is reported of it and of
-- other transfers afterwards.
pub on_transfers-keeps_start :
    (k : String) (s : ℕ) (ts : List (Transfer × ℕ)) (t : Transfer) (prev : Dict Transfer)
    → lookup k prev ≡ some t
    → t.started_at ≡ some s
    → (u : Transfer) × (lookup k (on_transfers ts prev) ≡ some u) × (u.started_at ≡ some s)
unfolding on_transfers on_transfer
on_transfers-keeps_start k s [] t prev e h = (t, e, h)
on_transfers-keeps_start k s ((d, since) ∷ ts) t prev e h = elim (Bool-cases (str_eq d.id k)) [
  | inl y ↦
      let same : d.id ≡ k = (eq_iff d.id k).0 y in
      let found : lookup d.id prev ≡ some t = ap (λ i. lookup i prev) same ∙ e in
      on_transfers-keeps_start k s ts (record d { started_at = start_of (lookup d.id prev) since })
        (on_transfer d since prev) (lookup-insert d.id k _ prev ∙ rw y refl)
        (start_of-some (lookup d.id prev) since t s found h)
  | inr n ↦
      on_transfers-keeps_start k s ts t (on_transfer d since prev)
        (lookup-insert d.id k _ prev ∙ rw n e) h
]
