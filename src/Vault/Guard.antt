-- ===== src/Vault/Guard.antt =====
-- What guards the vault.
use condui.Prelude.{
  ◌&&◌, ℕ, ◌≤◌, String, true, not, Option, none, some, List, [], ◌∷◌, ◌++◌, ◌≡◌, ◌≢◌, if◌then◌else◌,
  if_intro, leb, str_eq, All, All-append, arith,
}
use condui.Vault.{
  Mode, loading, setup, unlock, too_short, mismatch, Call, setup_master_password, unlock_vault,
  Vault, is_busy, handle_setup, handle_unlock, answered, Event, is_setup, type_password,
  type_confirm, submit, answer, submitted, answer_to, on_event, run,
}

module _ (length : String → ℕ) where
  -- a password that may be set up
  abbrev pub IsAllowed : Call → Type 0
  IsAllowed (setup_master_password p) = 8 ≤ length p
  IsAllowed (unlock_vault p) = Unit

  abbrev pub IsSent : Option Call → Type 0
  IsSent none = Unit
  IsSent (some c) = IsAllowed c

  -- Only allowed passwords are sent and taken, and the program has opened only after the backend
  -- took one.
  pub record IsGuarded (v : Vault) : Type 0 where
    pub sent : IsSent v.call
    pub taken : All IsAllowed v.accepted
    pub opened : v.opened ≡ true → v.accepted ≢ []

  -- What is sent by a form is the password that is typed: to set it up it has at least 8 units and
  -- was typed twice, and the error says which of the two fails.
  pub handle_setup_lem :
      (v : Vault)
      → ((handle_setup length v).call ≡ (
          if leb 8 (length v.password) && str_eq v.password v.confirm
          then some (setup_master_password v.password)
          else v.call))
        × ((handle_setup length v).error ≡ (
            if not (leb 8 (length v.password))
            then some too_short
            else if str_eq v.password v.confirm
            then none
            else some mismatch))
  unfolding handle_setup
  handle_setup_lem v = (ground arith, ground arith)

  append_ne : {A : Type 0} (xs : List A) (y : A) → xs ++ y ∷ [] ≢ []
  append_ne [] y = λ e. cc
  append_ne (x ∷ xs) y = λ e. cc

  answered-IsGuarded :
      (c : Call) (a : Option String) (v : Vault)
      → IsAllowed c
      → IsGuarded v
      → IsGuarded (answered c a v)
  unfolding answered
  answered-IsGuarded c none v h g = record {
    sent = tt;
    taken = All-append IsAllowed v.accepted _ g.taken (h, tt);
    opened = λ _. append_ne v.accepted c;
  }
  answered-IsGuarded c (some e) v h g = record { sent = tt; taken = g.taken; opened = g.opened }

  setup-IsGuarded : (v : Vault) → IsGuarded v → IsGuarded (handle_setup length v)
  unfolding handle_setup
  setup-IsGuarded v g =
      if_intro IsGuarded (not (leb 8 (length v.password)))
        (λ _. record { sent = g.sent; taken = g.taken; opened = g.opened })
        (λ long.
          if_intro IsGuarded (not (str_eq v.password v.confirm))
            (λ _. record { sent = g.sent; taken = g.taken; opened = g.opened })
            (λ _. record { sent = ground (arith, long); taken = g.taken; opened = g.opened }))

  submitted-IsGuarded : (m : Mode) (v : Vault) → IsGuarded v → IsGuarded (submitted length m v)
  unfolding submitted handle_unlock
  submitted-IsGuarded loading v g = g
  submitted-IsGuarded setup v g = setup-IsGuarded v g
  submitted-IsGuarded unlock v g = record { sent = tt; taken = g.taken; opened = g.opened }

  answer_to-IsGuarded :
      (c : Option Call) (a : Option String) (v : Vault)
      → IsSent c
      → IsGuarded v
      → IsGuarded (answer_to length c a v)
  unfolding answer_to
  answer_to-IsGuarded none a v h g = g
  answer_to-IsGuarded (some c) a v h g = answered-IsGuarded c a v h g

  on_event-IsGuarded : (e : Event) (v : Vault) → IsGuarded v → IsGuarded (on_event length e v)
  unfolding on_event
  on_event-IsGuarded (is_setup a) v g = record { sent = g.sent; taken = g.taken; opened = g.opened }
  on_event-IsGuarded (type_password p) v g = record {
    sent = g.sent;
    taken = g.taken;
    opened = g.opened;
  }
  on_event-IsGuarded (type_confirm p) v g = record {
    sent = g.sent;
    taken = g.taken;
    opened = g.opened;
  }
  on_event-IsGuarded submit v g =
      if_intro IsGuarded (is_busy v.call) (λ _. g) (λ _. submitted-IsGuarded v.mode v g)
  on_event-IsGuarded (answer a) v g = answer_to-IsGuarded v.call a v g.sent g

  -- Whatever is typed, submitted and answered, in any order: only passwords of at least 8 units are
  -- sent and taken to set up the vault, and the program has opened only after the backend took a
  -- password.
  pub run-IsGuarded : (es : List Event) (v : Vault) → IsGuarded v → IsGuarded (run length es v)
  unfolding run
  run-IsGuarded [] v g = g
  run-IsGuarded (e ∷ es) v g = run-IsGuarded es (on_event length e v) (on_event-IsGuarded e v g)
