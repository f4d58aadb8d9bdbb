-- ===== src/Sessions/Connecting.antt =====
-- The counters of connection attempts.
use condui.Prelude.{
  ℕ, zero, suc, ◌+◌, ◌-◌, String, Bool, true, false, Option, none, some, ◌≡◌, ◌≢◌, refl, arith,
  str_eq, eq_iff, eq_refl, if◌then◌else◌, Dict, lookup, lookup-insert, lookup-erase,
}
use condui.Sessions.{count_of, set_count, update_connecting}

-- how many attempts of a key are on their way
pub pending : String → Dict ℕ → ℕ
pending k m = count_of (lookup k m)

-- what is stored for a count
stored : ℕ → Option ℕ
stored zero = none
stored (suc n) = some (suc n)

count_of-stored : (n : ℕ) → count_of (stored n) ≡ n
unfolding count_of stored
count_of-stored zero = refl
count_of-stored (suc n) = refl

stored-ne-zero : (n : ℕ) → stored n ≢ some 0
unfolding stored
stored-ne-zero zero = λ e. cc
stored-ne-zero (suc n) = λ e. ground arith

lookup-set_count :
    (k j : String) (n : ℕ) (m : Dict ℕ)
    → lookup j (set_count k n m) ≡ (if str_eq k j then stored n else lookup j m)
unfolding set_count stored
lookup-set_count k j zero m = lookup-erase k j m
lookup-set_count k j (suc n) m = lookup-insert k j (suc n) m

pending-set_count :
    (k j : String) (n : ℕ) (m : Dict ℕ)
    → pending j (set_count k n m) ≡ (if str_eq k j then n else pending j m)
unfolding pending
pending-set_count k j n m = rw lookup-set_count (ground (arith, count_of-stored n))

set_count-ne-zero : (k : String) (n : ℕ) (m : Dict ℕ) → lookup k (set_count k n m) ≢ some 0
set_count-ne-zero k n m = rw (lookup-set_count, eq_refl) (stored-ne-zero n)

-- Starting an attempt adds one to its own counter and ending one takes one off, which stops at 0;
-- no other counter changes, and a counter that is shown is never 0, so that a key is present
-- exactly while an attempt of it is on its way.
pub pending-update_connecting :
    (k j : String) (start : Bool) (m : Dict ℕ)
    → (pending j (update_connecting k start m) ≡ (
        if str_eq k j then (if start then pending j m + 1 else pending j m - 1) else pending j m))
      × (lookup k (update_connecting k start m) ≢ some 0)
unfolding update_connecting
pending-update_connecting k j true m =
    (rw pending-set_count (unfold pending in ground (arith, eq_iff k j)), set_count-ne-zero k _ m)
pending-update_connecting k j false m =
    (rw pending-set_count (unfold pending in ground (arith, eq_iff k j)), set_count-ne-zero k _ m)
