-- ===== src/Panel/Compare.antt =====
-- The order of the containers.
use condui.Prelude.{ℕ, String, Option, none, some, ◌≡◌, refl, arith}
use condui.Panel.{
  Sign, before, same, after, sign, or_sign, rank, states, compare_docker_state,
  compare_docker_status,
}

abbrev pub flip : Sign → Sign
flip before = after
flip same = same
flip after = before

pub sign-flip : (a b : ℕ) → sign b a ≡ flip (sign a b)
unfolding sign
sign-flip a b = ground arith

pub or_sign-flip : (s t : Sign) → or_sign (flip s) (flip t) ≡ flip (or_sign s t)
unfolding or_sign
or_sign-flip before t = refl
or_sign-flip same t = refl
or_sign-flip after t = refl

-- If the browser's comparison of texts turns around with its arguments, then so do the comparisons
-- of the states and of the statuses of containers, as sorting asks of them: neither depends on
-- which of two containers comes first.
pub compare_docker_flip :
    (lower : String → String) (compare_text : String → String → Sign)
    → ((a b : String) → compare_text b a ≡ flip (compare_text a b))
    → (left right : String) (p q : Option ℕ)
    → (compare_docker_state lower compare_text right left
        ≡ flip (compare_docker_state lower compare_text left right))
      × (compare_docker_status lower compare_text q p right left
          ≡ flip (compare_docker_status lower compare_text p q left right))
unfolding compare_docker_state compare_docker_status
compare_docker_flip lower ct h left right p q = (
  rw (sign-flip (rank (lower left) states) (rank (lower right) states), h left right)
      (or_sign-flip _ _),
  status p q,
)
  where
    status :
        (p q : Option ℕ)
        → compare_docker_status lower ct q p right left
          ≡ flip (compare_docker_status lower ct p q left right)
    status none none = h left right
    status none (some b) = refl
    status (some a) none = refl
    status (some a) (some b) = rw (sign-flip a b, h left right) (or_sign-flip _ _)
