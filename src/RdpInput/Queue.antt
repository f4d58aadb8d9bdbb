-- ===== src/RdpInput/Queue.antt =====
-- The queue of input events: bounds, what is coalesced, and that nothing is lost or reordered.
use condui.Prelude.{
  ltb, zero, lookup, str_eq, String, Dict, ℕ, suc, ◌+◌, ◌≤◌, ◌<◌, Bool, true, false, not, ◌&&◌,
  ◌||◌, List, [], ◌∷◌, ◌≡◌, ◌≢◌, refl, arith, leb, length, All, All-append, Option, none, some,
  if_intro,
}
use condui.Prelude.Int.{ℤ, pos, negsuc}
use condui.RdpInput.{
  Canvas, KeyEvent, pointer_move, pointer_down, pointer_up, wheel_turn, settle, key_down, key_up,
  dispose, init, Event, press, release_all, Pad, init, flush_queue, flush, is_move, enqueue,
  max_batch, push, release, push_all, key_inputs, key_down, key_down_on, key_down_new, key_name,
  key_up, key_up_on, KeyEvent, dispose, Input,
}

-- no two moves in a row
pub calm : List Event → Bool
calm [] = true
calm (d ∷ []) = true
calm (d ∷ e ∷ q) = not (is_move d && is_move e) && calm (e ∷ q)

-- A batch of the chain is not empty, has at most `max_batch` events and no two moves in a row.
abbrev pub IsBatch : List Event → Type 0
IsBatch es = (es ≢ []) × (length es ≤ max_batch) × (calm es ≡ true)

-- Between handlers the queue is short and has no two moves in a row, a queue that is not empty has a frame scheduled, and every
-- batch that was sent is within bounds.
pub record PadIsValid (p : Pad) : Type 0 where
  pub short : length p.queue < max_batch
  pub merged : calm p.queue ≡ true
  pub scheduled : p.queue ≢ [] → p.animation ≡ true
  pub batches : All IsBatch p.chain

length-enqueue : (e : Event) (q : List Event) → length (enqueue e q) ≤ length q + 1
unfolding enqueue
length-enqueue e [] = omega arith
length-enqueue e (d ∷ []) = ground arith
length-enqueue e (d ∷ f ∷ q) = omega (arith, length-enqueue e (f ∷ q))

enqueue-ne-nil : (e : Event) (q : List Event) → enqueue e q ≢ []
unfolding enqueue
enqueue-ne-nil e [] = λ h. cc
enqueue-ne-nil e (d ∷ []) = ground arith
enqueue-ne-nil e (d ∷ f ∷ q) = λ h. cc

calm-enqueue : (e : Event) (q : List Event) → calm q ≡ true → calm (enqueue e q) ≡ true
unfolding enqueue calm
calm-enqueue e [] h = refl
calm-enqueue e (d ∷ []) h = ground arith
calm-enqueue e (d ∷ f ∷ []) h = ground arith
calm-enqueue e (d ∷ f ∷ g ∷ q) h = ground (arith, calm-enqueue e (f ∷ g ∷ q))

flush_queue-PadIsValid :
    (q : List Event) (p : Pad)
    → length q ≤ max_batch
    → calm q ≡ true
    → All IsBatch p.chain
    → p.queue ≡ q
    → PadIsValid (flush_queue q p)
unfolding flush_queue calm
flush_queue-PadIsValid [] p l c b e = record {
  short = rw e (omega arith);
  merged = rw e refl;
  scheduled = λ n. absurd (n e);
  batches = b;
}
flush_queue-PadIsValid (d ∷ q) p l c b e = record {
  short = omega arith;
  merged = refl;
  scheduled = λ n. absurd (n refl);
  batches = All-append _ p.chain _ b ((λ h. cc, l, c), tt);
}

flush-PadIsValid :
    (p : Pad)
    → length p.queue ≤ max_batch
    → calm p.queue ≡ true
    → All IsBatch p.chain
    → PadIsValid (flush p)
unfolding flush
flush-PadIsValid p l c b = flush_queue-PadIsValid p.queue p l c b refl

pub push-PadIsValid : (e : Event) {p : Pad} → PadIsValid p → PadIsValid (push e p)
unfolding push
push-PadIsValid e {p} v =
    let calm_q = calm-enqueue e p.queue v.merged in
    if_intro PadIsValid p.disposed (λ _. v)
      λ _.
        if_intro PadIsValid (leb max_batch (length (enqueue e p.queue)))
          (λ l.
            flush-PadIsValid _ (omega (arith, length-enqueue e p.queue, v.short)) calm_q v.batches)
          (λ l. record {
            short = ground arith;
            merged = calm_q;
            scheduled = λ _. refl;
            batches = v.batches;
          })

pub push_all-PadIsValid :
    (down : Bool) (is : List Input) {p : Pad} → PadIsValid p → PadIsValid (push_all down is p)
unfolding push_all
push_all-PadIsValid down [] v = v
push_all-PadIsValid down (i ∷ is) v = push_all-PadIsValid down is (push-PadIsValid (press i down) v)

set_pressed-PadIsValid :
    {p : Pad} (m : Dict (List Input)) → PadIsValid p → PadIsValid (record p { pressed = m })
set_pressed-PadIsValid m v = record {
  short = v.short;
  merged = v.merged;
  scheduled = v.scheduled;
  batches = v.batches;
}

pub flush-IsValid_again : {p : Pad} → PadIsValid p → PadIsValid (flush p)
flush-IsValid_again {p} v = flush-PadIsValid p (omega (arith, v.short)) v.merged v.batches

pub release-PadIsValid : {p : Pad} → PadIsValid p → PadIsValid (release p)
unfolding release
release-PadIsValid v =
    flush-IsValid_again (push-PadIsValid release_all (set_pressed-PadIsValid [] v))

key_down_new-PadIsValid :
    (o : Option (List Input)) (k : String) {p : Pad}
    → PadIsValid p
    → PadIsValid (key_down_new o k p)
unfolding key_down_new
key_down_new-PadIsValid none k v = v
key_down_new-PadIsValid (some is) k v = push_all-PadIsValid true is (set_pressed-PadIsValid _ v)

key_down_on-PadIsValid :
    (o : Option (List Input)) (e : KeyEvent) {p : Pad}
    → PadIsValid p
    → PadIsValid (key_down_on o e p)
unfolding key_down_on
key_down_on-PadIsValid (some held) e v = push_all-PadIsValid true held v
key_down_on-PadIsValid none e v = key_down_new-PadIsValid (key_inputs e) (key_name e) v

key_up_on-PadIsValid :
    (o : Option (List Input)) (k : String) {p : Pad} → PadIsValid p → PadIsValid (key_up_on o k p)
unfolding key_up_on
key_up_on-PadIsValid none k v = v
key_up_on-PadIsValid (some is) k v = push_all-PadIsValid false is (set_pressed-PadIsValid _ v)

pub key_down-PadIsValid : (e : KeyEvent) {p : Pad} → PadIsValid p → PadIsValid (key_down e p)
unfolding key_down
key_down-PadIsValid e {p} v =
    if_intro PadIsValid (e.is_composing || str_eq e.key "Dead") (λ _. v)
      (λ _. key_down_on-PadIsValid (lookup (key_name e) p.pressed) e v)

pub key_up-PadIsValid : (e : KeyEvent) {p : Pad} → PadIsValid p → PadIsValid (key_up e p)
unfolding key_up
key_up-PadIsValid e {p} v = key_up_on-PadIsValid (lookup (key_name e) p.pressed) (key_name e) v

flush_queue-queue : (q : List Event) (p : Pad) → p.queue ≡ q → (flush_queue q p).queue ≡ []
unfolding flush_queue
flush_queue-queue [] p e = e
flush_queue-queue (d ∷ q) p e = refl

pub queue-release : (p : Pad) → (release p).queue ≡ []
unfolding release flush
queue-release p = flush_queue-queue _ (push release_all (record p { pressed = [] })) refl

pub dispose-PadIsValid : {p : Pad} → PadIsValid p → PadIsValid (dispose p)
unfolding dispose
dispose-PadIsValid {p} v = record {
  short = (release-PadIsValid v).short;
  merged = (release-PadIsValid v).merged;
  scheduled = λ n. absurd (n (queue-release p));
  batches = (release-PadIsValid v).batches;
}

settle-PadIsValid : (ok : Bool) {p : Pad} → PadIsValid p → PadIsValid (settle ok p)
unfolding settle
settle-PadIsValid ok {p} v =
    if_intro PadIsValid (ok || p.disposed) (λ _. v)
      (λ _. record {
        short = v.short;
        merged = v.merged;
        scheduled = v.scheduled;
        batches = v.batches;
      })

-- The handlers while the listeners are bound, the scheduled frame, the answers of the chain, and
-- `release`, which the view calls.
pub data Step (p : Pad) : Pad → Type 0 where
  moves : (c : Canvas) (x y : ℤ) → p.disposed ≡ false → Step p (pointer_move c x y p)
  downs : (c : Canvas) (b : ℕ) (x y : ℤ) → p.disposed ≡ false → Step p (pointer_down c b x y p)
  ups : (c : Canvas) (b : ℕ) (x y : ℤ) → p.disposed ≡ false → Step p (pointer_up c b x y p)
  turns : (c : Canvas) (d x y : ℤ) → p.disposed ≡ false → Step p (wheel_turn c d x y p)
  key_downs : (e : KeyEvent) → p.disposed ≡ false → Step p (key_down e p)
  key_ups : (e : KeyEvent) → p.disposed ≡ false → Step p (key_up e p)
  releases : Step p (release p)
  frames : p.animation ≡ true → Step p (flush p)
  settles : (ok : Bool) → Step p (settle ok p)
  disposes : Step p (dispose p)

pub data Reach (p : Pad) : Pad → Type 0 where
  here : Reach p p
  next : {q r : Pad} → Reach p q → Step q r → Reach p r

Step-PadIsValid : {p q : Pad} → Step p q → PadIsValid p → PadIsValid q
unfolding pointer_move pointer_down pointer_up wheel_turn
Step-PadIsValid (moves c x y d) v = push-PadIsValid _ v
Step-PadIsValid {p} (downs c b x y d) v =
    if_intro PadIsValid (ltb 2 b) (λ _. v) (λ _. push-PadIsValid _ v)
Step-PadIsValid {p} (ups c b x y d) v =
    if_intro PadIsValid (leb b 2) (λ _. push-PadIsValid _ v) (λ _. v)
Step-PadIsValid (turns c (pos zero) x y d) v = v
Step-PadIsValid (turns c (pos (suc n)) x y d) v = push-PadIsValid _ v
Step-PadIsValid (turns c (negsuc n) x y d) v = push-PadIsValid _ v
Step-PadIsValid (key_downs e d) v = key_down-PadIsValid e v
Step-PadIsValid (key_ups e d) v = key_up-PadIsValid e v
Step-PadIsValid releases v = release-PadIsValid v
Step-PadIsValid (frames a) v = flush-IsValid_again v
Step-PadIsValid (settles ok) v = settle-PadIsValid ok v
Step-PadIsValid disposes v = dispose-PadIsValid v

pub init-PadIsValid : PadIsValid init
unfolding calm
init-PadIsValid = record {
  short = omega arith;
  merged = refl;
  scheduled = λ n. absurd (n refl);
  batches = tt;
}

-- In every state that the view reaches, fewer than 128 events wait, no two moves stand in a row
-- in the queue or in a batch, waiting events have a frame scheduled, and every batch that was
-- sent holds between 1 and 128 events.
pub Reach-PadIsValid : {p : Pad} → Reach init p → PadIsValid p
Reach-PadIsValid here = init-PadIsValid
Reach-PadIsValid (next r st) = Step-PadIsValid st (Reach-PadIsValid r)
