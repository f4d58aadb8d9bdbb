-- ===== src/RdpInput/Keys.antt =====
-- A key goes up as it went down, a release is the last thing sent, and a point lies on the canvas.
use condui.Prelude.{
  Option, Bool-cases, inl, inr, ◌≢◌, if_intro, if◌then◌else◌, subst, ◌<◌, eq_iff, ℕ, String, Bool,
  true, false, ◌||◌, List, [], ◌∷◌, ◌++◌, map, ◌≡◌, refl, ap, sym, ◌∙◌, arith, str_eq, eq_refl,
  none, some, concat, get_last?, append_assoc, append-nil, lookup, insert, erase, lookup-insert,
  lookup-erase,
}
use condui.Prelude.Int.{ℤ, pos, negsuc}
use condui.RdpInput.Queue.{queue-release}
use condui.RdpInput.{
  Canvas, clamp, position, Event, press, release_all, Pad, flush, push, release, push_all,
  key_inputs, key_down, key_down_on, key_down_new, key_name, key_up, key_up_on, KeyEvent, dispose,
  Input,
}
use condui.RdpInput.Order.{
  enqueue-solid, flush_queue_frame, get_last?-trace-push, push_frame, Arrival, event, frame,
  settled, arrive, settle_frame, trace, trace-flush, trace-push,
}

trace-press :
    (i : Input) (down : Bool) (p : Pad)
    → p.disposed ≡ false
    → trace (push (press i down) p) ≡ trace p ++ press i down ∷ []
unfolding trace
trace-press i down p d =
    trace-push (press i down) p d
    ∙ rw (enqueue-solid (press i down) p.queue refl) (sym (append_assoc (concat p.chain) p.queue _))

abbrev pub presses : Bool → List Input → List Event
presses down is = map (λ i. press i down) is

trace-push_all :
    (down : Bool) (is : List Input) (p : Pad)
    → p.disposed ≡ false
    → trace (push_all down is p) ≡ trace p ++ presses down is
unfolding push_all
trace-push_all down [] p d = rw append-nil refl
trace-push_all down (i ∷ is) p d =
    trace-push_all down is (push (press i down) p) ((push_frame (press i down) p).0 ∙ d)
    ∙ ap (◌++ presses down is) (trace-press i down p d)
    ∙ append_assoc (trace p) _ _

push_all_frame :
    (down : Bool) (is : List Input) (p : Pad)
    → ((push_all down is p).disposed ≡ p.disposed) × ((push_all down is p).pressed ≡ p.pressed)
unfolding push_all
push_all_frame down [] p = (refl, refl)
push_all_frame down (i ∷ is) p =
    let (d, k) = push_all_frame down is (push (press i down) p) in
    let (d', k') = push_frame (press i down) p in (d ∙ d', k ∙ k')

-- The first keydown of a key sends its inputs and remembers them under the key's name.
key_down_first :
    (e : KeyEvent) (p : Pad) (is : List Input)
    → p.disposed ≡ false
    → (e.is_composing || str_eq e.key "Dead") ≡ false
    → lookup (key_name e) p.pressed ≡ none
    → key_inputs e ≡ some is
    → (trace (key_down e p) ≡ trace p ++ presses true is)
      × ((key_down e p).disposed ≡ false)
      × ((key_down e p).pressed ≡ insert (key_name e) is p.pressed)
unfolding key_down trace
key_down_first e p is d c n i =
    let q : Pad = record p { pressed = insert (key_name e) is p.pressed } in
    let step : key_down e p ≡ push_all true is q = rw (c, n, key_down_on, i, key_down_new) refl in
    rw step
      (trace-push_all true is q d, (push_all_frame true is q).0 ∙ d, (push_all_frame true is q).1)

-- A keyup sends the inputs that are remembered for the key, and forgets the key.
key_up_held :
    (e : KeyEvent) (p : Pad) (is : List Input)
    → p.disposed ≡ false
    → lookup (key_name e) p.pressed ≡ some is
    → (trace (key_up e p) ≡ trace p ++ presses false is)
      × ((key_up e p).pressed ≡ erase (key_name e) p.pressed)
unfolding key_up trace
key_up_held e p is d h =
    let q : Pad = record p { pressed = erase (key_name e) p.pressed } in
    let step : key_up e p ≡ push_all false is q = rw (h, key_up_on) refl in
    rw step (trace-push_all false is q d, (push_all_frame false is q).1)

-- What may come while a key is held: events of the pointer and the wheel, frames, answers to
-- batches, keydowns, the key's own repeats too, and keyups.
pub data Meanwhile : Type 0 where
  arrives : Arrival → Meanwhile
  downs : KeyEvent → Meanwhile
  ups : KeyEvent → Meanwhile

unfoldable pub meanwhile : List Meanwhile → Pad → Pad
meanwhile [] p = p
meanwhile (arrives a ∷ ms) p = meanwhile ms (arrive a p)
meanwhile (downs e ∷ ms) p = meanwhile ms (key_down e p)
meanwhile (ups e ∷ ms) p = meanwhile ms (key_up e p)

-- no keyup of this key
abbrev pub IsHeldIn : String → List Meanwhile → Type 0
IsHeldIn k [] = Unit
IsHeldIn k (arrives a ∷ ms) = IsHeldIn k ms
IsHeldIn k (downs e ∷ ms) = IsHeldIn k ms
IsHeldIn k (ups e ∷ ms) = (key_name e ≢ k) × IsHeldIn k ms

-- the view is alive and holds the key `k`
record Holds (k : String) (is : List Input) (p : Pad) : Type 0 where
  live : p.disposed ≡ false
  held : lookup k p.pressed ≡ some is

same_frame :
    {k : String} {is : List Input} {p q : Pad}
    → (q.disposed ≡ p.disposed) × (q.pressed ≡ p.pressed)
    → Holds k is p
    → Holds k is q
same_frame {k} (d, h) v = record { live = d ∙ v.live; held = ap (lookup k) h ∙ v.held }

arrive-Holds :
    {k : String} {is : List Input} (a : Arrival) (p : Pad) → Holds k is p → Holds k is (arrive a p)
unfolding arrive flush
arrive-Holds (event e) p v = same_frame (push_frame e p) v
arrive-Holds frame p v = same_frame (flush_queue_frame p.queue p) v
arrive-Holds (settled ok) p v = same_frame ((settle_frame ok p).0, (settle_frame ok p).1) v

key_down_new-Holds :
    {k : String} {is : List Input} (o : Option (List Input)) (name : String) (p : Pad)
    → lookup name p.pressed ≡ none
    → Holds k is p
    → Holds k is (key_down_new o name p)
unfolding key_down_new
key_down_new-Holds none name p n v = v
key_down_new-Holds {k} {is} (some new) name p n v =
    same_frame {p = record p { pressed = insert name new p.pressed }}
      (push_all_frame true new (record p { pressed = insert name new p.pressed }))
      (record { live = v.live; held = lookup-insert name k new p.pressed ∙ rw differ v.held })
  where
    differ : str_eq name k ≡ false
    differ = elim (Bool-cases (str_eq name k)) [
      | inl e ↦
          let q : name ≡ k = (eq_iff name k).0 e in
          let z : lookup k p.pressed ≡ none = subst (λ i. lookup i p.pressed ≡ none) q n in
          let y : lookup k p.pressed ≡ some is = v.held in cc
      | inr e ↦ e
    ]

key_down_on-Holds :
    {k : String} {is : List Input} (o : Option (List Input)) (e : KeyEvent) (p : Pad)
    → lookup (key_name e) p.pressed ≡ o
    → Holds k is p
    → Holds k is (key_down_on o e p)
unfolding key_down_on
key_down_on-Holds (some held) e p n v = same_frame (push_all_frame true held p) v
key_down_on-Holds none e p n v = key_down_new-Holds (key_inputs e) (key_name e) p n v

key_down-Holds :
    {k : String} {is : List Input} (e : KeyEvent) (p : Pad)
    → Holds k is p
    → Holds k is (key_down e p)
unfolding key_down
key_down-Holds {k} {is} e p v =
    if_intro (Holds k is) (e.is_composing || str_eq e.key "Dead") (λ _. v)
      (λ _. key_down_on-Holds (lookup (key_name e) p.pressed) e p refl v)

key_up_on-Holds :
    {k : String} {is : List Input} (o : Option (List Input)) (name : String) (p : Pad)
    → name ≢ k
    → Holds k is p
    → Holds k is (key_up_on o name p)
unfolding key_up_on
key_up_on-Holds none name p n v = v
key_up_on-Holds {k} {is} (some old) name p n v =
    same_frame {p = record p { pressed = erase name p.pressed }}
      (push_all_frame false old (record p { pressed = erase name p.pressed }))
      (record { live = v.live; held = lookup-erase name k p.pressed ∙ rw differ v.held })
  where
    differ : str_eq name k ≡ false
    differ = ground (arith, eq_iff name k, n)

meanwhile-Holds :
    {k : String} {is : List Input} (ms : List Meanwhile) (p : Pad)
    → IsHeldIn k ms
    → Holds k is p
    → Holds k is (meanwhile ms p)
unfolding meanwhile key_up
meanwhile-Holds [] p a v = v
meanwhile-Holds (arrives x ∷ ms) p a v = meanwhile-Holds ms _ a (arrive-Holds x p v)
meanwhile-Holds (downs e ∷ ms) p a v = meanwhile-Holds ms _ a (key_down-Holds e p v)
meanwhile-Holds (ups e ∷ ms) p (n, a) v =
    meanwhile-Holds ms _ a (key_up_on-Holds (lookup (key_name e) p.pressed) (key_name e) p n v)

-- A key that was not held goes down, then come events of the pointer, frames, answers to batches
-- and other keys, and repeats of this one, but no keyup of it and no release of all keys; and then
-- the same key goes up, with any text and modifiers. The keyup sends exactly the inputs that the
-- first keydown sent, and of the keys that are held it forgets this one and no other.
pub key_up-key_down :
    (e e' : KeyEvent) (ms : List Meanwhile) (p : Pad) (is : List Input)
    → p.disposed ≡ false
    → (e.is_composing || str_eq e.key "Dead") ≡ false
    → lookup (key_name e) p.pressed ≡ none
    → key_inputs e ≡ some is
    → key_name e' ≡ key_name e
    → IsHeldIn (key_name e) ms
    → let q = meanwhile ms (key_down e p) in
      (trace (key_down e p) ≡ trace p ++ presses true is)
      × (trace (key_up e' q) ≡ trace q ++ presses false is)
      × ((k : String)
          → lookup k (key_up e' q).pressed
            ≡ (if str_eq (key_name e) k then none else lookup k q.pressed))
key_up-key_down e e' ms p is d c n i same apart =
    let (t, live, held) = key_down_first e p is d c n i in
    let start : Holds (key_name e) is (key_down e p) = record {
      live = live;
      held = rw (held, lookup-insert, eq_refl) refl;
    } in
    let v : Holds (key_name e) is (meanwhile ms (key_down e p)) =
      meanwhile-Holds ms (key_down e p) apart start in
    let (u, gone) =
      key_up_held e' (meanwhile ms (key_down e p)) is v.live
        (ap (λ k. lookup k (meanwhile ms (key_down e p)).pressed) same ∙ v.held) in
    (t, u, λ k. rw (gone, same) (lookup-erase (key_name e) k _))

dispose_lem_push : (e : Event) (p : Pad) → p.disposed ≡ true → push e p ≡ p
unfolding push
dispose_lem_push e p d = rw d refl

last_of_release : (p : Pad) → p.disposed ≡ false → get_last? (trace (release p)) ≡ some release_all
unfolding release
last_of_release p d =
    let q : Pad = push release_all (record p { pressed = [] }) in
    rw (trace-flush q) (get_last?-trace-push release_all (record p { pressed = [] }) d)

pressed-flush : (p : Pad) → (flush p).pressed ≡ p.pressed
unfolding flush
pressed-flush p = (flush_queue_frame p.queue p).1

pressed-release : (p : Pad) → (release p).pressed ≡ []
unfolding release
pressed-release p =
    let q : Pad = record p { pressed = [] } in
    pressed-flush (push release_all q) ∙ (push_frame release_all q).1

trace-release : (p : Pad) → trace (release p) ≡ concat (release p).chain
unfolding trace
trace-release p = rw (queue-release p, append-nil) refl

-- `release` forgets every key and sends all that waits, a release of all keys last; after
-- `dispose` nothing more is queued or sent.
pub release-sends_all :
    (e : Event) (p : Pad)
    → p.disposed ≡ false
    → ((release p).pressed ≡ [])
      × ((release p).queue ≡ [])
      × (get_last? (concat (release p).chain) ≡ some release_all)
      × (push e (dispose p) ≡ dispose p)
unfolding dispose
release-sends_all e p d = (
  pressed-release p,
  queue-release p,
  subst (λ t. get_last? t ≡ some release_all) (trace-release p) (last_of_release p d),
  dispose_lem_push e (dispose p) refl,
)

-- Coordinates stay on the canvas.
clamp-lt : (size : ℕ) (z : ℤ) → 0 < size → clamp size z < size
unfolding clamp
clamp-lt size (pos n) h = ground arith
clamp-lt size (negsuc n) h = h

-- On a canvas that is not empty every reported position lies on the canvas, wherever the pointer
-- is, and a coordinate that lies on it is reported as it is.
pub position_bounds :
    (c : Canvas) (x y : ℤ)
    → 0 < c.width
    → 0 < c.height
    → ((position c x y).x < c.width)
      × ((position c x y).y < c.height)
      × ((n : ℕ) → n < c.width → x ≡ pos n → (position c x y).x ≡ n)
unfolding position
position_bounds c x y w h =
    (clamp-lt c.width x w, clamp-lt c.height y h, λ n l e. rw e (clamp_on c.width n l))
  where
    clamp_on : (size n : ℕ) → n < size → clamp size (pos n) ≡ n
    clamp_on size n l = unfold clamp in ground arith
