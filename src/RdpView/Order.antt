-- ===== src/RdpView/Order.antt =====
-- Frames are painted in the order of their numbers.
use condui.Prelude.{
  subst, ℕ, ◌≤◌, ◌<◌, String, false, not, ◌||◌, Option, none, some, List, [], ◌∷◌, ◌++◌, ◌≡◌, refl,
  arith, str_eq, leb, if_intro, All, All-map, All-append,
}
use condui.RdpView.{
  Frame, View, Event, receives, loads, breaks, fails, cleans, finish, draw_next, draw, set_cursor,
  receive, paint, on_load, on_error, clean_up, step, run,
}

-- each number is smaller than all that follow it
abbrev pub Increasing : List ℕ → Type 0
Increasing [] = Unit
Increasing (n ∷ ns) = All (λ m. n < m) ns × Increasing ns

Increasing-concat :
    (ns : List ℕ) (n : ℕ) → Increasing ns → All (λ m. m < n) ns → Increasing (ns ++ n ∷ [])
Increasing-concat [] n h k = (tt, tt)
Increasing-concat (m ∷ ns) n (h, hs) (k, ks) =
    (All-append _ ns (n ∷ []) h (k, tt), Increasing-concat ns n hs ks)

-- The frames that were painted, the one that is decoded and the one that waits have increasing
-- numbers, up to the latest that was taken, which is the one that waits if one does.
pub record IsOrdered (v : View) : Type 0 where
  pub painted : Increasing v.painted
  pub taken : All (λ n. n ≤ v.sequence) v.painted
  pub decoding :
      (f : Frame)
      → v.decoding ≡ some f
      → All (λ n. n < f.sequence) v.painted × (f.sequence ≤ v.sequence)
  pub pending :
      (f : Frame)
      → v.pending ≡ some f
      → (f.sequence ≡ v.sequence)
        × All (λ n. n < f.sequence) v.painted
        × ((g : Frame) → v.decoding ≡ some g → g.sequence < f.sequence)

draw-IsOrdered : {v : View} → IsOrdered v → IsOrdered (draw v)
unfolding draw draw_next
draw-IsOrdered {v} o =
    if_intro IsOrdered (v.disposed || v.drawing) (λ _. o) (λ _. next v.pending refl)
  where
    next : (p : Option Frame) → v.pending ≡ p → IsOrdered (draw_next p v)
    next none e = o
    next (some f) e =
        let (a, b, _) = o.pending f e in
        record {
          painted = o.painted;
          taken = o.taken;
          decoding = λ g q.
              let same : f ≡ g = cc in
              subst (λ (x : Frame). All (λ n. n < x.sequence) v.painted × (x.sequence ≤ v.sequence))
                same (b, ground (arith, a));
          pending = λ g q. cc;
        }

finish-IsOrdered : {v : View} → IsOrdered v → IsOrdered (finish v)
unfolding finish
finish-IsOrdered {v} o =
    if_intro IsOrdered (v.disposed || v.finished) (λ _. o)
      (λ _. record {
        painted = o.painted;
        taken = o.taken;
        decoding = o.decoding;
        pending = o.pending;
      })

-- Without a frame that is decoded the rest stays in order.
undecoded : {v : View} → IsOrdered v → IsOrdered (record v { decoding = none })
undecoded {v} o = record {
  painted = o.painted;
  taken = o.taken;
  decoding = λ g q. cc;
  pending = λ g q. let (a, b, _) = o.pending g q in (a, b, λ h r. cc);
}

-- the view when its frame was drawn, before the next one is
abbrev drawn : Frame → View → View
drawn f v = record v { decoding = none; drawing = false; painted = v.painted ++ f.sequence ∷ [] }

drawn-IsOrdered : (f : Frame) (v : View) → v.decoding ≡ some f → IsOrdered v → IsOrdered (drawn f v)
drawn-IsOrdered f v e o = record {
  painted = Increasing-concat v.painted f.sequence o.painted (o.decoding f e).0;
  taken = All-append _ v.painted (f.sequence ∷ []) o.taken ((o.decoding f e).1, tt);
  decoding = λ g q. cc;
  pending = λ g q.
      let (a, b, c) = o.pending g q in
      (a, All-append _ v.painted (f.sequence ∷ []) b (c f e, tt), λ h r. cc);
}

paint-IsOrdered :
    (d : Option Frame) {v : View} → v.decoding ≡ d → IsOrdered v → IsOrdered (paint d v)
unfolding paint
paint-IsOrdered none e o = o
paint-IsOrdered (some f) {v} e o =
    if_intro IsOrdered v.disposed (λ _. undecoded o)
      (λ _. draw-IsOrdered {v = drawn f v} (drawn-IsOrdered f v e o))

set_cursor-IsOrdered : (c : Option String) {v : View} → IsOrdered v → IsOrdered (set_cursor c v)
unfolding set_cursor
set_cursor-IsOrdered none o = o
set_cursor-IsOrdered (some c) o =
    if_intro IsOrdered (str_eq c "") (λ _. o)
      (λ _. record {
        painted = o.painted;
        taken = o.taken;
        decoding = o.decoding;
        pending = o.pending;
      })

sequence-set_cursor : (c : Option String) (v : View) → (set_cursor c v).sequence ≡ v.sequence
unfolding set_cursor
sequence-set_cursor none v = refl
sequence-set_cursor (some c) v =
    if_intro (λ (w : View). w.sequence ≡ v.sequence) (str_eq c "") (λ _. refl) (λ _. refl)

-- the view that took a frame, before it is drawn
abbrev take_frame : Frame → View → View
take_frame f w = record w { sequence = f.sequence; pending = some f }

take_frame-IsOrdered :
    (f : Frame) (w : View) → w.sequence < f.sequence → IsOrdered w → IsOrdered (take_frame f w)
take_frame-IsOrdered f w h o = record {
  painted = o.painted;
  taken = All-map _ _ w.painted (λ n k. omega (arith, h, k)) o.taken;
  decoding = λ g q. ((o.decoding g q).0, omega (arith, h, (o.decoding g q).1));
  pending = λ g q.
      let same : f ≡ g = cc in
      subst
        (λ (x : Frame).
          (x.sequence ≡ f.sequence)
          × All (λ n. n < x.sequence) w.painted
          × ((y : Frame) → w.decoding ≡ some y → y.sequence < x.sequence))
        same
        (
          refl,
          All-map _ _ w.painted (λ n k. omega (arith, h, k)) o.taken,
          λ y r. omega (arith, h, (o.decoding y r).1),
        );
}

receive-IsOrdered : (id : String) (f : Frame) {v : View} → IsOrdered v → IsOrdered (receive id f v)
unfolding receive
receive-IsOrdered id f {v} o =
    let w : View = set_cursor f.cursor v in
    let ow : IsOrdered w = set_cursor-IsOrdered f.cursor o in
    if_intro IsOrdered (v.disposed || v.finished || not (str_eq f.session_id id)) (λ _. o)
      (λ _.
        if_intro IsOrdered (str_eq f.image "" || leb f.sequence v.sequence) (λ _. ow)
          (λ n.
            draw-IsOrdered {v = take_frame f w}
              (take_frame-IsOrdered f w (ground (arith, n, sequence-set_cursor f.cursor v)) ow)))

step-IsOrdered : (id : String) (e : Event) {v : View} → IsOrdered v → IsOrdered (step id e v)
unfolding step on_load on_error clean_up
step-IsOrdered id (receives f) o = receive-IsOrdered id f o
step-IsOrdered id loads {v} o = paint-IsOrdered v.decoding refl o
step-IsOrdered id breaks {v} o = finish-IsOrdered {v = record v { decoding = none }} (undecoded o)
step-IsOrdered id fails o = finish-IsOrdered o
step-IsOrdered id cleans o = record {
  painted = o.painted;
  taken = o.taken;
  decoding = o.decoding;
  pending = o.pending;
}

-- Whatever frames arrive, in whatever order, and however long each takes to decode: frames are
-- painted with increasing numbers, so that none is painted twice or after a newer one.
pub run-IsOrdered :
    (id : String) (es : List Event) {v : View} → IsOrdered v → IsOrdered (run id es v)
unfolding run
run-IsOrdered id [] o = o
run-IsOrdered id (e ∷ es) o = run-IsOrdered id es (step-IsOrdered id e o)
