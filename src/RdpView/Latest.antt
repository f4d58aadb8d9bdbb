-- ===== src/RdpView/Latest.antt =====
-- The latest frame is painted in the end.
use mathlib.Core.Bool.{true≢false}
use condui.Prelude.{
  sym, ◌≢◌, ap, ◌∙◌, String, true, false, not, ◌||◌, Option, none, some, List, [], ◌∷◌, ◌++◌, ◌≡◌,
  ◌⊎◌, inl, inr, refl, arith, str_eq, leb, if_intro, get_last?, get_last?-append, subst,
}
use condui.RdpView.{
  Frame, View, Event, receives, loads, breaks, fails, cleans, finish, draw_next, draw, set_cursor,
  receive, paint, on_load, on_error, clean_up, step, run, init,
}

-- While the view lives: a frame that is decoded keeps it drawing; the latest frame that was taken
-- waits, or is decoded and nothing waits, or the view is idle, nothing waits and it was painted.
pub record IsLive (v : View) : Type 0 where
  pub busy : (f : Frame) → v.decoding ≡ some f → v.drawing ≡ true
  pub waits :
      v.disposed ≡ false
      → (f : Frame) → v.pending ≡ some f
      → (f.sequence ≡ v.sequence) × (v.drawing ≡ true)
  pub decodes : v.pending ≡ none → (f : Frame) → v.decoding ≡ some f → f.sequence ≡ v.sequence
  pub idle :
      v.disposed ≡ false
      → v.drawing ≡ false
      → (v.sequence ≡ 0) ⊎ (get_last? v.painted ≡ some v.sequence)

-- A frame that was put to wait is drawn at once or waits for the one that is drawn.
draw-IsLive :
    (v : View)
    → ((f : Frame) → v.decoding ≡ some f → v.drawing ≡ true)
    → ((f : Frame) → v.pending ≡ some f → f.sequence ≡ v.sequence)
    → (v.pending ≡ none → (f : Frame) → v.decoding ≡ some f → f.sequence ≡ v.sequence)
    → (v.drawing ≡ false
        → v.pending ≡ none
        → (v.sequence ≡ 0) ⊎ (get_last? v.painted ≡ some v.sequence))
    → IsLive (draw v)
unfolding draw draw_next
draw-IsLive v b w d i =
    if_intro IsLive (v.disposed || v.drawing)
      (λ y. record {
        busy = b;
        waits = λ live f q. (w f q, ground arith);
        decodes = d;
        idle = λ live n. ground arith;
      })
      (λ n. next v.pending refl (ground arith))
  where
    next : (p : Option Frame) → v.pending ≡ p → v.drawing ≡ false → IsLive (draw_next p v)
    next none e n = record {
      busy = b;
      waits = λ live f q. ground arith;
      decodes = d;
      idle = λ live r. i n e;
    }
    next (some f) e n = record {
      busy = λ g q. refl;
      waits = λ live g q. cc;
      decodes = λ r g q.
          let same : f ≡ g = cc in subst (λ (x : Frame). x.sequence ≡ v.sequence) same (w f e);
      idle = λ live r. ground arith;
    }

finish-IsLive : {v : View} → IsLive v → IsLive (finish v)
unfolding finish
finish-IsLive {v} o =
    if_intro IsLive (v.disposed || v.finished) (λ _. o)
      (λ _. record { busy = o.busy; waits = o.waits; decodes = o.decodes; idle = o.idle })

abbrev undecoded : View → View
undecoded v = record v { decoding = none }

undecoded-IsLive : {v : View} → IsLive v → IsLive (undecoded v)
undecoded-IsLive o = record {
  busy = λ f q. cc;
  waits = o.waits;
  decodes = λ r f q. cc;
  idle = o.idle;
}

abbrev drawn : Frame → View → View
drawn f v = record v { decoding = none; drawing = false; painted = v.painted ++ f.sequence ∷ [] }

paint-IsLive : (d : Option Frame) {v : View} → v.decoding ≡ d → IsLive v → IsLive (paint d v)
unfolding paint
paint-IsLive none e o = o
paint-IsLive (some f) {v} e o =
    if_intro IsLive v.disposed (λ _. undecoded-IsLive o)
      (λ live.
        draw-IsLive (drawn f v) (λ g q. cc) (λ g q. (o.waits live g q).0) (λ r g q. cc)
          (λ n r. inr (last r)))
  where
    last : v.pending ≡ none → get_last? (v.painted ++ f.sequence ∷ []) ≡ some v.sequence
    last r = get_last?-append v.painted f.sequence [] ∙ ap some (o.decodes r f e)

set_cursor-IsLive : (c : Option String) {v : View} → IsLive v → IsLive (set_cursor c v)
unfolding set_cursor
set_cursor-IsLive none o = o
set_cursor-IsLive (some c) o =
    if_intro IsLive (str_eq c "") (λ _. o)
      (λ _. record { busy = o.busy; waits = o.waits; decodes = o.decodes; idle = o.idle })

abbrev take_frame : Frame → View → View
take_frame f w = record w { sequence = f.sequence; pending = some f }

receive-IsLive : (id : String) (f : Frame) {v : View} → IsLive v → IsLive (receive id f v)
unfolding receive
receive-IsLive id f {v} o =
    let w : View = set_cursor f.cursor v in
    let ow : IsLive w = set_cursor-IsLive f.cursor o in
    if_intro IsLive (v.disposed || v.finished || not (str_eq f.session_id id)) (λ _. o)
      (λ _.
        if_intro IsLive (str_eq f.image "" || leb f.sequence v.sequence) (λ _. ow)
          (λ _.
            draw-IsLive (take_frame f w) ow.busy
              (λ g q.
                let same : f ≡ g = cc in subst (λ (x : Frame). x.sequence ≡ f.sequence) same refl)
              (λ r g q. cc) (λ n r. cc)))

step-IsLive : (id : String) (e : Event) {v : View} → IsLive v → IsLive (step id e v)
unfolding step on_load on_error clean_up
step-IsLive id (receives f) o = receive-IsLive id f o
step-IsLive id loads {v} o = paint-IsLive v.decoding refl o
step-IsLive id breaks {v} o = finish-IsLive {v = undecoded v} (undecoded-IsLive o)
step-IsLive id fails o = finish-IsLive o
step-IsLive id cleans o = record {
  busy = o.busy;
  waits = λ live. cc;
  decodes = o.decodes;
  idle = λ live. cc;
}

run-IsLive : (id : String) (es : List Event) {v : View} → IsLive v → IsLive (run id es v)
unfolding run
run-IsLive id [] o = o
run-IsLive id (e ∷ es) o = run-IsLive id es (step-IsLive id e o)

init-IsLive : IsLive init
init-IsLive = record {
  busy = λ f q. cc;
  waits = λ live f q. cc;
  decodes = λ r f q. cc;
  idle = λ live n. inl refl;
}

-- Whatever frames arrive and whenever their images are decoded: as soon as the view draws nothing,
-- no frame waits, and the latest frame that was taken is the one that was painted last, unless
-- none was taken.
pub run-shows_latest :
    (id : String) (es : List Event)
    → (run id es init).disposed ≡ false
    → (run id es init).drawing ≡ false
    → ((f : Frame) → (run id es init).pending ≢ some f)
      × (((run id es init).sequence ≡ 0)
          ⊎ (get_last? (run id es init).painted ≡ some (run id es init).sequence))
run-shows_latest id es live n =
    let o = run-IsLive id es init-IsLive in
    (λ f q. absurd (true≢false (sym (o.waits live f q).1 ∙ n)), o.idle live n)
