-- ===== src/RdpInput/Order.antt =====
-- Nothing that is pushed is lost or reordered.
use condui.Prelude.{
  Bool, ◌||◌, get_last?-append_some, get_last?-cons_some, false, not, List, [], ◌∷◌, ◌++◌, ◌≡◌,
  refl, ap, sym, ◌∙◌, inl, inr, arith, leb, Bool-cases, length, filter, filter-append, some,
  if_intro, concat, concat-append, get_last?, append_assoc, append-nil,
}
use condui.RdpInput.{settle, Event, Pad, flush_queue, flush, is_move, enqueue, max_batch, push}

-- All that was sent or waits, in order.
unfoldable pub trace : Pad → List Event
trace p = concat p.chain ++ p.queue

abbrev pub solid : List Event → List Event
solid = filter (λ e. not (is_move e))

pub solid-enqueue : (e : Event) (q : List Event) → solid (enqueue e q) ≡ solid q ++ solid (e ∷ [])
unfolding enqueue
solid-enqueue e [] = refl
solid-enqueue e (d ∷ []) = ground arith
solid-enqueue e (d ∷ f ∷ q) = elim (Bool-cases (is_move d)) [
  | inl h ↦ rw h (solid-enqueue e (f ∷ q))
  | inr h ↦ rw h (ap (d ∷◌) (solid-enqueue e (f ∷ q)))
]

pub get_last?-enqueue : (e : Event) (q : List Event) → get_last? (enqueue e q) ≡ some e
unfolding enqueue
get_last?-enqueue e [] = refl
get_last?-enqueue e (d ∷ []) = ground arith
get_last?-enqueue e (d ∷ f ∷ q) =
    get_last?-cons_some d (enqueue e (f ∷ q)) (get_last?-enqueue e (f ∷ q))

pub enqueue-solid : (e : Event) (q : List Event) → is_move e ≡ false → enqueue e q ≡ q ++ e ∷ []
unfolding enqueue
enqueue-solid e [] h = refl
enqueue-solid e (d ∷ []) h = rw h refl
enqueue-solid e (d ∷ f ∷ q) h = ap (d ∷◌) (enqueue-solid e (f ∷ q) h)

pub trace-flush_queue : (q : List Event) (p : Pad) → p.queue ≡ q → trace (flush_queue q p) ≡ trace p
unfolding trace flush_queue
trace-flush_queue [] p e = refl
trace-flush_queue (d ∷ q) p e = rw (concat-append, append-nil, append-nil, e) refl

pub trace-flush : (p : Pad) → trace (flush p) ≡ trace p
unfolding flush
trace-flush p = trace-flush_queue p.queue p refl

pub trace-push :
    (e : Event) (p : Pad)
    → p.disposed ≡ false
    → trace (push e p) ≡ concat p.chain ++ enqueue e p.queue
unfolding push trace
trace-push e p d =
    if_intro (λ q. trace q ≡ concat p.chain ++ enqueue e p.queue) p.disposed (λ t. cc)
      (λ _.
        if_intro (λ q. trace q ≡ concat p.chain ++ enqueue e p.queue)
          (leb max_batch (length (enqueue e p.queue)))
          (λ _. trace-flush (record p { queue = enqueue e p.queue })) (λ _. refl))

pub flush_queue_frame :
    (q : List Event) (p : Pad)
    → ((flush_queue q p).disposed ≡ p.disposed) × ((flush_queue q p).pressed ≡ p.pressed)
unfolding flush_queue
flush_queue_frame [] p = (refl, refl)
flush_queue_frame (e ∷ q) p = (refl, refl)

pub push_frame :
    (e : Event) (p : Pad) → ((push e p).disposed ≡ p.disposed) × ((push e p).pressed ≡ p.pressed)
unfolding push flush
push_frame e p =
    if_intro (λ (q : Pad). (q.disposed ≡ p.disposed) × (q.pressed ≡ p.pressed)) p.disposed
      (λ _. (refl, refl))
      (λ _.
        if_intro (λ (q : Pad). (q.disposed ≡ p.disposed) × (q.pressed ≡ p.pressed))
          (leb max_batch (length (enqueue e p.queue))) (λ _. flush_queue_frame _ _)
          (λ _. (refl, refl)))

pub solid-trace-push :
    (e : Event) (p : Pad)
    → p.disposed ≡ false
    → solid (trace (push e p)) ≡ solid (trace p) ++ solid (e ∷ [])
unfolding trace
solid-trace-push e p d =
    ap solid (trace-push e p d) ∙ simp (filter-append, solid-enqueue, append_assoc) refl

-- What comes to the queue: an event, the frame that sends what waits, or the answer to a batch.
pub data Arrival : Type 0 where
  event : Event → Arrival
  frame : Arrival
  settled : Bool → Arrival

unfoldable pub arrive : Arrival → Pad → Pad
arrive (event e) p = push e p
arrive frame p = flush p
arrive (settled ok) p = settle ok p

unfoldable pub arrive_all : List Arrival → Pad → Pad
unfolding arrive
arrive_all [] p = p
arrive_all (a ∷ rest) p = arrive_all rest (arrive a p)

abbrev pub events : List Arrival → List Event
events [] = []
events (event e ∷ rest) = e ∷ events rest
events (frame ∷ rest) = events rest
events (settled ok ∷ rest) = events rest

-- Whatever is coalesced, the event that was pushed last is the last of the trace, so the newest
-- position of the pointer is not lost.
pub get_last?-trace-push :
    (e : Event) (p : Pad) → p.disposed ≡ false → get_last? (trace (push e p)) ≡ some e
get_last?-trace-push e p d =
    rw (trace-push e p d)
      (get_last?-append_some (concat p.chain) (enqueue e p.queue) (get_last?-enqueue e p.queue))

pub settle_frame :
    (ok : Bool) (p : Pad)
    → ((settle ok p).disposed ≡ p.disposed)
      × ((settle ok p).pressed ≡ p.pressed)
      × (trace (settle ok p) ≡ trace p)
unfolding settle trace
settle_frame ok p =
    if_intro
      (λ (q : Pad). (q.disposed ≡ p.disposed) × (q.pressed ≡ p.pressed) × (trace q ≡ trace p))
      (ok || p.disposed) (λ _. (refl, refl, refl)) (λ _. (refl, refl, refl))

-- While the view is alive, every event that is no move is sent or waits exactly once, in the order
-- of the pushes, whatever frames and answers to batches come in between.
pub solid-arrive_all :
    (rest : List Arrival) (p : Pad)
    → p.disposed ≡ false
    → solid (trace (arrive_all rest p)) ≡ solid (trace p) ++ solid (events rest)
unfolding arrive_all arrive flush
solid-arrive_all [] p d = rw append-nil refl
solid-arrive_all (event e ∷ es) p d =
    solid-arrive_all es (push e p) ((push_frame e p).0 ∙ d)
    ∙ ap (◌++ solid (events es)) (solid-trace-push e p d)
    ∙ append_assoc (solid (trace p)) (solid (e ∷ [])) (solid (events es))
    ∙ ap (solid (trace p) ++◌) (sym (filter-append (λ x. not (is_move x)) (e ∷ []) (events es)))
solid-arrive_all (frame ∷ es) p d =
    solid-arrive_all es (flush p) ((flush_queue_frame p.queue p).0 ∙ d)
    ∙ ap (λ t. solid t ++ solid (events es)) (trace-flush p)
solid-arrive_all (settled ok ∷ es) p d =
    solid-arrive_all es (settle ok p) ((settle_frame ok p).0 ∙ d)
    ∙ ap (λ t. solid t ++ solid (events es)) (settle_frame ok p).2
