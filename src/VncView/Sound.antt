-- ===== src/VncView/Sound.antt =====
-- What holds of the screen after any events.
use condui.Prelude.{
  ◌∙◌, ap, ℕ, ◌+◌, ◌≤◌, Bool, true, false, ◌||◌, ◌≡◌, List, [], ◌∷◌, if_intro, refl, arith,
}
use condui.VncView.{
  View, Status, connecting, connected, disconnected, error, init, end_status, finish, dispose,
  Event, timeout, opens, connect, disconnect, security_failure, socket_error, socket_close, unmount,
  made, connected_on, on_event, run,
}

abbrev pub count : Bool → ℕ
count true = 1
count false = 0

abbrev pub is_connecting : Status → Bool
is_connecting connecting = true
is_connecting _ = false

-- The tab is marked once when the session ends, `closeVNC` is called then and when the view is
-- removed, and a view that still connects has its timeout to come.
pub record IsSound (v : View) : Type 0 where
  pub marked : v.marks ≡ count v.finished
  pub closed : v.closes ≡ count v.finished + count v.disposed
  pub ended : v.finished ≡ true → is_connecting v.status ≡ false
  pub waits : is_connecting v.status ≡ true → v.disposed ≡ false → v.timer ≡ true

end_status_lem : (clean : Bool) (s : Status) → is_connecting (end_status clean s) ≡ false
end_status_lem clean error = refl
end_status_lem true connecting = refl
end_status_lem true connected = refl
end_status_lem true disconnected = refl
end_status_lem false connecting = refl
end_status_lem false connected = refl
end_status_lem false disconnected = refl

neither : (a b : Bool) → (a || b) ≡ false → (a ≡ false) × (b ≡ false)
neither true b h = (h, absurd (ground (arith, h)))
neither false b h = (refl, h)

finish-IsSound :
    (clean : Bool) (v : View)
    → v.marks ≡ count v.finished
    → v.closes ≡ count v.finished + count v.disposed
    → (v.finished ≡ true → is_connecting v.status ≡ false)
    → IsSound (finish clean v)
unfolding finish
finish-IsSound clean v m c e =
    if_intro (λ x. IsSound x) (v.disposed || v.finished)
      (λ k. record {
        marked = m;
        closed = c;
        ended = e;
        waits = λ a b. absurd (ground (arith, a, b, k, e));
      })
      (λ k.
        let n = neither v.disposed v.finished k in
        let m' : v.marks ≡ 0 = m ∙ ap count n.1 in
        let c' : v.closes ≡ 0 + count v.disposed = c ∙ ap (λ b. count b + count v.disposed) n.1 in
        record {
          marked = ground (arith, m');
          closed = ground (arith, c');
          ended = λ _. end_status_lem clean v.status;
          waits = λ a b. absurd (ground (arith, a, end_status_lem clean v.status));
        })

dispose-IsSound : (v : View) → IsSound v → IsSound (dispose v)
unfolding dispose
dispose-IsSound v h =
    if_intro (λ x. IsSound x) v.disposed (λ _. h)
      (λ k.
        let c : v.closes ≡ count v.finished + 0 =
          h.closed ∙ ap (λ b. count v.finished + count b) k in
        record {
          marked = h.marked;
          closed = ground (arith, c);
          ended = h.ended;
          waits = λ a b. cc;
        })

connected_on-IsSound :
    (b : Bool) (v : View) → v.disposed ≡ b → IsSound v → IsSound (connected_on b v)
unfolding connected_on
connected_on-IsSound true v d h = record {
  marked = h.marked;
  closed = h.closed;
  ended = h.ended;
  waits = λ a b. absurd (ground (arith, d, b));
}
connected_on-IsSound false v d h = record {
  marked = h.marked;
  closed = h.closed;
  ended = λ _. refl;
  waits = λ a b. cc;
}

made-IsSound : (b : Bool) (v : View) → IsSound v → IsSound (made b v)
unfolding made
made-IsSound true v h = record {
  marked = h.marked;
  closed = h.closed;
  ended = h.ended;
  waits = h.waits;
}
made-IsSound false v h = finish-IsSound false v h.marked h.closed h.ended

on_event-IsSound : (e : Event) (v : View) → IsSound v → IsSound (on_event e v)
unfolding on_event
on_event-IsSound timeout v h =
    if_intro (λ x. IsSound x) v.timer
      (λ _. finish-IsSound false (record v { timer = false }) h.marked h.closed h.ended) (λ _. h)
on_event-IsSound (opens ok) v h =
    if_intro (λ x. IsSound x) v.disposed (λ _. h) (λ _. made-IsSound ok v h)
on_event-IsSound connect v h =
    if_intro (λ x. IsSound x) v.viewer (λ _. connected_on-IsSound v.disposed v refl h) (λ _. h)
on_event-IsSound (disconnect clean) v h =
    if_intro (λ x. IsSound x) v.viewer (λ _. finish-IsSound clean v h.marked h.closed h.ended)
      (λ _. h)
on_event-IsSound security_failure v h =
    if_intro (λ x. IsSound x) v.viewer (λ _. finish-IsSound false v h.marked h.closed h.ended)
      (λ _. h)
on_event-IsSound socket_error v h = finish-IsSound false v h.marked h.closed h.ended
on_event-IsSound (socket_close clean) v h = finish-IsSound clean v h.marked h.closed h.ended
on_event-IsSound unmount v h = dispose-IsSound v h

run_keeps : (es : List Event) (v : View) → IsSound v → IsSound (run es v)
unfolding run
run_keeps [] v h = h
run_keeps (e ∷ es) v h = run_keeps es (on_event e v) (on_event-IsSound e v h)

at_most_1 : (n : ℕ) (b : Bool) → n ≡ count b → n ≤ 1
at_most_1 n true h = ground (arith, h)
at_most_1 n false h = ground (arith, h)

at_most_2 : (n : ℕ) (a b : Bool) → n ≡ count a + count b → n ≤ 2
at_most_2 n true true h = ground (arith, h)
at_most_2 n true false h = ground (arith, h)
at_most_2 n false true h = ground (arith, h)
at_most_2 n false false h = ground (arith, h)

end_status_error : (s : Status) → end_status false s ≡ error
end_status_error connecting = refl
end_status_error connected = refl
end_status_error disconnected = refl
end_status_error error = refl

late_timeout :
    (v : View)
    → IsSound v
    → is_connecting v.status ≡ true
    → v.disposed ≡ false
    → ((on_event timeout v).status ≡ error) × ((on_event timeout v).marks ≡ 1)
unfolding on_event finish
late_timeout v h a d =
    let f : v.finished ≡ false = ground (arith, h.ended, a) in
    let m : v.marks ≡ 0 = h.marked ∙ ap count f in
    if_intro (λ (x : View). (x.status ≡ error) × (x.marks ≡ 1)) v.timer
      (λ _.
        if_intro (λ (x : View). (x.status ≡ error) × (x.marks ≡ 1)) (v.disposed || v.finished)
          (λ k. absurd (ground (arith, k, d, f)))
          (λ _. (end_status_error v.status, ground (arith, m))))
      (λ k. absurd (ground (arith, h.waits a d, k)))

finish-marks : (clean : Bool) (v : View) → v.disposed ≡ true → (finish clean v).marks ≡ v.marks
unfolding finish
finish-marks clean v d =
    if_intro (λ (x : View). x.marks ≡ v.marks) (v.disposed || v.finished) (λ _. refl)
      (λ k. absurd (ground (arith, d, k)))

connected_on-marks : (b : Bool) (v : View) → (connected_on b v).marks ≡ v.marks
unfolding connected_on
connected_on-marks true v = refl
connected_on-marks false v = refl

on_event-marks : (e : Event) (v : View) → v.disposed ≡ true → (on_event e v).marks ≡ v.marks
unfolding on_event dispose
on_event-marks timeout v d =
    if_intro (λ (x : View). x.marks ≡ v.marks) v.timer
      (λ _. finish-marks false (record v { timer = false }) d) (λ _. refl)
on_event-marks (opens ok) v d =
    if_intro (λ (x : View). x.marks ≡ v.marks) v.disposed (λ _. refl)
      (λ k. absurd (ground (arith, d, k)))
on_event-marks connect v d =
    if_intro (λ (x : View). x.marks ≡ v.marks) v.viewer (λ _. connected_on-marks v.disposed v)
      (λ _. refl)
on_event-marks (disconnect clean) v d =
    if_intro (λ (x : View). x.marks ≡ v.marks) v.viewer (λ _. finish-marks clean v d) (λ _. refl)
on_event-marks security_failure v d =
    if_intro (λ (x : View). x.marks ≡ v.marks) v.viewer (λ _. finish-marks false v d) (λ _. refl)
on_event-marks socket_error v d = finish-marks false v d
on_event-marks (socket_close clean) v d = finish-marks clean v d
on_event-marks unmount v d =
    if_intro (λ (x : View). x.marks ≡ v.marks) v.disposed (λ _. refl) (λ _. refl)

-- Whatever the socket, the client, the clock and the page do, in any order: the tab is marked at
-- most once and `closeVNC` is called at most twice, once for the end of the session and once for
-- the removal of the view. A view that still connects has not ended, and its timeout is to come:
-- it then ends with an error, and a view that was removed marks nothing any more.
pub run-IsSound :
    (es : List Event)
    → let v = run es init in
      IsSound v
      × (v.marks ≤ 1)
      × (v.closes ≤ 2)
      × (is_connecting v.status ≡ true
          → v.disposed ≡ false
          → ((on_event timeout v).status ≡ error) × ((on_event timeout v).marks ≡ 1))
      × ((e : Event) → v.disposed ≡ true → (on_event e v).marks ≡ v.marks)
run-IsSound es =
    let h =
      run_keeps es init
        (record { marked = refl; closed = refl; ended = λ e. cc; waits = λ a b. refl }) in
    (
      h,
      at_most_1 _ _ h.marked,
      at_most_2 _ _ _ h.closed,
      late_timeout (run es init) h,
      λ e d. on_event-marks e (run es init) d,
    )
