-- ===== src/LogViewer/Lines.antt =====
-- What the log page shows: its counter, its lines, and the markup of a line.
use condui.Prelude.{
  inr, inl, Bool-cases, ℕ, String, true, false, List, [], ◌∷◌, ◌++◌, map, ◌≡◌, refl, ap, sym, ◌∙◌,
  arith, str_eq, if◌then◌else◌, if_intro, length, append_assoc, append-nil, length-append,
}
use condui.Prelude.Text.{codes}
use condui.LogViewer.{Page, PageEvent, message, step, run, on_message, append_line, render_log_line}

step_count :
    (e : PageEvent) (p : Page)
    → p.line_count ≡ length p.lines
    → (step e p).line_count ≡ length (step e p).lines
unfolding step on_message append_line
step_count (message text) p h =
    ground (arith, length-append p.lines (render_log_line (codes text) ∷ []))
step_count PageEvent.failure p h = h
step_count PageEvent.clear p h = refl
step_count PageEvent.follow p h = h
step_count (PageEvent.scroll b) p h = h

-- After any events the counter of the page is the number of lines that stand on it.
pub line_count-run :
    (es : List PageEvent) (p : Page)
    → p.line_count ≡ length p.lines
    → (run es p).line_count ≡ length (run es p).lines
unfolding run
line_count-run [] p h = h
line_count-run (e ∷ es) p h = line_count-run es (step e p) (step_count e p h)

-- the data before the first `__END__`
pub until_end : List String → List String
until_end [] = []
until_end (d ∷ ds) = let rest = until_end ds in if str_eq d "__END__" then [] else d ∷ rest

on_message-closed : (d : String) (p : Page) → p.is_open ≡ false → on_message d p ≡ p
unfolding on_message
on_message-closed d p h = if_intro (λ (q : Page). q ≡ p) p.is_open (λ y. cc) (λ _. refl)

run_closed : (ds : List String) (p : Page) → p.is_open ≡ false → run (map message ds) p ≡ p
unfolding run step
run_closed [] p h = refl
run_closed (d ∷ ds) p h = ap (run (map message ds)) (on_message-closed d p h) ∙ run_closed ds p h

on_message-open :
    (d : String) (p : Page)
    → p.is_open ≡ true
    → on_message d p ≡ (
        if str_eq d "__END__"
        then record p { is_open = false; stopped = true }
        else append_line (render_log_line (codes d)) p)
unfolding on_message
on_message-open d p h =
    if_intro
      (λ (q : Page). q ≡ (
        if str_eq d "__END__"
        then record p { is_open = false; stopped = true }
        else append_line (render_log_line (codes d)) p))
      p.is_open (λ _. refl) (λ n. cc)

lines-append_line :
    (html : List ℕ) (p : Page)
    → ((append_line html p).lines ≡ p.lines ++ html ∷ [])
      × ((append_line html p).is_open ≡ p.is_open)
unfolding append_line
lines-append_line html p = (refl, refl)

-- The page shows exactly the lines that came before the first `__END__`, in their order, each
-- rendered; what comes after it is not shown.
pub lines-run :
    (ds : List String) (p : Page)
    → p.is_open ≡ true
    → (run (map message ds) p).lines
      ≡ p.lines ++ map (λ d. render_log_line (codes d)) (until_end ds)
unfolding run step until_end
lines-run [] p h = sym (append-nil p.lines)
lines-run (d ∷ ds) p h = elim (Bool-cases (str_eq d "__END__")) [
  | inl y ↦
      let stops : on_message d p ≡ record p { is_open = false; stopped = true } =
        on_message-open d p h ∙ rw y refl in
      ap (λ (q : Page). q.lines) (ap (run (map message ds)) stops ∙ run_closed ds _ refl)
      ∙ rw y (sym (append-nil p.lines))
  | inr n ↦
      let q : Page = append_line (render_log_line (codes d)) p in
      let goes : on_message d p ≡ q = on_message-open d p h ∙ rw n refl in
      let (more, live) = lines-append_line (render_log_line (codes d)) p in
      ap (λ (r : Page). (run (map message ds) r).lines) goes
      ∙ lines-run ds q (live ∙ h)
      ∙ rw (n, more) (append_assoc p.lines (render_log_line (codes d) ∷ []) _)
]
