-- ===== src/Terminal/Resize.antt =====
-- The handler of the window's resize event in web/src/terminal.js: a burst of events fits the terminal
-- once.
use claude_docker.Common.{
  ℕ, suc, ◌+◌, ◌≤◌, not, Option, none, some, List, [], ◌∷◌, ◌++◌, filter, length, ◌==◌, ==_refl,
  ◌≡◌, ◌⊎◌, refl, ap, ◌∙◌, inl, inr, arith,
}
use mathlib.Core.List.{Memᴰ}

-- `resizeTimer`, the timeouts that wait, and how often fit.fit() was called by one.
pub record Resizer : Type 0 where
  pub resize_timer : Option ℕ
  pub waiting : List ℕ
  pub next : ℕ
  pub fits : ℕ

abbrev pub without : ℕ → List ℕ → List ℕ
without k ts = filter (λ (t : ℕ). not (t == k)) ts

-- `if (resizeTimer) clearTimeout(resizeTimer);`
abbrev cleared : Option ℕ → List ℕ → List ℕ
cleared none ts = ts
cleared (some k) ts = without k ts

unfoldable pub window_resized : Resizer → Resizer
window_resized r = record r {
  resize_timer = some r.next;
  waiting = cleared r.resize_timer r.waiting ++ (r.next ∷ []);
  next = suc r.next;
}

-- The callback of a timeout, 80 ms later.
unfoldable pub fit_timeout : ℕ → Resizer → Resizer
fit_timeout k r = record r { waiting = without k r.waiting; fits = suc r.fits }

pub data ResizeEvent : Type 0 where
  window_event : ResizeEvent
  timeout_event : ℕ → ResizeEvent

unfoldable pub resize_step : ResizeEvent → Resizer → Resizer
unfolding window_resized fit_timeout
resize_step window_event r = window_resized r
resize_step (timeout_event k) r = fit_timeout k r

abbrev pub resize_run : List ResizeEvent → Resizer → Resizer
resize_run [] r = r
resize_run (e ∷ es) r = resize_run es (resize_step e r)

-- Only a timeout that waits fires.
abbrev pub ArePossible : List ResizeEvent → Resizer → Type 0
ArePossible [] r = Unit
ArePossible (window_event ∷ es) r = ArePossible es (resize_step window_event r)
ArePossible (timeout_event k ∷ es) r =
    Memᴰ k r.waiting × ArePossible es (resize_step (timeout_event k) r)

-- No timeout waits, or one, and resizeTimer holds it.
abbrev pub IsTidy : Resizer → Type 0
IsTidy r = (r.waiting ≡ []) ⊎ ((k : ℕ) × (r.waiting ≡ k ∷ []) × (r.resize_timer ≡ some k))

abbrev pub window_events : List ResizeEvent → ℕ
window_events [] = 0
window_events (window_event ∷ es) = suc (window_events es)
window_events (timeout_event _ ∷ es) = window_events es

without_self : (k : ℕ) → without k (k ∷ []) ≡ []
without_self k = rw (==_refl k) refl

cleared_nothing : (o : Option ℕ) → cleared o [] ≡ []
cleared_nothing none = refl
cleared_nothing (some k) = refl

-- After a resize event exactly the new timeout waits.
window_resized-waiting : (r : Resizer) → IsTidy r → (window_resized r).waiting ≡ r.next ∷ []
unfolding window_resized
window_resized-waiting r (inl e) = rw (e, cleared_nothing r.resize_timer) refl
window_resized-waiting r (inr (k, e, t)) = rw (e, t, without_self k) refl

no_member : (k : ℕ) → ¬ (Memᴰ k [])
no_member k m = elim m [ ]

only_member : (k j : ℕ) → Memᴰ k (j ∷ []) → k ≡ j
only_member k j (Memᴰ.head e) = e
only_member k j (Memᴰ.tail m) = elim m [ ]

-- After the timeout has fired none waits.
fit_timeout-waiting :
    (k : ℕ) (r : Resizer)
    → IsTidy r
    → Memᴰ k r.waiting
    → (length r.waiting ≡ 1) × ((fit_timeout k r).waiting ≡ [])
unfolding fit_timeout
fit_timeout-waiting k r (inl e) m = absurd (no_member k (rw e at m))
fit_timeout-waiting k r (inr (j, e, t)) m =
    let same = only_member k j (rw e at m) in
    (ap length e, ap (without k) e ∙ rw same (without_self j))

fresh_timer : (r : Resizer) → (window_resized r).resize_timer ≡ some r.next
unfolding window_resized
fresh_timer r = refl

same_fits : (r : Resizer) → (window_resized r).fits ≡ r.fits
unfolding window_resized
same_fits r = refl

one_fit : (k : ℕ) (r : Resizer) → (fit_timeout k r).fits ≡ suc r.fits
unfolding fit_timeout
one_fit k r = refl

length_of_IsTidy : (r : Resizer) → IsTidy r → length r.waiting ≤ 1
length_of_IsTidy r (inl e) = rw e (omega arith)
length_of_IsTidy r (inr (k, e, _)) = rw e (omega arith)

-- From a state in which no timeout waits, or one that resizeTimer holds, and through any events, with
-- only timeouts firing that wait: at most one waits at a time, and the terminal has not been fitted,
-- that timeout counted, more often than a timeout waited or a resize event came; and right after a
-- resize event one timeout waits, so that one fit is to come.
pub resize_debounced :
    (es : List ResizeEvent) (r : Resizer)
    → IsTidy r
    → ArePossible es r
    → let t = resize_run es r in
      (length t.waiting ≤ 1)
      × (t.fits + length t.waiting ≤ r.fits + length r.waiting + window_events es)
      × (length (resize_step window_event t).waiting ≡ 1)
unfolding resize_step
resize_debounced [] r v p =
    (length_of_IsTidy r v, omega arith, ap length (window_resized-waiting r v))
resize_debounced (window_event ∷ es) r v p =
    let one = window_resized-waiting r v in
    let (few, bound, last) =
      resize_debounced es (window_resized r) (inr (r.next, one, fresh_timer r)) p in
    (few, omega (arith, bound, ap length one, same_fits r), last)
resize_debounced (timeout_event k ∷ es) r v (m, p) =
    let (one, none_left) = fit_timeout-waiting k r v m in
    let (few, bound, last) = resize_debounced es (fit_timeout k r) (inl none_left) p in
    (few, omega (arith, bound, one, ap length none_left, one_fit k r), last)
