-- ===== src/RateLimiter/Admission.antt =====
-- Whom the rate limiter admits, in every run.
use sol_gateway_dcc.Base.{
  ℕ, ◌≤◌, ◌≡◌, refl, ap, ◌∙◌, Bool, List, [], ◌∷◌, arith, leb, ltb, length, filterb, if_cases,
}
use sol_gateway_dcc.Base.Windows.{within}
use sol_gateway_dcc.Js.Map.{get}
use sol_gateway_dcc.RateLimiter.Limiter.{
  RateLimiter, rate_limiter, times_of, admit, handle, prune_stale,
}
use sol_gateway_dcc.RateLimiter.Runs.{
  Event, asks, prunes, time_of, user, Logged, step, run, times_by, IsInStep, step-IsInStep, counted,
}

-- A clock that does not go back, and its last time.
abbrev pub NotBefore : ℕ → List Event → Type 0
NotBefore t [] = Unit
NotBefore t (ev ∷ evs) = (t ≤ time_of ev) × NotBefore (time_of ev) evs

abbrev pub end_of : ℕ → List Event → ℕ
end_of t [] = t
end_of t (ev ∷ evs) = end_of (time_of ev) evs

run-IsInStep :
    (t : ℕ) (evs : List Event) (s : Logged)
    → NotBefore t evs
    → IsInStep t s
    → IsInStep (end_of t evs) (run s evs)
unfolding run
run-IsInStep t [] s n i = i
run-IsInStep t (ev ∷ evs) s (h, n) i =
    run-IsInStep (time_of ev) evs (step s ev) n (step-IsInStep t s ev h i)

-- The settings stay.
abbrev SameSettings : RateLimiter → RateLimiter → Type 0
SameSettings l l' = (l'.window_ms ≡ l.window_ms) × (l'.max_requests ≡ l.max_requests)

step-SameSettings : (s : Logged) (ev : Event) → SameSettings s.0 (step s ev).0
unfolding step handle admit prune_stale
step-SameSettings (l, log) (prunes now) = (refl, refl)
step-SameSettings (l, log) (asks uid now) =
    if_cases (λ (r : RateLimiter × Bool). SameSettings l r.0)
      (leb l.max_requests (length (counted l uid now))) _ _ (λ _. (refl, refl)) (λ _. (refl, refl))

run-SameSettings : (evs : List Event) (s : Logged) → SameSettings s.0 (run s evs).0
unfolding run
run-SameSettings [] s = (refl, refl)
run-SameSettings (ev ∷ evs) s =
    let (w, m) = step-SameSettings s ev in
    let (w', m') = run-SameSettings evs (step s ev) in (w' ∙ w, m' ∙ m)

start-IsInStep : (w m : ℕ) → IsInStep 0 (rate_limiter w m, [])
unfolding rate_limiter times_of times_by get
start-IsInStep w m = record {
  distinct = tt;
  same = λ v later _. refl;
  bound = λ v later _. omega arith;
}

-- The limiter and its log after a run from the start.
abbrev pub after : ℕ → ℕ → List Event → Logged
after w m evs = run (rate_limiter w m, []) evs

abbrev pub recent : ℕ → ℕ → Logged → ℕ → List ℕ
recent w now s uid = filterb (within w now) (times_by uid s.1)

handle-IsInStep :
    (t now uid : ℕ) (s : Logged)
    → t ≤ now
    → IsInStep t s
    → (handle s.0 (user uid) now).1 ≡ ltb (length (recent s.0.window_ms now s uid)) s.0.max_requests
unfolding handle admit
handle-IsInStep t now uid s h i =
    if_cases
      (λ (r : RateLimiter × Bool).
        r.1 ≡ ltb (length (recent s.0.window_ms now s uid)) s.0.max_requests)
      (leb s.0.max_requests (length (counted s.0 uid now))) _ _
      (λ full. ground (arith, full, ap length (i.same uid now h)))
      (λ room. ground (arith, room, ap length (i.same uid now h)))

-- After any requests and prunings, under a clock that does not go back, a user's request is admitted exactly
-- when fewer than `maxRequests` of that user's requests were admitted in the window before it, and no
-- window ever holds more than `maxRequests` of them.
pub handle-after :
    (w m now uid : ℕ) (evs : List Event)
    → NotBefore 0 evs
    → end_of 0 evs ≤ now
    → ((handle (after w m evs).0 (user uid) now).1
        ≡ ltb (length (recent w now (after w m evs) uid)) m)
      × (length (recent w now (after w m evs) uid) ≤ m)
unfolding rate_limiter
handle-after w m now uid evs n h =
    let i = run-IsInStep 0 evs (rate_limiter w m, []) n (start-IsInStep w m) in
    let (same_w, same_m) = run-SameSettings evs (rate_limiter w m, []) in
    (
      rw (same_w, same_m) at (handle-IsInStep (end_of 0 evs) now uid (after w m evs) h i),
      rw (same_w, same_m) at (i.bound uid now h),
    )
