-- ===== src/RateLimiter/Runs.antt =====
-- Runs of the rate limiter: requests and prunings under a clock that does not go back.
use sol_gateway_dcc.Base.{
  append_nil, ℕ, ◌≤◌, ◌<◌, ◌≡◌, refl, sym, ap, ◌∙◌, Bool, true, false, Option, some, List, [], ◌∷◌,
  ◌++◌, arith, nat_eq, leb, nat_eqb, nat_eqb_iff, ◌==◌, if◌then◌else◌, length, length-append,
  length-filterb-le, filterb, Bool-cases, inl, inr,
}
use sol_gateway_dcc.Base.Windows.{within, filterb-append, filterb_later}
use sol_gateway_dcc.Js.Map.{set}
use sol_gateway_dcc.Js.Distinct.{HasDistinctKeys, set-HasDistinctKeys}
use sol_gateway_dcc.RateLimiter.Limiter.{RateLimiter, times_of, Sender, admit, handle, prune_stale}
use sol_gateway_dcc.RateLimiter.Sliding.{
  SameFrom, times_of-set, prune_stale-SameFrom, prune_buckets-HasDistinctKeys,
}

-- A request of a user who is no bot, and the timer.
pub data Event : Type 0 where
  asks : ℕ → ℕ → Event
  prunes : ℕ → Event

abbrev pub time_of : Event → ℕ
time_of (asks uid now) = now
time_of (prunes now) = now

abbrev pub user : ℕ → Option Sender
user uid = some (record { id = uid; is_bot = false })

-- The limiter, and who was admitted when.
abbrev pub Logged : Type 0
Logged = RateLimiter × List (ℕ × ℕ)

abbrev note : Bool → ℕ → ℕ → List (ℕ × ℕ) → List (ℕ × ℕ)
note admitted uid now log = if admitted then log ++ (uid, now) ∷ [] else log

unfoldable pub step : Logged → Event → Logged
step (l, log) (asks uid now) =
    let (l', admitted) = handle l (user uid) now in (l', note admitted uid now log)
step (l, log) (prunes now) = (prune_stale l now, log)

unfoldable pub run : Logged → List Event → Logged
unfolding step
run s [] = s
run s (ev ∷ evs) = run (step s ev) evs

-- The times at which a user was admitted.
unfoldable pub times_by : ℕ → List (ℕ × ℕ) → List ℕ
times_by uid [] = []
times_by uid ((u, t) ∷ log) = if u == uid then t ∷ times_by uid log else times_by uid log

times_by-append :
    (uid : ℕ) (xs ys : List (ℕ × ℕ)) → times_by uid (xs ++ ys) ≡ times_by uid xs ++ times_by uid ys
unfolding times_by
times_by-append uid [] ys = refl
times_by-append uid ((u, t) ∷ xs) ys = ground (arith, times_by-append uid xs ys)

-- From `t` on the buckets look like the log, in which no window holds more than is allowed.
pub record IsInStep (t : ℕ) (s : Logged) : Type 0 where
  pub distinct : HasDistinctKeys s.0.buckets
  pub same : (v : ℕ) → SameFrom s.0.window_ms t (times_of v s.0.buckets) (times_by v s.1)
  pub bound :
      (v later : ℕ)
      → t ≤ later
      → length (filterb (within s.0.window_ms later) (times_by v s.1)) ≤ s.0.max_requests

IsInStep-later : (t u : ℕ) (s : Logged) → t ≤ u → IsInStep t s → IsInStep u s
IsInStep-later t u s h i = record {
  distinct = i.distinct;
  same = λ v later q. i.same v later (omega arith);
  bound = λ v later q. i.bound v later (omega arith);
}

prune-IsInStep :
    (t now : ℕ) (l : RateLimiter) (log : List (ℕ × ℕ))
    → t ≤ now
    → IsInStep t (l, log)
    → IsInStep now (prune_stale l now, log)
unfolding prune_stale
prune-IsInStep t now l log h i = record {
  distinct = prune_buckets-HasDistinctKeys l.window_ms now l.buckets l.buckets i.distinct;
  same =
      λ v later q. prune_stale-SameFrom l now v i.distinct later q ∙ i.same v later (omega arith);
  bound = λ v later q. i.bound v later (omega arith);
}

-- The times of a user that the middleware counts, and the same from the log.
abbrev pub counted : RateLimiter → ℕ → ℕ → List ℕ
counted l uid now = filterb (within l.window_ms now) (times_of uid l.buckets)

abbrev admitted_state : RateLimiter → ℕ → ℕ → RateLimiter
admitted_state l uid now = record l { buckets = set uid (counted l uid now ++ now ∷ []) l.buckets }

times_by-note :
    (v uid now : ℕ) (log : List (ℕ × ℕ))
    → times_by v (log ++ (uid, now) ∷ []) ≡ times_by v log ++ (if uid == v then now ∷ [] else [])
unfolding times_by
times_by-note v uid now log = times_by-append v log ((uid, now) ∷ [])

note_here :
    (v uid now : ℕ) (log : List (ℕ × ℕ))
    → nat_eqb uid v ≡ true
    → times_by v (log ++ (uid, now) ∷ []) ≡ times_by v log ++ now ∷ []
note_here v uid now log at = times_by-note v uid now log ∙ rw at refl

note_other :
    (v uid now : ℕ) (log : List (ℕ × ℕ))
    → nat_eqb uid v ≡ false
    → times_by v (log ++ (uid, now) ∷ []) ≡ times_by v log
note_other v uid now log other =
    times_by-note v uid now log ∙ rw other (append_nil (times_by v log))

admitted-same :
    (t now uid v : ℕ) (l : RateLimiter) (log : List (ℕ × ℕ))
    → t ≤ now
    → IsInStep t (l, log)
    → SameFrom l.window_ms now
        (times_of v (admitted_state l uid now).buckets)
        (times_by v (log ++ (uid, now) ∷ []))
admitted-same t now uid v l log h i later q =
    ap (filterb p) (times_of-set uid v (counted l uid now ++ now ∷ []) l.buckets)
    ∙ elim (Bool-cases (nat_eqb uid v)) [
      | inl at ↦
          let uv : uid ≡ v = (nat_eqb_iff uid v).0 at in
          rw at (
            filterb-append p (counted l uid now) (now ∷ [])
            ∙ ap (λ xs. xs ++ filterb p (now ∷ []))
                (filterb_later l.window_ms now later (times_of uid l.buckets) q
                  ∙ i.same uid later (omega arith)
                  ∙ ap (λ k. filterb p (times_by k log)) uv)
            ∙ sym (filterb-append p (times_by v log) (now ∷ []))
            ∙ ap (filterb p) (sym (note_here v uid now log at)))
      | inr other ↦
          rw other
            (i.same v later (omega arith) ∙ ap (filterb p) (sym (note_other v uid now log other)))
    ]
  where
    p : ℕ → Bool
    p = within l.window_ms later

admitted-bound :
    (t now uid v later : ℕ) (l : RateLimiter) (log : List (ℕ × ℕ))
    → t ≤ now
    → IsInStep t (l, log)
    → length (counted l uid now) < l.max_requests
    → now ≤ later
    → length (filterb (within l.window_ms later) (times_by v (log ++ (uid, now) ∷ [])))
      ≤ l.max_requests
admitted-bound t now uid v later l log h i room q = elim (Bool-cases (nat_eqb uid v)) [
  | inl at ↦
      let uv : uid ≡ v = (nat_eqb_iff uid v).0 at in
      let old = times_by v log in
      let earlier = filterb (within l.window_ms now) old in
      omega (
        arith,
        room,
        ap (λ xs. length (filterb p xs)) (note_here v uid now log at),
        ap length (filterb-append p old (now ∷ [])),
        length-append (filterb p old) (filterb p (now ∷ [])),
        length-filterb-le p (now ∷ []),
        ap length (filterb_later l.window_ms now later old q),
        length-filterb-le p earlier,
        ap length
            (i.same uid now h ∙ ap (λ k. filterb (within l.window_ms now) (times_by k log)) uv),
      )
  | inr other ↦ omega (
    arith,
    ap (λ xs. length (filterb p xs)) (note_other v uid now log other),
    i.bound v later (omega arith),
  )
]
  where
    p : ℕ → Bool
    p = within l.window_ms later

-- One step keeps in step.
pub step-IsInStep :
    (t : ℕ) (s : Logged) (ev : Event)
    → t ≤ time_of ev
    → IsInStep t s
    → IsInStep (time_of ev) (step s ev)
unfolding step handle admit
step-IsInStep t (l, log) (prunes now) h i = prune-IsInStep t now l log h i
step-IsInStep t (l, log) (asks uid now) h i =
    elim (Bool-cases (leb l.max_requests (length (counted l uid now)))) [
      | inl full ↦ rw full (IsInStep-later t now (l, log) h i)
      | inr room ↦ rw room (record {
        distinct = set-HasDistinctKeys uid (counted l uid now ++ now ∷ []) l.buckets i.distinct;
        same = λ v. admitted-same t now uid v l log h i;
        bound = λ v later q. admitted-bound t now uid v later l log h i (ground (arith, room)) q;
      })
    ]
