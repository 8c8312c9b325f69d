-- ===== src/RateLimiter/Tests.antt =====
-- The rate limiter at concrete requests.
use sol_gateway_dcc.Base.{◌≤◌, ◌≡◌, refl, List, [], ◌∷◌, arith, ltb, length, nat_eq}
use sol_gateway_dcc.Js.Map.{get, set, delete}
use sol_gateway_dcc.RateLimiter.Limiter.{handle, rate_limiter, prune_stale}
use sol_gateway_dcc.RateLimiter.Runs.{Event, asks, prunes, user, run, times_by}
use sol_gateway_dcc.RateLimiter.Admission.{after, recent, handle-after}

-- Two requests in ten seconds are the most.
abbrev burst : List Event
burst = asks 7 1000 ∷ asks 8 1500 ∷ asks 7 2000 ∷ asks 7 3000 ∷ prunes 11500 ∷ []

burst_test : times_by 7 (after 10000 2 burst).1 ≡ 1000 ∷ 2000 ∷ []
unfolding times_by run rate_limiter handle get set prune_stale delete
burst_test = refl

handle-after_example :
    ((handle (after 10000 2 burst).0 (user 7) 11600).1
      ≡ ltb (length (recent 10000 11600 (after 10000 2 burst) 7)) 2)
    × (length (recent 10000 11600 (after 10000 2 burst) 7) ≤ 2)
handle-after_example =
    handle-after 10000 2 11600 7 burst
      (omega arith, (omega arith, (omega arith, (omega arith, (omega arith, tt))))) (omega arith)
