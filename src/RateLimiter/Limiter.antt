-- ===== src/RateLimiter/Limiter.antt =====
-- telegram-bot/src/middleware/rateLimiter.cjs: the middleware and the pruning of its timer. A message
-- without a sender, or of a bot, passes and leaves the buckets; the reply to a limited user is left out.
use sol_gateway_dcc.Base.{
  ℕ, Bool, true, false, Option, none, some, List, [], ◌∷◌, ◌++◌, nat_eq, leb, if◌then◌else◌, length,
  filterb,
}
use sol_gateway_dcc.Base.Windows.{within}
use sol_gateway_dcc.Js.Map.{JsMap, get, set, delete}

pub record RateLimiter : Type 0 where
  pub window_ms : ℕ
  pub max_requests : ℕ
  pub buckets : JsMap ℕ (List ℕ)

unfoldable pub rate_limiter : ℕ → ℕ → RateLimiter
rate_limiter window_ms max_requests = record {
  window_ms = window_ms;
  max_requests = max_requests;
  buckets = [];
}

-- `buckets.get(uid) || []`
unfoldable pub times_of : ℕ → JsMap ℕ (List ℕ) → List ℕ
times_of uid buckets = elim (get uid buckets) [ none ↦ [] | some ts ↦ ts ]

-- A sender's id, and whether it is a bot.
pub record Sender : Type 0 where
  pub id : ℕ
  pub is_bot : Bool

unfoldable pub admit : RateLimiter → ℕ → ℕ → RateLimiter × Bool
unfolding times_of
admit l uid now =
    let times = filterb (within l.window_ms now) (times_of uid l.buckets) in
    if leb l.max_requests (length times)
    then (l, false)
    else (record l { buckets = set uid (times ++ now ∷ []) l.buckets }, true)

-- The middleware; the Boolean says whether it calls `next`.
unfoldable pub handle : RateLimiter → Option Sender → ℕ → RateLimiter × Bool
unfolding admit
handle l none now = (l, true)
handle l (some s) now = if s.is_bot then (l, true) else admit l s.id now

unfoldable pub is_empty : List ℕ → Bool
is_empty [] = true
is_empty (t ∷ ts) = false

-- The loop of the timer over the entries, which changes the map.
unfoldable pub prune_buckets : ℕ → ℕ → JsMap ℕ (List ℕ) → JsMap ℕ (List ℕ) → JsMap ℕ (List ℕ)
unfolding is_empty
prune_buckets window now [] buckets = buckets
prune_buckets window now ((uid, times) ∷ entries) buckets =
    let fresh = filterb (within window now) times in
    prune_buckets window now entries
      (if is_empty fresh then delete uid buckets else set uid fresh buckets)

unfoldable pub prune_stale : RateLimiter → ℕ → RateLimiter
unfolding prune_buckets
prune_stale l now = record l { buckets = prune_buckets l.window_ms now l.buckets l.buckets }
