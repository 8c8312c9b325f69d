-- ===== src/Bot/Monitor/Schedule.antt =====
-- The turns of telegram-bot/src/bridge/monitor.cjs in any order: the polls of users run beside one another,
-- a poll may begin before the last one has ended, and each turn waits for its notification.
use sol_gateway_dcc.Base.{ℕ, zero, suc, Option, none, some, List, [], ◌∷◌, JsString}
use sol_gateway_dcc.Js.Map.{JsMap}
use sol_gateway_dcc.Bot.Store.{User}
use sol_gateway_dcc.Bot.Scan.{SplTransfer, SolTransfer, Burn}
use sol_gateway_dcc.Bot.Turns.{
  Monitor, Waiting, Draws, Begun, skipped, raised, waits, begin_spl, begin_sol, begin_burn,
}
use sol_gateway_dcc.Bot.Monitor.{finish}

-- The first part of a turn, or the second part of a turn that waits, by its place among these.
pub data Turn : Type 0 where
  begins_spl : Draws → User → SplTransfer → Turn
  begins_sol : Draws → User → SolTransfer → Turn
  begins_burn : Draws → JsMap JsString User → Burn → Turn
  finishes : ℕ → Turn

-- The monitor, the turns that wait, and the calls of the relay so far.
pub record Polls : Type 0 where
  pub monitor : Monitor
  pub waiting : List Waiting
  pub started : List Waiting

unfoldable pub begun : Monitor × Begun → Polls → Polls
begun (m, skipped) p = record p { monitor = m }
begun (m, raised) p = record p { monitor = m }
begun (m, waits w) p = record p { monitor = m; waiting = w ∷ p.waiting }

unfoldable pub put_back {ℓ} : {A : Type ℓ} → A → Option (A × List A) → Option (A × List A)
put_back x none = none
put_back x (some (y, ys)) = some (y, x ∷ ys)

-- Takes out an entry of a list, and what is left.
unfoldable pub take_out {ℓ} : {A : Type ℓ} → ℕ → List A → Option (A × List A)
unfolding put_back
take_out n [] = none
take_out zero (x ∷ xs) = some (x, xs)
take_out (suc n) (x ∷ xs) = put_back x (take_out n xs)

unfoldable pub finished : Option (Waiting × List Waiting) → Polls → Polls
finished none p = p
finished (some (w, ws)) p = record p {
  monitor = finish w p.monitor;
  waiting = ws;
  started = w ∷ p.started;
}

unfoldable pub turn : (JsString → JsString) → Turn → Polls → Polls
unfolding begun finished take_out
turn sha256 (begins_spl draws user t) p = begun (begin_spl sha256 draws user t p.monitor) p
turn sha256 (begins_sol draws user t) p = begun (begin_sol sha256 draws user t p.monitor) p
turn sha256 (begins_burn draws users b) p = begun (begin_burn draws users b p.monitor) p
turn sha256 (finishes n) p = finished (take_out n p.waiting) p

unfoldable pub run : (JsString → JsString) → List Turn → Polls → Polls
run sha256 [] p = p
run sha256 (t ∷ ts) p = run sha256 ts (turn sha256 t p)
