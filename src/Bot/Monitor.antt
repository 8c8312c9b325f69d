-- ===== src/Bot/Monitor.antt =====
-- telegram-bot/src/bridge/monitor.cjs: the second part of a turn, in which finish calls the relay and moves the
-- cursor, and the polls. What the relay writes later to its transfer is left out.
pub mod Schedule
pub mod Once
pub mod Passed
pub mod Handled
pub mod Restart
use sol_gateway_dcc.Base.{
  ℕ, suc, Bool, true, false, Option, none, some, List, [], ◌∷◌, ◌++◌, JsString, codes, str_eq, ◌==◌,
  leb, ltb, min, if◌then◌else◌, map,
}
use sol_gateway_dcc.Js.Map.{JsMap, get, set}
use sol_gateway_dcc.Bot.Store.{
  Chain, solana, dcc, ChainKey, chain_eqb, User, NewTransfer, NewDeposit, Store, create_transfer,
  record_deposit, set_scan_cursor, or_zero,
}
use sol_gateway_dcc.Bot.Scan.{
  SigInfo, NodeTx, Fetched, SplTransfer, SolTransfer, Burn, scan_incoming_spl, scan_incoming_sol,
  scan_burn_records,
}
use sol_gateway_dcc.Bot.Turns.{
  Monitor, Waiting, Draws, Begun, Kind, spl, sol, burn, skipped, raised, waits, begin_spl,
  begin_sol, begin_burn,
}

-- The Map from DCC addresses to users.
unfoldable pub user_by_dcc : List User → JsMap JsString User → JsMap JsString User
user_by_dcc [] users = users
user_by_dcc (u ∷ us) users =
    user_by_dcc us (if u.dcc_address == [] then users else set u.dcc_address u users)

move_sol : JsString → ℕ → Monitor → Monitor
move_sol address slot m = record m {
  sol_slots = set address slot m.sol_slots;
  store = set_scan_cursor solana address slot m.store;
}

move_dcc : JsString → ℕ → Monitor → Monitor
move_dcc address height m = record m {
  dcc_heights = set address height m.dcc_heights;
  store = set_scan_cursor dcc address height m.store;
}

unfoldable pub move_cursor : Kind → JsString → ℕ → Monitor → Monitor
unfolding move_sol move_dcc
move_cursor spl address slot m = move_sol address slot m
move_cursor sol address slot m =
    if ltb (or_zero (get address m.sol_slots)) slot then move_sol address slot m else m
move_cursor burn address height m = move_dcc address height m

-- After the notification the relay is called, and the cursor moved.
unfoldable pub finish : Waiting → Monitor → Monitor
unfolding move_cursor
finish w m = move_cursor w.kind w.address w.slot m

-- A turn whose notification returns at once, with the calls of the relay.
unfoldable pub complete : Monitor × Begun → Monitor × List Waiting × Bool
unfolding finish
complete (m, skipped) = (m, [], true)
complete (m, raised) = (m, [], false)
complete (m, waits w) = (finish w m, w ∷ [], true)

-- The next turn, where the last one was not ended by an exception.
unfoldable pub go_on :
    Monitor × List Waiting × Bool
    → (Monitor → Monitor × List Waiting × Bool)
    → Monitor × List Waiting × Bool
go_on (m, started, false) next = (m, started, false)
go_on (m, started, true) next = let (m', later, whole) = next m in (m', started ++ later, whole)

-- The turns of a loop, until an exception ends it.
unfoldable pub turns : List (Monitor → Monitor × Begun) → Monitor → Monitor × List Waiting × Bool
unfolding complete go_on
turns [] m = (m, [], true)
turns (begin ∷ rest) m = go_on (complete (begin m)) (turns rest)

-- The turns of a list of transfers, each with its own draws.
unfoldable pub turns_of {ℓ} :
    {A : Type ℓ}
    → (Draws → A → Monitor → Monitor × Begun)
    → (ℕ → Draws)
    → ℕ
    → List A
    → List (Monitor → Monitor × Begun)
turns_of begin draws n [] = []
turns_of begin draws n (a ∷ as') = begin (draws n) a ∷ turns_of begin draws (suc n) as'

-- A node's answers to getSignaturesForAddress, `none` where it throws, and to getParsedTransaction.
pub record Answers : Type 0 where
  pub sigs : Option (List SigInfo)
  pub fetch : JsString → Fetched

-- The loop over a scan, which throws where its first call does.
unfoldable pub loop_over {ℓ} :
    {A : Type ℓ}
    → ((JsString → Fetched) → List SigInfo → List A)
    → (Draws → A → Monitor → Monitor × Begun)
    → (ℕ → Draws)
    → Answers
    → Monitor
    → Monitor × List Waiting × Bool
unfolding turns turns_of
loop_over scan begin draws answers m = elim answers.sigs [
  | none ↦ (m, [], false)
  | some sigs ↦ turns (turns_of begin draws 0 (scan answers.fetch sigs)) m
]

-- pollSolanaUser, with the answers and the draws of its two scans.
unfoldable pub poll_solana_user :
    (JsString → JsString)
    → (ℕ → Draws)
    → (ℕ → Draws)
    → Answers
    → Answers
    → User
    → Monitor
    → Monitor × List Waiting × Bool
unfolding loop_over go_on
poll_solana_user sha256 draws draws' spls sols user m =
    let since = or_zero (get user.sol_address m.sol_slots) in
    go_on
      (loop_over (λ fetch. scan_incoming_spl fetch user.sol_address since)
        (λ d. begin_spl sha256 d user) draws spls m)
      (loop_over (λ fetch. scan_incoming_sol fetch user.sol_address since)
        (λ d. begin_sol sha256 d user) draws' sols)

-- `Math.min(...[...dccHeightMap.values(), 0])`
unfoldable pub min_height : JsMap JsString ℕ → ℕ
min_height [] = 0
min_height ((a, h) ∷ heights) = min h (min_height heights)

-- pollDcc, with the transactions of the bridge contract that the node lists, none where it fails.
unfoldable pub poll_dcc :
    (ℕ → Draws) → JsString → List NodeTx → List User → Monitor → Monitor × List Waiting
unfolding turns turns_of min_height user_by_dcc
poll_dcc draws bridge txs users m =
    let by_dcc = user_by_dcc users [] in
    let (m', started, whole) =
      turns
        (turns_of (λ d. begin_burn d by_dcc) draws 0
          (scan_burn_records bridge (min_height m.dcc_heights) txs))
        m in
    (m', started)

load_slots : Chain → JsMap ChainKey ℕ → JsMap JsString ℕ → JsMap JsString ℕ
load_slots chain [] m = m
load_slots chain (((c, a), slot) ∷ rows) m =
    load_slots chain rows (if chain_eqb c chain then set a slot m else m)

-- loadCursors, at the start.
unfoldable pub load_cursors : Monitor → Monitor
unfolding load_slots
load_cursors m = record m {
  sol_slots = load_slots solana m.store.cursors m.sol_slots;
  dcc_heights = load_slots dcc m.store.cursors m.dcc_heights;
}
