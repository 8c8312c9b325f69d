-- ===== src/Bot/Monitor/Restart.antt =====
-- The cursors in memory are those of the store, so that loadCursors after a restart finds them again.
use sol_gateway_dcc.Base.{
  ℕ, ◌≡◌, refl, sym, ap, ◌∙◌, subst, Bool, true, false, ◌&&◌, Option, none, some, List, [], ◌∷◌,
  arith, JsString, ◌==◌, str_eq, if◌then◌else◌, Bool-cases, inl, inr, ltb, if_cases, leb, any,
}
use sol_gateway_dcc.Js.Map.{JsMap, get, has, set, get-set, has-get}
use sol_gateway_dcc.Js.Distinct.{HasDistinctKeys, set-HasDistinctKeys}
use sol_gateway_dcc.Bot.Store.{
  Chain, solana, dcc, User, NewTransfer, NewDeposit, Row, create_transfer, insert_transfer,
  record_deposit, same_key, ChainKey, chain_eqb, chain_key_eqb, chain_key_eq, chain_key_eqb_iff,
  Store, or_zero, get_scan_cursor, set_scan_cursor,
}
use sol_gateway_dcc.Bot.Scan.{SplTransfer, SolTransfer, Burn}
use sol_gateway_dcc.Bot.Turns.{
  TokenInfo, Monitor, token_by_mint, Waiting, Kind, spl, sol, burn, Draws, Begun, skipped, raised,
  waits, created, recorded, begin_turn, begin_known, begin_spl, begin_sol, begin_of, begin_burn,
}
use sol_gateway_dcc.Bot.Monitor.{finish, move_cursor, move_sol, move_dcc, load_cursors, load_slots}
use sol_gateway_dcc.Bot.Monitor.Schedule.{
  Turn, begins_spl, begins_sol, begins_burn, finishes, Polls, begun, take_out, finished, turn, run,
}
use sol_gateway_dcc.Bot.Monitor.Once.{idle}
use sol_gateway_dcc.Bot.Monitor.Passed.{height_of}

-- A row of the table, where there is one, or else an entry of the map.
abbrev loaded : Option ℕ → Option ℕ → Option ℕ
loaded none old = old
loaded (some slot) old = some slot

set_if :
    (test : Bool) (a b : JsString) (slot : ℕ) (m : JsMap JsString ℕ)
    → get a (if test then set b slot m else m) ≡ (if test && (b == a) then some slot else get a m)
set_if true a b slot m = get-set b a slot m
set_if false a b slot m = refl

has-none : (k : ChainKey) (rows : JsMap ChainKey ℕ) → has k rows ≡ false → get k rows ≡ none
has-none k rows h = ground (arith, has-get k rows, h)

get-load_slots :
    (c : Chain) (a : JsString) (rows : JsMap ChainKey ℕ) (m : JsMap JsString ℕ)
    → HasDistinctKeys rows
    → get a (load_slots c rows m) ≡ loaded (get (c, a) rows) (get a m)
unfolding load_slots
get-load_slots c a [] m h = unfold load_slots get in refl
get-load_slots c a (((d, b), slot) ∷ rows) m (new, h) =
    elim (Bool-cases (chain_key_eqb (d, b) (c, a))) [
      | inl same ↦
          let e : (d, b) ≡ (c, a) = (chain_key_eqb_iff (d, b) (c, a)).0 same in
          let gone = has-none (c, a) rows (subst (λ k. has k rows ≡ false) e new) in
          get-load_slots c a rows (if chain_eqb d c then set b slot m else m) h
          ∙ rw (gone, set_if (chain_eqb d c) a b slot m, same) (unfold get in rw same refl)
      | inr other ↦
          get-load_slots c a rows (if chain_eqb d c then set b slot m else m) h
          ∙ rw (set_if (chain_eqb d c) a b slot m, other) (unfold get in rw other refl)
    ]

-- The cursor of an address on Solana.
abbrev pub slot_of : JsString → Monitor → ℕ
slot_of address m = or_zero (get address m.sol_slots)

-- A monitor that starts on a store.
abbrev pub start : Store → Monitor
start s = load_cursors (record { sol_slots = []; dcc_heights = []; store = s })

-- What is in memory is what is in the store.
abbrev Agrees : Monitor → Type 0
Agrees m =
    HasDistinctKeys m.store.cursors
    × ((a : JsString) → slot_of a m ≡ get_scan_cursor solana a m.store)
    × ((a : JsString) → height_of a m ≡ get_scan_cursor dcc a m.store)

loaded_nothing : (o : Option ℕ) → or_zero (loaded o none) ≡ or_zero o
loaded_nothing none = refl
loaded_nothing (some n) = refl

start-Agrees : (s : Store) → HasDistinctKeys s.cursors → Agrees (start s)
unfolding load_cursors get_scan_cursor
start-Agrees s h = (
  h,
  λ a.
      ap or_zero (get-load_slots solana a s.cursors [] h)
      ∙ (unfold get in loaded_nothing (get (solana, a) s.cursors)),
  λ a.
      ap or_zero (get-load_slots dcc a s.cursors [] h)
      ∙ (unfold get in loaded_nothing (get (dcc, a) s.cursors)),
)

-- The first part of a turn leaves all cursors.
abbrev SameCursors : Monitor → Monitor × Begun → Type 0
SameCursors m (m', b) =
    (m'.sol_slots ≡ m.sol_slots)
    × (m'.dcc_heights ≡ m.dcc_heights)
    × (m'.store.cursors ≡ m.store.cursors)

begin_turn-SameCursors :
    (draws : Draws) (d : NewDeposit) (t : NewTransfer) (w : Waiting) (m : Monitor)
    → SameCursors m (begin_turn draws d t w m)
unfolding begin_turn recorded create_transfer record_deposit
begin_turn-SameCursors draws d t w m =
    elim (Bool-cases (any (same_key draws.deposit_id (d.chain, d.tx_sig)) m.store.deposits)) [
      | inl old ↦ rw old (refl, refl, refl)
      | inr fresh ↦ rw fresh (inserted _ _ _ refl)
    ]
  where
    inserted :
        (old : Option Row) (row : Row) (s : Store)
        → s.cursors ≡ m.store.cursors
        → SameCursors m
            (created (insert_transfer old draws.transfer_id row s) w (record m { store = s }))
    inserted none row s h = unfold insert_transfer created in (refl, refl, h)
    inserted (some r) row s h = unfold insert_transfer created in (refl, refl, h)

begin_spl-SameCursors :
    (sha256 : JsString → JsString) (draws : Draws) (user : User) (t : SplTransfer) (m : Monitor)
    → SameCursors m (begin_spl sha256 draws user t m)
unfolding begin_spl begin_known
begin_spl-SameCursors sha256 draws user t m = go (get t.mint token_by_mint)
  where
    go : (o : Option TokenInfo) → SameCursors m (begin_known sha256 draws user t o m)
    go none = (refl, refl, refl)
    go (some info) = begin_turn-SameCursors draws _ _ _ m

begin_sol-SameCursors :
    (sha256 : JsString → JsString) (draws : Draws) (user : User) (t : SolTransfer) (m : Monitor)
    → SameCursors m (begin_sol sha256 draws user t m)
unfolding begin_sol
begin_sol-SameCursors sha256 draws user t m =
    if_cases (SameCursors m) (ltb t.amount_lamports 5000000) _ _ (λ q. (refl, refl, refl))
      (λ q. begin_turn-SameCursors draws _ _ _ m)

begin_burn-SameCursors :
    (draws : Draws) (users : JsMap JsString User) (b : Burn) (m : Monitor)
    → SameCursors m (begin_burn draws users b m)
unfolding begin_burn begin_of
begin_burn-SameCursors draws users b m = go (get b.sender users)
  where
    go : (o : Option User) → SameCursors m (begin_of draws b o m)
    go none = (refl, refl, refl)
    go (some user) =
        if_cases (SameCursors m) (leb b.height (height_of b.sender m)) _ _ (λ q. (refl, refl, refl))
          (λ q. begin_turn-SameCursors draws _ _ _ m)

SameCursors-Agrees : (m : Monitor) (r : Monitor × Begun) → SameCursors m r → Agrees m → Agrees r.0
unfolding get_scan_cursor
SameCursors-Agrees m (m', b) (slots, heights, cursors) (h, i, j) =
    rw (cursors, slots, heights) (h, i, j)

begun-monitor : (r : Monitor × Begun) (p : Polls) → (begun r p).monitor ≡ r.0
unfolding begun
begun-monitor (m, skipped) p = refl
begun-monitor (m, raised) p = refl
begun-monitor (m, waits w) p = refl

cursor_set :
    (c d : Chain) (a b : JsString) (slot : ℕ) (m : Monitor)
    → or_zero (get (c, a) (set (d, b) slot m.store.cursors))
      ≡ (if chain_key_eqb (d, b) (c, a) then slot else get_scan_cursor c a m.store)
unfolding get_scan_cursor or_zero
cursor_set c d a b slot m = ground (arith, get-set (d, b) (c, a) slot m.store.cursors)

map_set :
    (a b : JsString) (slot : ℕ) (m : JsMap JsString ℕ)
    → or_zero (get a (set b slot m)) ≡ (if b == a then slot else or_zero (get a m))
unfolding or_zero
map_set a b slot m = ground (arith, get-set b a slot m)

move_sol-Agrees : (b : JsString) (slot : ℕ) (m : Monitor) → Agrees m → Agrees (move_sol b slot m)
unfolding move_sol set_scan_cursor get_scan_cursor
move_sol-Agrees b slot m (h, i, j) = (
  set-HasDistinctKeys (solana, b) slot m.store.cursors h,
  λ a. ground (arith, map_set a b slot m.sol_slots, cursor_set solana solana a b slot m, i a),
  λ a. j a ∙ sym (cursor_set dcc solana a b slot m),
)

move_dcc-Agrees : (b : JsString) (slot : ℕ) (m : Monitor) → Agrees m → Agrees (move_dcc b slot m)
unfolding move_dcc set_scan_cursor get_scan_cursor
move_dcc-Agrees b slot m (h, i, j) = (
  set-HasDistinctKeys (dcc, b) slot m.store.cursors h,
  λ a. i a ∙ sym (cursor_set solana dcc a b slot m),
  λ a. ground (arith, map_set a b slot m.dcc_heights, cursor_set dcc dcc a b slot m, j a),
)

move_cursor-Agrees :
    (kind : Kind) (b : JsString) (slot : ℕ) (m : Monitor)
    → Agrees m
    → Agrees (move_cursor kind b slot m)
unfolding move_cursor
move_cursor-Agrees spl b slot m h = move_sol-Agrees b slot m h
move_cursor-Agrees sol b slot m h =
    if_cases Agrees (ltb (slot_of b m) slot) _ _ (λ q. move_sol-Agrees b slot m h) (λ q. h)
move_cursor-Agrees burn b slot m h = move_dcc-Agrees b slot m h

begun-Agrees :
    (r : Monitor × Begun) (p : Polls)
    → SameCursors p.monitor r
    → Agrees p.monitor
    → Agrees (begun r p).monitor
begun-Agrees r p same h =
    subst Agrees (sym (begun-monitor r p)) (SameCursors-Agrees p.monitor r same h)

finished-Agrees :
    (o : Option (Waiting × List Waiting)) (p : Polls)
    → Agrees p.monitor
    → Agrees (finished o p).monitor
unfolding finished finish
finished-Agrees none p h = h
finished-Agrees (some (w, ws)) p h = move_cursor-Agrees w.kind w.address w.slot p.monitor h

turn-Agrees :
    (sha256 : JsString → JsString) (t : Turn) (p : Polls)
    → Agrees p.monitor
    → Agrees (turn sha256 t p).monitor
unfolding turn
turn-Agrees sha256 (begins_spl draws user t) p h =
    begun-Agrees _ p (begin_spl-SameCursors sha256 draws user t p.monitor) h
turn-Agrees sha256 (begins_sol draws user t) p h =
    begun-Agrees _ p (begin_sol-SameCursors sha256 draws user t p.monitor) h
turn-Agrees sha256 (begins_burn draws users b) p h =
    begun-Agrees _ p (begin_burn-SameCursors draws users b p.monitor) h
turn-Agrees sha256 (finishes n) p h = finished-Agrees (take_out n p.waiting) p h

run-Agrees :
    (sha256 : JsString → JsString) (ts : List Turn) (p : Polls)
    → Agrees p.monitor
    → Agrees (run sha256 ts p).monitor
unfolding run
run-Agrees sha256 [] p h = h
run-Agrees sha256 (t ∷ ts) p h = run-Agrees sha256 ts (turn sha256 t p) (turn-Agrees sha256 t p h)

-- Let the monitor start on a store with one cursor per chain and address, and run any turns in any order.
-- If it stops there and starts again on the store that it leaves, the cursor of every address on both
-- chains is again what it was in memory.
pub run-start :
    (sha256 : JsString → JsString) (ts : List Turn) (s : Store) (a : JsString)
    → HasDistinctKeys s.cursors
    → let m = (run sha256 ts (idle (start s))).monitor in
      (slot_of a (start m.store) ≡ slot_of a m) × (height_of a (start m.store) ≡ height_of a m)
unfolding load_cursors
run-start sha256 ts s a h =
    let before = run-Agrees sha256 ts (idle (start s)) (start-Agrees s h) in
    let after = start-Agrees (run sha256 ts (idle (start s))).monitor.store before.0 in
    (after.1 a ∙ sym (before.1 a), after.2 a ∙ sym (before.2 a))
