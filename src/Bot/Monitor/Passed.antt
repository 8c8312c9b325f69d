-- ===== src/Bot/Monitor/Passed.antt =====
-- A burn at or below the height of its sender's cursor is never relayed.
use sol_gateway_dcc.Base.{
  ℕ, zero, suc, ◌≤◌, ◌<◌, ◌≡◌, refl, sym, subst, Bool, true, false, Option, none, some, List, [],
  ◌∷◌, arith, JsString, ◌==◌, ==→eq, str_eq, Bool-cases, inl, inr, ltb, leb, if_cases, All,
}
use sol_gateway_dcc.Js.Map.{JsMap, get, get-set}
use sol_gateway_dcc.Bot.Store.{
  User, NewTransfer, NewDeposit, Row, Store, create_transfer, insert_transfer, record_deposit,
  or_zero,
}
use sol_gateway_dcc.Bot.Scan.{SplTransfer, SolTransfer, Burn}
use sol_gateway_dcc.Bot.Turns.{
  TokenInfo, Monitor, token_by_mint, Waiting, Kind, spl, sol, burn, Draws, Begun, skipped, raised,
  waits, created, recorded, begin_turn, begin_known, begin_spl, begin_sol, begin_of, begin_burn,
}
use sol_gateway_dcc.Bot.Monitor.{finish, move_cursor}
use sol_gateway_dcc.Bot.Monitor.Schedule.{
  Turn, begins_spl, begins_sol, begins_burn, finishes, Polls, begun, put_back, take_out, finished,
  turn, run,
}
use sol_gateway_dcc.Bot.Monitor.Once.{idle}

abbrev pub IsBurn : Kind → Type 0
IsBurn spl = ⊥
IsBurn sol = ⊥
IsBurn burn = Unit

-- The cursor of an address on DCC.
abbrev pub height_of : JsString → Monitor → ℕ
height_of sender m = or_zero (get sender m.dcc_heights)

-- A burn of the sender is above the height.
abbrev pub IsAbove : JsString → ℕ → Waiting → Type 0
IsAbove sender h w = IsBurn w.kind → w.address ≡ sender → h < w.slot

-- The first part of a turn leaves the cursors, and starts no burn of the sender up to the height.
abbrev Passes : JsString → ℕ → Monitor → Monitor × Begun → Type 0
Passes sender h m (m', skipped) = m'.dcc_heights ≡ m.dcc_heights
Passes sender h m (m', raised) = m'.dcc_heights ≡ m.dcc_heights
Passes sender h m (m', waits w) = (m'.dcc_heights ≡ m.dcc_heights) × IsAbove sender h w

begin_turn-Passes :
    (sender : JsString) (h : ℕ) (draws : Draws) (d : NewDeposit) (t : NewTransfer) (w : Waiting)
    (m : Monitor)
    → IsAbove sender h w
    → Passes sender h m (begin_turn draws d t w m)
unfolding begin_turn recorded create_transfer
begin_turn-Passes sender h draws d t w m above = go (record_deposit draws.deposit_id d m.store)
  where
    inserted :
        (old : Option Row) (row : Row) (s : Store)
        → Passes sender h m
            (created (insert_transfer old draws.transfer_id row s) w (record m { store = s }))
    inserted none row s = unfold insert_transfer created in (refl, above)
    inserted (some r) row s = unfold insert_transfer created in refl

    go : (r : Store × Bool) → Passes sender h m (recorded draws t w m r)
    go (s, false) = refl
    go (s, true) = inserted _ _ s

begin_spl-Passes :
    (sender : JsString) (h : ℕ) (sha256 : JsString → JsString) (draws : Draws) (user : User)
    (t : SplTransfer) (m : Monitor)
    → Passes sender h m (begin_spl sha256 draws user t m)
unfolding begin_spl begin_known
begin_spl-Passes sender h sha256 draws user t m = go (get t.mint token_by_mint)
  where
    go : (o : Option TokenInfo) → Passes sender h m (begin_known sha256 draws user t o m)
    go none = refl
    go (some info) = begin_turn-Passes sender h draws _ _ _ m (λ b. absurd b)

begin_sol-Passes :
    (sender : JsString) (h : ℕ) (sha256 : JsString → JsString) (draws : Draws) (user : User)
    (t : SolTransfer) (m : Monitor)
    → Passes sender h m (begin_sol sha256 draws user t m)
unfolding begin_sol
begin_sol-Passes sender h sha256 draws user t m =
    if_cases (Passes sender h m) (ltb t.amount_lamports 5000000) _ _ (λ q. refl)
      (λ q. begin_turn-Passes sender h draws _ _ _ m (λ b. absurd b))

begin_burn-Passes :
    (sender : JsString) (h : ℕ) (draws : Draws) (users : JsMap JsString User) (b : Burn)
    (m : Monitor)
    → h ≤ height_of sender m
    → Passes sender h m (begin_burn draws users b m)
unfolding begin_burn begin_of
begin_burn-Passes sender h draws users b m bound = go (get b.sender users)
  where
    go : (o : Option User) → Passes sender h m (begin_of draws b o m)
    go none = refl
    go (some user) =
        if_cases (Passes sender h m) (leb b.height (height_of b.sender m)) _ _ (λ q. refl)
          (λ q. begin_turn-Passes sender h draws _ _ _ m (λ _ same.
            let low = subst (λ s. h ≤ height_of s m) (sym same) bound in ground (arith, q, low)))

-- The cursor is at the height or above, and no burn up to it waits or has been started.
abbrev HasPassed : JsString → ℕ → Polls → Type 0
HasPassed sender h p =
    (h ≤ height_of sender p.monitor)
    × All (IsAbove sender h) p.waiting
    × All (IsAbove sender h) p.started

begun-HasPassed :
    (sender : JsString) (h : ℕ) (r : Monitor × Begun) (p : Polls)
    → Passes sender h p.monitor r
    → HasPassed sender h p
    → HasPassed sender h (begun r p)
unfolding begun
begun-HasPassed sender h (m, skipped) p same (low, ws, ss) =
    (subst (λ x. h ≤ or_zero (get sender x)) (sym same) low, ws, ss)
begun-HasPassed sender h (m, raised) p same (low, ws, ss) =
    (subst (λ x. h ≤ or_zero (get sender x)) (sym same) low, ws, ss)
begun-HasPassed sender h (m, waits w) p (same, above) (low, ws, ss) =
    (subst (λ x. h ≤ or_zero (get sender x)) (sym same) low, (above, ws), ss)

-- What is taken out of a list, and what is left, satisfies what all entries do.
abbrev AllParts {ℓ κ} : {A : Type ℓ} → (A → Type κ) → Option (A × List A) → Type κ
AllParts P none = Unit
AllParts P (some (x, xs)) = P x × All P xs

All-put_back {ℓ κ} :
    {A : Type ℓ} (P : A → Type κ) (x : A) (o : Option (A × List A))
    → P x
    → AllParts P o
    → AllParts P (put_back x o)
unfolding put_back
All-put_back P x none h k = tt
All-put_back P x (some (y, ys)) h (k, ks) = (k, (h, ks))

All-take_out {ℓ κ} :
    {A : Type ℓ} (P : A → Type κ) (n : ℕ) (xs : List A) → All P xs → AllParts P (take_out n xs)
unfolding take_out
All-take_out P n [] h = tt
All-take_out P zero (x ∷ xs) h = h
All-take_out P (suc n) (x ∷ xs) (h, hs) =
    All-put_back P x (take_out n xs) h (All-take_out P n xs hs)

move_cursor_above :
    (sender : JsString) (h : ℕ) (kind : Kind) (address : JsString) (slot : ℕ) (m : Monitor)
    → (IsBurn kind → address ≡ sender → h < slot)
    → h ≤ height_of sender m
    → h ≤ height_of sender (move_cursor kind address slot m)
unfolding move_cursor
move_cursor_above sender h spl address slot m above low = low
move_cursor_above sender h sol address slot m above low =
    if_cases (λ m'. h ≤ height_of sender m') (ltb (or_zero (get address m.sol_slots)) slot) _ _
      (λ q. low) (λ q. low)
move_cursor_above sender h burn address slot m above low =
    rw (get-set address sender slot m.dcc_heights) (elim (Bool-cases (address == sender)) [
      | inl same ↦
          let up = above tt (==→eq address sender same) in
          rw same (unfold or_zero in omega (arith, up))
      | inr other ↦ rw other low
    ])

finished-HasPassed :
    (sender : JsString) (h : ℕ) (o : Option (Waiting × List Waiting)) (p : Polls)
    → AllParts (IsAbove sender h) o
    → HasPassed sender h p
    → HasPassed sender h (finished o p)
unfolding finished finish
finished-HasPassed sender h none p parts k = k
finished-HasPassed sender h (some (w, ws)) p (above, rest) (low, waiting, started) =
    (move_cursor_above sender h w.kind w.address w.slot p.monitor above low, rest, (above, started))

turn-HasPassed :
    (sender : JsString) (h : ℕ) (sha256 : JsString → JsString) (t : Turn) (p : Polls)
    → HasPassed sender h p
    → HasPassed sender h (turn sha256 t p)
unfolding turn
turn-HasPassed sender h sha256 (begins_spl draws user t) p k =
    begun-HasPassed sender h _ p (begin_spl-Passes sender h sha256 draws user t p.monitor) k
turn-HasPassed sender h sha256 (begins_sol draws user t) p k =
    begun-HasPassed sender h _ p (begin_sol-Passes sender h sha256 draws user t p.monitor) k
turn-HasPassed sender h sha256 (begins_burn draws users b) p k =
    begun-HasPassed sender h _ p (begin_burn-Passes sender h draws users b p.monitor k.0) k
turn-HasPassed sender h sha256 (finishes n) p k =
    finished-HasPassed sender h (take_out n p.waiting) p
      (All-take_out (IsAbove sender h) n p.waiting k.1) k

run-HasPassed :
    (sender : JsString) (h : ℕ) (sha256 : JsString → JsString) (ts : List Turn) (p : Polls)
    → HasPassed sender h p
    → HasPassed sender h (run sha256 ts p)
unfolding run
run-HasPassed sender h sha256 [] p k = k
run-HasPassed sender h sha256 (t ∷ ts) p k =
    run-HasPassed sender h sha256 ts (turn sha256 t p) (turn-HasPassed sender h sha256 t p k)

-- Once the cursor of a sender is at a height or above and no turn waits, no order of later turns relays a
-- burn of that sender at this height or below, whether or not it was relayed before.
pub run-passed_burn :
    (sender : JsString) (h : ℕ) (sha256 : JsString → JsString) (ts : List Turn) (m : Monitor)
    → h ≤ height_of sender m
    → All (IsAbove sender h) (run sha256 ts (idle m)).started
run-passed_burn sender h sha256 ts m low =
    (run-HasPassed sender h sha256 ts (idle m) (low, tt, tt)).2
