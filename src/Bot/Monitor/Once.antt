-- ===== src/Bot/Monitor/Once.antt =====
-- A transaction is relayed once at most, whatever order the turns are run in.
use sol_gateway_dcc.Base.{
  ℕ, zero, suc, ◌+◌, ◌≤◌, ◌≡◌, refl, sym, ap, subst, ==→eq, ◌∙◌, Bool, true, false, ◌||◌, Option,
  none, some, List, [], ◌∷◌, ◌++◌, arith, JsString, ◌==◌, str_eq, if◌then◌else◌, any, Bool-cases,
  inl, inr, ltb, leb, if_cases,
}
use sol_gateway_dcc.Js.Map.{JsMap, get}
use sol_gateway_dcc.Bot.Store.{
  ChainKey, chain_key_eq, User, NewTransfer, NewDeposit, Deposit, Row, transfer_row, Store,
  create_transfer, insert_transfer, record_deposit, same_key, deposit_row, or_zero, set_scan_cursor,
}
use sol_gateway_dcc.Bot.Scan.{SplTransfer, SolTransfer, Burn}
use sol_gateway_dcc.Bot.Turns.{
  TokenInfo, Monitor, token_by_mint, Waiting, Kind, spl, sol, burn, Draws, Begun, skipped, raised,
  waits, created, recorded, begin_turn, begin_known, begin_spl, begin_sol, begin_of, begin_burn,
}
use sol_gateway_dcc.Bot.Monitor.{finish, move_cursor}
use sol_gateway_dcc.Bot.Monitor.Schedule.{
  Turn, begins_spl, begins_sol, begins_burn, finishes, Polls, begun, put_back, take_out, finished,
  turn, run,
}

-- A deposit of the chain and the signature is in the store.
unfoldable pub was_recorded : ChainKey → Store → Bool
was_recorded k s = any (λ d. (d.chain, d.tx_sig) == k) s.deposits

-- How often a transaction stands among turns.
unfoldable pub relays_of : ChainKey → List Waiting → ℕ
relays_of k [] = 0
relays_of k (w ∷ ws) = (if w.source == k then 1 else 0) + relays_of k ws

abbrev rec : ChainKey → Monitor → Bool
rec k m = was_recorded k m.store

-- What the first part of a turn does to the record of a transaction.
abbrev Starts : ChainKey → Monitor → Monitor × Begun → Type 0
Starts k m (m', skipped) = rec k m' ≡ false → rec k m ≡ false
Starts k m (m', raised) = rec k m' ≡ false → rec k m ≡ false
Starts k m (m', waits w) =
    (rec k m' ≡ false → (rec k m ≡ false) × ((w.source == k) ≡ false))
    × ((w.source == k) ≡ true → rec k m ≡ false)

any-append {ℓ} :
    {A : Type ℓ} (p : A → Bool) (xs ys : List A) → any p (xs ++ ys) ≡ (any p xs || any p ys)
any-append p [] ys = refl
any-append p (x ∷ xs) ys = ground (arith, any-append p xs ys)

fresh-unrecorded :
    (id : JsString) (k : ChainKey) (ds : List Deposit)
    → any (same_key id k) ds ≡ false
    → any (λ d. (d.chain, d.tx_sig) == k) ds ≡ false
fresh-unrecorded id k [] h = refl
fresh-unrecorded id k (d ∷ ds) h = ground (arith, fresh-unrecorded id k ds)

created-Starts :
    (k : ChainKey) (m : Monitor) (id : JsString) (row : Row) (w : Waiting) (s : Store)
    (old : Option Row)
    → (was_recorded k s ≡ false → (rec k m ≡ false) × ((w.source == k) ≡ false))
    → ((w.source == k) ≡ true → rec k m ≡ false)
    → Starts k m (created (insert_transfer old id row s) w (record m { store = s }))
unfolding created insert_transfer was_recorded
created-Starts k m id row w s (some old) h i = λ e. (h e).0
created-Starts k m id row w s none h i = (h, i)

or_false : (a b : Bool) → (a || b) ≡ false → (a ≡ false) × (b ≡ false)
or_false a b h = ground arith

recorded-append :
    (k : ChainKey) (s : Store) (row : Deposit)
    → was_recorded k (record s { deposits = s.deposits ++ row ∷ [] })
      ≡ (was_recorded k s || ((row.chain, row.tx_sig) == k))
unfolding was_recorded
recorded-append k s row =
    any-append (λ d. (d.chain, d.tx_sig) == k) s.deposits (row ∷ []) ∙ ground arith

begin_turn-Starts :
    (k : ChainKey) (draws : Draws) (d : NewDeposit) (t : NewTransfer) (w : Waiting) (m : Monitor)
    → w.source ≡ (d.chain, d.tx_sig)
    → Starts k m (begin_turn draws d t w m)
unfolding begin_turn record_deposit recorded create_transfer deposit_row
begin_turn-Starts k draws d t w m e =
    elim (Bool-cases (any (same_key draws.deposit_id (d.chain, d.tx_sig)) m.store.deposits)) [
      | inl old ↦ rw old (λ h. h)
      | inr fresh ↦
          let free : rec (d.chain, d.tx_sig) m ≡ false =
            (unfold was_recorded in
              fresh-unrecorded draws.deposit_id (d.chain, d.tx_sig) m.store.deposits fresh) in
          rw fresh (
            created-Starts k m draws.transfer_id (transfer_row draws.transfer_id t draws.now) w
              (record m.store {
                deposits = m.store.deposits ++ deposit_row draws.deposit_id d ∷ [];
              })
              (get draws.transfer_id m.store.transfers)
              (λ h.
                let both = sym (recorded-append k m.store (deposit_row draws.deposit_id d)) ∙ h in
                let parts = or_false (rec k m) ((d.chain, d.tx_sig) == k) both in
                (parts.0, rw e (parts.1)))
              (λ h. subst (λ x. rec x m ≡ false) (sym e ∙ ==→eq w.source k h) free))
    ]

begin_spl-Starts :
    (k : ChainKey) (sha256 : JsString → JsString) (draws : Draws) (user : User) (t : SplTransfer)
    (m : Monitor)
    → Starts k m (begin_spl sha256 draws user t m)
unfolding begin_spl begin_known
begin_spl-Starts k sha256 draws user t m = go (get t.mint token_by_mint)
  where
    go : (o : Option TokenInfo) → Starts k m (begin_known sha256 draws user t o m)
    go none = λ h. h
    go (some info) = begin_turn-Starts k draws _ _ _ m refl

begin_sol-Starts :
    (k : ChainKey) (sha256 : JsString → JsString) (draws : Draws) (user : User) (t : SolTransfer)
    (m : Monitor)
    → Starts k m (begin_sol sha256 draws user t m)
unfolding begin_sol
begin_sol-Starts k sha256 draws user t m =
    if_cases (Starts k m) (ltb t.amount_lamports 5000000) _ _ (λ h q. q)
      (λ h. begin_turn-Starts k draws _ _ _ m refl)

begin_burn-Starts :
    (k : ChainKey) (draws : Draws) (users : JsMap JsString User) (b : Burn) (m : Monitor)
    → Starts k m (begin_burn draws users b m)
unfolding begin_burn begin_of
begin_burn-Starts k draws users b m = go (get b.sender users)
  where
    go : (o : Option User) → Starts k m (begin_of draws b o m)
    go none = λ h. h
    go (some user) =
        if_cases (Starts k m) (leb b.height (or_zero (get b.sender m.dcc_heights))) _ _ (λ h q. q)
          (λ h. begin_turn-Starts k draws _ _ _ m refl)

-- A transaction is started or waits `b` times at most, and only if it is recorded.
abbrev Once : ℕ → ChainKey → Polls → Type 0
Once b k p =
    (rec k p.monitor ≡ false → (relays_of k p.waiting + relays_of k p.started ≡ 0) × (b ≡ 1))
    × (relays_of k p.waiting + relays_of k p.started ≤ b)

begun-Once :
    (b : ℕ) (k : ChainKey) (r : Monitor × Begun) (p : Polls)
    → Starts k p.monitor r
    → Once b k p
    → Once b k (begun r p)
unfolding begun relays_of
begun-Once b k (m, skipped) p h (i, j) = ((λ e. i (h e)), j)
begun-Once b k (m, raised) p h (i, j) = ((λ e. i (h e)), j)
begun-Once b k (m, waits w) p (h, g) (i, j) = elim (Bool-cases (w.source == k)) [
  | inl same ↦
      let z = i (g same) in
      ((λ e. absurd (ground (arith, (h e).1, same))), ground (arith, same, z.0, z.1))
  | inr other ↦
      ((λ e. let z = i (h e).0 in (ground (arith, other, z.0), z.1)), ground (arith, other, j))
]

abbrev counted : ChainKey → Option (Waiting × List Waiting) → ℕ
counted k none = 0
counted k (some (w, rest)) = relays_of k (w ∷ rest)

relays_of-put_back :
    (k : ChainKey) (x : Waiting) (xs : List Waiting) (o : Option (Waiting × List Waiting))
    (w : Waiting) (rest : List Waiting)
    → ((y : Waiting) (ys : List Waiting) → o ≡ some (y, ys) → relays_of k xs ≡ relays_of k (y ∷ ys))
    → put_back x o ≡ some (w, rest)
    → relays_of k (x ∷ xs) ≡ relays_of k (w ∷ rest)
unfolding put_back relays_of
relays_of-put_back k x xs none w rest ih q = absurd (ground (arith, q))
relays_of-put_back k x xs (some (y, ys)) w rest ih q =
    let e = ih y ys refl in omega (arith, e) ∙ ap (counted k) q

-- Taking an entry out moves its count.
relays_of-take_out :
    (k : ChainKey) (n : ℕ) (ws : List Waiting) (w : Waiting) (rest : List Waiting)
    → take_out n ws ≡ some (w, rest)
    → relays_of k ws ≡ relays_of k (w ∷ rest)
unfolding take_out relays_of
relays_of-take_out k n [] w rest h = absurd (ground (arith, h))
relays_of-take_out k zero (x ∷ xs) w rest h = ap (counted k) h
relays_of-take_out k (suc n) (x ∷ xs) w rest h =
    relays_of-put_back k x xs (take_out n xs) w rest (λ y ys. relays_of-take_out k n xs y ys) h

move_cursor_keeps :
    (k : ChainKey) (kind : Kind) (address : JsString) (slot : ℕ) (m : Monitor)
    → rec k (move_cursor kind address slot m) ≡ rec k m
unfolding move_cursor was_recorded set_scan_cursor
move_cursor_keeps k spl address slot m = refl
move_cursor_keeps k sol address slot m =
    if_cases (λ m'. rec k m' ≡ rec k m) (ltb (or_zero (get address m.sol_slots)) slot) _ _
      (λ h. refl) (λ h. refl)
move_cursor_keeps k burn address slot m = refl

finished-Once :
    (b : ℕ) (k : ChainKey) (o : Option (Waiting × List Waiting)) (n : ℕ) (p : Polls)
    → take_out n p.waiting ≡ o
    → Once b k p
    → Once b k (finished o p)
unfolding finished finish relays_of
finished-Once b k none n p e h = h
finished-Once b k (some (w, ws)) n p e (i, j) =
    let moved = relays_of-take_out k n p.waiting w ws e in
    let keeps = move_cursor_keeps k w.kind w.address w.slot p.monitor in
    ((λ q. let z = i (sym keeps ∙ q) in (omega (arith, moved, z.0), z.1)), omega (arith, moved, j))

turn-Once :
    (b : ℕ) (k : ChainKey) (sha256 : JsString → JsString) (t : Turn) (p : Polls)
    → Once b k p
    → Once b k (turn sha256 t p)
unfolding turn
turn-Once b k sha256 (begins_spl draws user t) p h =
    begun-Once b k (begin_spl sha256 draws user t p.monitor) p
      (begin_spl-Starts k sha256 draws user t p.monitor) h
turn-Once b k sha256 (begins_sol draws user t) p h =
    begun-Once b k (begin_sol sha256 draws user t p.monitor) p
      (begin_sol-Starts k sha256 draws user t p.monitor) h
turn-Once b k sha256 (begins_burn draws users burned) p h =
    begun-Once b k (begin_burn draws users burned p.monitor) p
      (begin_burn-Starts k draws users burned p.monitor) h
turn-Once b k sha256 (finishes n) p h = finished-Once b k (take_out n p.waiting) n p refl h

run-Once :
    (b : ℕ) (k : ChainKey) (sha256 : JsString → JsString) (ts : List Turn) (p : Polls)
    → Once b k p
    → Once b k (run sha256 ts p)
unfolding run
run-Once b k sha256 [] p h = h
run-Once b k sha256 (t ∷ ts) p h =
    run-Once b k sha256 ts (turn sha256 t p) (turn-Once b k sha256 t p h)

-- The monitor before its first turn.
abbrev pub idle : Monitor → Polls
idle m = record { monitor = m; waiting = []; started = [] }

-- From any store, in every order of the turns of any polls, the relay is called at most once for a
-- transaction of a chain, and not at all for one whose deposit was in the store before.
pub run-relayed_once :
    (k : ChainKey) (sha256 : JsString → JsString) (ts : List Turn) (m : Monitor)
    → relays_of k (run sha256 ts (idle m)).started ≤ (if was_recorded k m.store then 0 else 1)
unfolding relays_of
run-relayed_once k sha256 ts m =
    let b : ℕ = if was_recorded k m.store then 0 else 1 in
    let kept = run-Once b k sha256 ts (idle m) ((λ h. (refl, rw h refl)), omega arith) in
    omega (arith, kept.1)
