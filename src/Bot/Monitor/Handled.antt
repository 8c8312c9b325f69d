-- ===== src/Bot/Monitor/Handled.antt =====
-- Which deposits a turn relays, where its notification returns at once.
use sol_gateway_dcc.Base.{
  ◌≡◌, refl, ◌∙◌, Bool, true, false, not, ◌&&◌, Option, none, some, List, [], ◌∷◌, arith, JsString,
  ◌==◌, str_eq, if◌then◌else◌, any, Bool-cases, inl, inr, ltb, leb,
}
use sol_gateway_dcc.Js.Map.{JsMap, get}
use sol_gateway_dcc.Bot.Store.{
  solana, dcc, ChainKey, chain_key_eq, User, NewTransfer, NewDeposit, Deposit, Store,
  create_transfer, insert_transfer, record_deposit, same_key,
}
use sol_gateway_dcc.Bot.Scan.{SplTransfer, SolTransfer, Burn}
use sol_gateway_dcc.Bot.Turns.{
  TokenInfo, Monitor, token_by_mint, RelayCall, sol_to_dcc, Waiting, Draws, Begun, created,
  recorded, begin_turn, begin_known, begin_spl, begin_sol, begin_of, begin_burn, or_text,
  dcc_to_sol, native_sol_mint,
}
use sol_gateway_dcc.Bot.Monitor.{complete}
use sol_gateway_dcc.Bot.Monitor.Once.{was_recorded}
use sol_gateway_dcc.Bot.Monitor.Passed.{height_of}

-- The uuids are no row's.
abbrev pub AreFresh : Draws → Store → Type 0
AreFresh draws s =
    (any (λ d. d.id == draws.deposit_id) s.deposits ≡ false)
    × (get draws.transfer_id s.transfers ≡ none)

-- The calls of the relay of a turn.
abbrev pub calls : Monitor × List Waiting × Bool → List RelayCall
calls (m, [], whole) = []
calls (m, w ∷ ws, whole) = w.call ∷ calls (m, ws, whole)

unrecorded-fresh :
    (id : JsString) (k : ChainKey) (s : Store)
    → any (λ d. d.id == id) s.deposits ≡ false
    → any (same_key id k) s.deposits ≡ was_recorded k s
unfolding was_recorded
unrecorded-fresh id k s h = go s.deposits h
  where
    go :
        (ds : List Deposit)
        → any (λ d. d.id == id) ds ≡ false
        → any (same_key id k) ds ≡ any (λ d. (d.chain, d.tx_sig) == k) ds
    go [] h' = refl
    go (d ∷ ds) h' = ground (arith, h', go ds (ground (arith, h')))

begin_turn-calls :
    (draws : Draws) (d : NewDeposit) (t : NewTransfer) (w : Waiting) (m : Monitor)
    → AreFresh draws m.store
    → calls (complete (begin_turn draws d t w m))
      ≡ (if was_recorded (d.chain, d.tx_sig) m.store then [] else w.call ∷ [])
unfolding begin_turn recorded create_transfer record_deposit complete insert_transfer created
begin_turn-calls draws d t w m (new, free) =
    let same = unrecorded-fresh draws.deposit_id (d.chain, d.tx_sig) m.store new in
    rw same (elim (Bool-cases (was_recorded (d.chain, d.tx_sig) m.store)) [
      | inl old ↦ rw old refl
      | inr fresh ↦ rw fresh (rw free refl)
    ])

-- What a scan shows: a deposit of a token or of SOL at a user's address, or a burn, with the users by
-- their DCC addresses.
pub data Seen : Type 0 where
  token : User → SplTransfer → Seen
  native : User → SolTransfer → Seen
  burned : JsMap JsString User → Burn → Seen

abbrev pub begin : (JsString → JsString) → Draws → Seen → Monitor → Monitor × Begun
begin sha256 draws (token user t) m = begin_spl sha256 draws user t m
begin sha256 draws (native user t) m = begin_sol sha256 draws user t m
begin sha256 draws (burned users b) m = begin_burn draws users b m

abbrev pub is_some {ℓ} : {A : Type ℓ} → Option A → Bool
is_some none = false
is_some (some a) = true

-- Whether it is to be relayed: the token is known, the SOL at least 0.005, or the burn of a user and above
-- the sender's cursor; and its transaction is not recorded.
abbrev pub is_due : Monitor → Seen → Bool
is_due m (token user t) =
    is_some (get t.mint token_by_mint) && not (was_recorded (solana, t.sig) m.store)
is_due m (native user t) =
    leb 5000000 t.amount_lamports && not (was_recorded (solana, t.sig) m.store)
is_due m (burned users b) =
    is_some (get b.sender users)
    && (ltb (height_of b.sender m) b.height && not (was_recorded (dcc, b.dcc_tx_id) m.store))

-- The whole amount, to the address of the user's wallet or of the burn, under the id of the transfer's row.
abbrev pub call_for : (JsString → JsString) → Draws → Seen → RelayCall
call_for sha256 draws (token user t) =
    sol_to_dcc (sha256 t.sig) user.dcc_address t.amount_units t.mint t.slot draws.transfer_id
call_for sha256 draws (native user t) =
    sol_to_dcc (sha256 t.sig) user.dcc_address t.amount_lamports native_sol_mint t.slot
      draws.transfer_id
call_for sha256 draws (burned users b) =
    dcc_to_sol b.dcc_tx_id (or_text b.sol_recipient []) b.amount_units b.spl_mint b.sender
      draws.transfer_id

abbrev call_if : Bool → RelayCall → List RelayCall
call_if due c = if due then c ∷ [] else []

if_not {ℓ} : {A : Type ℓ} (b : Bool) (x y : A) → (if b then x else y) ≡ (if not b then y else x)
if_not true x y = refl
if_not false x y = refl

known-calls :
    (sha256 : JsString → JsString) (draws : Draws) (user : User) (t : SplTransfer) (m : Monitor)
    → AreFresh draws m.store
    → (o : Option TokenInfo)
    → calls (complete (begin_known sha256 draws user t o m))
      ≡ call_if
          (is_some o && not (was_recorded (solana, t.sig) m.store))
          (call_for sha256 draws (token user t))
unfolding begin_known complete
known-calls sha256 draws user t m fresh none = refl
known-calls sha256 draws user t m fresh (some info) =
    begin_turn-calls draws _ _ _ m fresh ∙ if_not (was_recorded (solana, t.sig) m.store) _ _

native-calls :
    (sha256 : JsString → JsString) (draws : Draws) (user : User) (t : SolTransfer) (m : Monitor)
    → AreFresh draws m.store
    → calls (complete (begin_sol sha256 draws user t m))
      ≡ call_if (is_due m (native user t)) (call_for sha256 draws (native user t))
unfolding begin_sol complete
native-calls sha256 draws user t m fresh = elim (Bool-cases (ltb t.amount_lamports 5000000)) [
  | inl dust ↦
      let low : leb 5000000 t.amount_lamports ≡ false = ground (arith, dust) in rw (dust, low) refl
  | inr enough ↦
      let high : leb 5000000 t.amount_lamports ≡ true = ground (arith, enough) in
      rw (enough, high)
        (begin_turn-calls draws _ _ _ m fresh ∙ if_not (was_recorded (solana, t.sig) m.store) _ _)
]

burn-calls :
    (sha256 : JsString → JsString) (draws : Draws) (users : JsMap JsString User) (b : Burn)
    (m : Monitor)
    → AreFresh draws m.store
    → (o : Option User)
    → calls (complete (begin_of draws b o m))
      ≡ call_if
          (is_some o
            && (ltb (height_of b.sender m) b.height
                && not (was_recorded (dcc, b.dcc_tx_id) m.store)))
          (call_for sha256 draws (burned users b))
unfolding begin_of complete
burn-calls sha256 draws users b m fresh none = refl
burn-calls sha256 draws users b m fresh (some user) =
    elim (Bool-cases (leb b.height (height_of b.sender m))) [
      | inl passed ↦
          let low : ltb (height_of b.sender m) b.height ≡ false = ground (arith, passed) in
          rw (passed, low) refl
      | inr later ↦
          let high : ltb (height_of b.sender m) b.height ≡ true = ground (arith, later) in
          rw (later, high)
            (begin_turn-calls draws _ _ _ m fresh
              ∙ if_not (was_recorded (dcc, b.dcc_tx_id) m.store) _ _)
    ]

-- A turn whose uuids are fresh and whose notification returns calls the relay exactly once where the deposit
-- or burn is due, with its whole amount and its recipient, and else not at all.
pub complete-calls :
    (sha256 : JsString → JsString) (draws : Draws) (seen : Seen) (m : Monitor)
    → AreFresh draws m.store
    → calls (complete (begin sha256 draws seen m))
      ≡ (if is_due m seen then call_for sha256 draws seen ∷ [] else [])
unfolding begin_spl begin_burn
complete-calls sha256 draws (token user t) m fresh =
    known-calls sha256 draws user t m fresh (get t.mint token_by_mint)
complete-calls sha256 draws (native user t) m fresh = native-calls sha256 draws user t m fresh
complete-calls sha256 draws (burned users b) m fresh =
    burn-calls sha256 draws users b m fresh (get b.sender users)
