-- ===== src/SolanaWatcher/Tests.antt =====
-- The watcher's theorems at concrete events.
use sol_gateway_dcc.Base.{
  ◌≡◌, ◌↔◌, refl, false, some, List, [], ◌∷◌, arith, JsString, codes, replicate,
}
use sol_gateway_dcc.Base.Int.{pos, negsuc}
use sol_gateway_dcc.Js.Map.{get, has, set, delete}
use sol_gateway_dcc.Js.Bytes.{Bytes, hex_encode}
use sol_gateway_dcc.Events.{SolanaDepositEvent}
use sol_gateway_dcc.SolanaWatcher.Decode.{decode_bridge_deposit}
use sol_gateway_dcc.SolanaWatcher.Finality.{
  SolanaWatcher, WatcherEvent, logs, visits, deposit_finalized, confirmed, visit, watch, FetchedTx,
}
use sol_gateway_dcc.SolanaWatcher.Finalized.{IsFinal, visit-finalized_iff, finalized_count}
use sol_gateway_dcc.SolanaWatcher.Chain.{
  BridgeDeposit, serialize_bridge_deposit, observed, decode-serialize_bridge_deposit,
}
use sol_gateway_dcc.SolanaWatcher.Spl.{
  BridgeDepositSpl, serialize_bridge_deposit_spl, misread, decode-serialize_bridge_deposit_spl,
}

abbrev base58 : Bytes → JsString
base58 = hex_encode

abbrev native_deposit : BridgeDeposit
native_deposit = record {
  transfer_id = replicate 32 7;
  sender = replicate 32 8;
  recipient_dcc = replicate 32 9;
  amount = 1_000_000_000;
  nonce = 3;
  slot = 250_000_000;
  timestamp = pos 1_700_000_000;
  chain_id = 2;
}

abbrev token_deposit : BridgeDepositSpl
token_deposit = record {
  transfer_id = replicate 32 7;
  sender = replicate 32 8;
  recipient_dcc = replicate 32 9;
  spl_mint = replicate 32 255;
  amount = 1;
  nonce = 3;
  slot = 250_000_000;
  timestamp = negsuc 4;
  chain_id = 2;
}

decode-serialize_bridge_deposit_example :
    decode_bridge_deposit base58 (serialize_bridge_deposit native_deposit) (codes "sig")
    ≡ some (observed base58 native_deposit (codes "sig"))
decode-serialize_bridge_deposit_example =
    decode-serialize_bridge_deposit base58 native_deposit (codes "sig") (record {
      transfer_id = refl;
      sender = refl;
      recipient_dcc = refl;
      amount = omega arith;
      nonce = omega arith;
      slot = omega arith;
      timestamp = omega arith;
      chain_id = omega arith;
    })

decode-serialize_bridge_deposit_spl_example :
    decode_bridge_deposit base58 (serialize_bridge_deposit_spl token_deposit) (codes "sig")
    ≡ some (misread base58 token_deposit (codes "sig"))
decode-serialize_bridge_deposit_spl_example =
    decode-serialize_bridge_deposit_spl base58 token_deposit (codes "sig")
      (record { transfer_id = refl; sender = refl; recipient_dcc = refl; spl_mint = refl })

abbrev seen : SolanaDepositEvent
unfolding hex_encode
seen = observed base58 native_deposit (codes "sig")

abbrev watching : SolanaWatcher
watching = record { required_confirmations = 32; pending_events = (seen.transfer_id, seen) ∷ [] }

abbrev fetched : FetchedTx
fetched = record { slot = 250_000_000; failed = false }

visit-finalized_iff_example :
    ((visit watching seen.transfer_id 250_000_040 (some fetched)).1
      ≡ deposit_finalized (confirmed seen (pos 40)) ∷ [])
    ↔ ((tx : FetchedTx) × (some fetched ≡ some tx) × IsFinal watching seen 250_000_040 tx)
unfolding get hex_encode
visit-finalized_iff_example =
    visit-finalized_iff watching seen.transfer_id seen 250_000_040 (some fetched) refl

-- The same log twice, and visits before and after the slot is deep enough.
abbrev twice : List WatcherEvent
twice =
    logs (seen ∷ seen ∷ [])
    ∷ visits seen.transfer_id 250_000_001 (some fetched)
    ∷ visits seen.transfer_id 250_000_040 (some fetched)
    ∷ visits seen.transfer_id 250_000_050 (some fetched)
    ∷ []

twice_test :
    finalized_count seen.transfer_id
      (watch (record { required_confirmations = 32; pending_events = [] }) twice).1
    ≡ 1
unfolding watch visit get has set delete hex_encode finalized_count
twice_test = refl
