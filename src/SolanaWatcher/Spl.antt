-- ===== src/SolanaWatcher/Spl.antt =====
-- programs/sol-bridge-lock/src/events.rs: BridgeDepositSpl in Borsh, and what the watcher's decoder, which
-- passes over the discriminator, reads from it.
use sol_gateway_dcc.Base.{
  ℕ, zero, suc, ◌+◌, ◌≤◌, ◌≡◌, refl, sym, ap, ◌∙◌, some, [], ◌∷◌, ◌++◌, arith, JsString, length,
  take, drop, length-take, length-drop,
}
use sol_gateway_dcc.Base.Int.{ℤ, pos}
use sol_gateway_dcc.Js.Bytes.{Bytes, le_bytes, of_le, length-le_bytes, to_number, hex_encode}
use sol_gateway_dcc.Events.{SolanaDepositEvent}
use sol_gateway_dcc.SolanaWatcher.Decode.{signed64, number_of, decode_bridge_deposit}
use sol_gateway_dcc.SolanaWatcher.Layout.{Layout, HasLayoutWidths, bytes_of, decode_layout}
use sol_gateway_dcc.SolanaWatcher.Chain.{i64_bits}

pub record BridgeDepositSpl : Type 0 where
  pub transfer_id : Bytes
  pub sender : Bytes
  pub recipient_dcc : Bytes
  pub spl_mint : Bytes
  pub amount : ℕ
  pub nonce : ℕ
  pub slot : ℕ
  pub timestamp : ℤ
  pub chain_id : ℕ

unfoldable pub serialize_bridge_deposit_spl : BridgeDepositSpl → Bytes
serialize_bridge_deposit_spl d =
    d.transfer_id
    ++ (d.sender
        ++ (d.recipient_dcc
            ++ (d.spl_mint
                ++ (le_bytes 8 d.amount
                    ++ (le_bytes 8 d.nonce
                        ++ (le_bytes 8 d.slot
                            ++ (le_bytes 8 (i64_bits d.timestamp) ++ le_bytes 4 d.chain_id)))))))

-- The words of the mint's address, from its byte `n` on.
abbrev pub mint_word : BridgeDepositSpl → ℕ → Bytes
mint_word d n = take 8 (drop n d.spl_mint)

-- The deposit that the watcher reports: the amount and the nonce are bytes of the mint's address, the
-- chain id is the low half of the amount.
abbrev pub misread : (Bytes → JsString) → BridgeDepositSpl → JsString → SolanaDepositEvent
misread base58 d signature = record {
  transfer_id = hex_encode d.transfer_id;
  sender = base58 d.sender;
  recipient_dcc = hex_encode d.recipient_dcc;
  amount = of_le (mint_word d 0);
  nonce = of_le (mint_word d 8);
  slot = to_number (of_le (mint_word d 16));
  timestamp = number_of (signed64 (of_le (mint_word d 24)));
  chain_id = of_le (take 4 (le_bytes 8 d.amount));
  signature = signature;
  confirmations = pos 0;
}

pub record HasSplWidths (d : BridgeDepositSpl) : Type 0 where
  pub transfer_id : length d.transfer_id ≡ 32
  pub sender : length d.sender ≡ 32
  pub recipient_dcc : length d.recipient_dcc ≡ 32
  pub spl_mint : length d.spl_mint ≡ 32

rejoin : (n : ℕ) (xs ys : Bytes) → take n xs ++ (drop n xs ++ ys) ≡ xs ++ ys
rejoin zero xs ys = refl
rejoin (suc n) [] ys = refl
rejoin (suc n) (x ∷ xs) ys = ap (◌∷◌ x) (rejoin n xs ys)

-- A word and what follows it are what was there.
rejoin_at :
    (n m : ℕ) (xs ys : Bytes)
    → m ≡ n + 8
    → take 8 (drop n xs) ++ (drop m xs ++ ys) ≡ drop n xs ++ ys
rejoin_at zero m xs ys e = let eight : m ≡ 8 = omega arith in rw eight (rejoin 8 xs ys)
rejoin_at (suc n) zero xs ys e = absurd (omega arith)
rejoin_at (suc n) (suc m) [] ys e = refl
rejoin_at (suc n) (suc m) (x ∷ xs) ys e = rejoin_at n m xs ys (omega arith)

drop_all : (n : ℕ) (xs : Bytes) → length xs ≡ n → drop n xs ≡ []
drop_all zero [] h = refl
drop_all zero (x ∷ xs) h = absurd (omega arith)
drop_all (suc n) [] h = refl
drop_all (suc n) (x ∷ xs) h = drop_all n xs (omega arith)

-- Four words are the whole of 32 bytes.
words_joined :
    (xs ys : Bytes)
    → length xs ≡ 32
    → take 8 xs ++ (take 8 (drop 8 xs) ++ (take 8 (drop 16 xs) ++ (take 8 (drop 24 xs) ++ ys)))
      ≡ xs ++ ys
words_joined xs ys h =
    ap (λ bs. take 8 xs ++ (take 8 (drop 8 xs) ++ bs))
      (ap (λ bs. take 8 (drop 16 xs) ++ (take 8 (drop 24 xs) ++ bs))
          (ap (λ none_left. none_left ++ ys) (sym (drop_all 32 xs h)))
        ∙ ap (take 8 (drop 16 xs) ++◌) (rejoin_at 24 32 xs ys refl)
        ∙ rejoin_at 16 24 xs ys refl)
    ∙ ap (take 8 xs ++◌) (rejoin_at 8 16 xs ys refl)
    ∙ rejoin_at 0 8 xs ys refl

length-mint_word :
    (d : BridgeDepositSpl) (n : ℕ) → HasSplWidths d → n + 8 ≤ 32 → length (mint_word d n) ≡ 8
length-mint_word d n v h =
    omega (arith, v.spl_mint, length-take 8 (drop n d.spl_mint), length-drop n d.spl_mint)

after_mint : BridgeDepositSpl → Bytes
after_mint d =
    le_bytes 8 d.amount
    ++ (le_bytes 8 d.nonce
        ++ (le_bytes 8 d.slot ++ (le_bytes 8 (i64_bits d.timestamp) ++ le_bytes 4 d.chain_id)))

-- An event of an SPL deposit is decoded as a native deposit all the same. Whatever the amount that was
-- locked, the amount that is reported is the first eight bytes of the token's mint address, the nonce,
-- the slot and the timestamp are its other bytes, and the chain id is the low half of the amount.
pub decode-serialize_bridge_deposit_spl :
    (base58 : Bytes → JsString) (d : BridgeDepositSpl) (signature : JsString)
    → HasSplWidths d
    → decode_bridge_deposit base58 (serialize_bridge_deposit_spl d) signature
      ≡ some (misread base58 d signature)
unfolding serialize_bridge_deposit_spl after_mint
decode-serialize_bridge_deposit_spl base58 d signature v =
    ap (λ bs. decode_bridge_deposit base58 bs signature) (sym same)
    ∙ decode_layout laid widths base58 signature
  where
    laid : Layout
    laid = record {
      id = d.transfer_id;
      sender = d.sender;
      recipient = d.recipient_dcc;
      amount = mint_word d 0;
      nonce = mint_word d 8;
      slot = mint_word d 16;
      timestamp = mint_word d 24;
      chain = take 4 (le_bytes 8 d.amount);
      rest =
          drop 4 (le_bytes 8 d.amount)
          ++ (le_bytes 8 d.nonce
              ++ (le_bytes 8 d.slot
                  ++ (le_bytes 8 (i64_bits d.timestamp) ++ le_bytes 4 d.chain_id)));
    }

    widths : HasLayoutWidths laid
    widths = record {
      id = v.transfer_id;
      sender = v.sender;
      recipient = v.recipient_dcc;
      amount = length-mint_word d 0 v (omega arith);
      nonce = length-mint_word d 8 v (omega arith);
      slot = length-mint_word d 16 v (omega arith);
      timestamp = length-mint_word d 24 v (omega arith);
      chain = omega (arith, length-take 4 (le_bytes 8 d.amount), length-le_bytes 8 d.amount);
    }

    same : bytes_of laid ≡ serialize_bridge_deposit_spl d
    same =
        ap (λ bs. d.transfer_id ++ (d.sender ++ (d.recipient_dcc ++ bs)))
          (ap (λ bs. mint_word d 0 ++ (mint_word d 8 ++ (mint_word d 16 ++ (mint_word d 24 ++ bs))))
              (rejoin 4 (le_bytes 8 d.amount) _)
            ∙ words_joined d.spl_mint (after_mint d) v.spl_mint)
