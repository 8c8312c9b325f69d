-- ===== src/Lib.antt =====
-- The validator, the monitor, the API and the Telegram bot of the SOL to DCC bridge. One watcher turns
-- the Solana program's logs into deposit events, another the DCC contract's transactions into burn
-- events, and each emits an event once it is final; main.ts proposes the event to the consensus
-- engine, which signs the canonical message, collects the attestations of other validators, and emits
-- a result once enough of them agree; main.ts then submits a mint to DCC, or an unlock to the Solana
-- program, with the collected signatures. The monitor checks the supply, the validators and the
-- chains, and asks for a pause. The API builds the instructions that users sign, and keeps and pushes
-- the status of transfers. The bot takes transfers from users in a wizard, polls both chains for
-- deposits and burns, and relays each.
--
--  Base           lists, tests, keys and integers over the native numbers
--  Js             the parts of JavaScript that the code uses: Map, Set, Buffer, string functions
--  Events         SolanaDepositEvent and DccBurnEvent (validator/src/watchers)
--  Consensus      validator/src/consensus/engine.ts, and the handlers of validator/src/main.ts that
--                 propose (deposit_request, burn_request)
--  Submission     submitMintToDcc, submitUnlockToSolana and the Borsh helpers of
--                 validator/src/main.ts, beside UnlockParams and construct_unlock_message of
--                 programs/sol-bridge-lock/src/instructions/unlock.rs and constructLegacyMintMessage of
--                 dcc-contracts/bridge-controller/bridge_controller.ride
--  Signer         validator/src/signer/threshold-signer.ts: its key files (Keys) and its state (Signing)
--  SolanaWatcher  validator/src/watchers/solana-watcher.ts, beside the events of
--                 programs/sol-bridge-lock/src/events.rs
--  DccWatcher     validator/src/watchers/dcc-watcher.ts, beside the burn records of
--                 dcc-contracts/bridge-controller/bridge_controller.ride
--  Monitoring     monitoring/src/detectors/anomaly-detector.ts, the channels of
--                 monitoring/src/alerts/dispatcher.ts, and the checks of monitoring/src/main.ts (Service);
--                 Runs performs checks in any order
--  Transport      validator/src/p2p/transport.ts
--  Relay          telegram-bot/src/bridge/relay.cjs
--  Bot            telegram-bot/src/store.cjs (Store), the scans of telegram-bot/src/chains (Scan) and
--                 telegram-bot/src/bridge/monitor.cjs (Turns, Monitor; its Schedule runs turns in any order)
--  Config         loadConfig of validator/src/config/index.ts; Returns says when it returns
--  ConfigAccount  the bytes of BridgeConfig of programs/sol-bridge-lock/src/state.rs
--  Api            the deposit and redeem routes of api/src/routes (Requests, Tokens, Limits), and the address
--                 checks of the API, the validator and the bot's wizard; Minted joins them to the validator
--  Wizard         telegram-bot/src/scenes/bridge-wizard.cjs (Steps), and its steps and actions in any order
--                 (Scene)
--  RateLimiter    telegram-bot/src/middleware/rateLimiter.cjs; Runs logs whom it admits
--  TransferStore  api/src/utils/transfer-store.ts, and the status update of api/src/routes/admin.ts
--  TransferStatus api/src/routes/transfer.ts: GET /:id (Route) over what api/src/utils/dcc-helpers.ts reads
--                 from the node (Chain), and the streams with the operator's update (Stream)
--
-- State and operations. A class is a record of its fields and each method a function from the record
-- and the arguments to the new record and a list of outputs, which are the emitted events and the
-- timers that are set. In Consensus.Engine, proposeAttestation is two functions, propose_begin and
-- propose_finish, since it awaits the signature between its guards and its update; receiveAttestation
-- is receive_attestation, checkConsensus is check_consensus, checkConsensusTimeout is
-- check_consensus_timeout, and a timer's callback is fire. Consensus.Schedule runs them in every order
-- that the event loop allows: proposals in flight, attestations and timers, as one list of events. In
-- SolanaWatcher.Finality, processLogs is process_logs and one turn of runFinalityLoop's inner loop is
-- visit; a schedule is a list of arrivals and visits. In DccWatcher, one turn of runPollLoop is poll,
-- over a function from heights to the node's answers, and one turn of runFinalityLoop's inner loop is
-- visit_burn. In Transport.Peers a connection is a number and a store holds its PeerConnection, which
-- the map of peers and the socket's callbacks share; Transport.Runs runs the sockets' events in any
-- order. In Monitoring.Detector each check of the anomaly detector is a function to the new detector
-- and what it emits. In TransferStore the table is the list of its rows by transfer_id, in the order
-- of their ids. In Bot.Turns a turn, which is the handling of one deposit or burn, is begun before the
-- await of its notification and finished after it; Bot.Monitor.Schedule runs the parts of turns in
-- every order, and poll_solana_user and poll_dcc are the polls whose notifications return at once. In
-- TransferStatus.Stream a response is a number, and sseClients a map from transfers to the numbers of
-- their responses. In Signer.Signing a method gives the new signer and files, with a value or none
-- where it throws. In Relay the outcome of each attempt is a function of its number, and a relay is
-- the list of what it writes and notifies, with its result.
--
-- Numbers. Amounts, nonces and slots are native natural numbers; a bigint that may be negative is an
-- integer; Number of a bigint is rounding to 53 bits, ties to even; the writes of a Buffer fail, as
-- the RangeError does, outside of their range. Strings are lists of UTF-16 code units. No function
-- needs fuel: each is structural, and rounding takes the twelve doublings that 64 bits need.
--
-- Not modelled. Signing and public keys are parameters of the schedule: any result of the signing
-- callback, and any public key, may occur. The numbers of the API and the wizard are parameters with
-- their tests and Math.floor of a product, and so are the answers of nodes. base58 is a parameter of
-- the decoder, as is the decoding of a key in unlock_input. Fractional numbers of the monitor are a
-- parameter, Doubles, with their order and the supply's drift. Logging is left out. tweetnacl and
-- aes-256-gcm are a parameter of the signer. Of main.ts the start-up, the derived addresses and the
-- network are left out; of the watchers the subscription and the polling intervals; of the transport
-- the sockets and the signing of messages. The API's history, stats and health, the monitor's requests
-- and its emergency pause, the bot's commands, wallets and texts, the scripts and the frontend are not
-- modelled, and neither are the Solana program and the DCC contract beyond the formats that the
-- validator has to agree with.
pub mod Base
pub mod Js
pub mod Events
pub mod Consensus
pub mod Submission
pub mod Signer
pub mod SolanaWatcher
pub mod DccWatcher
pub mod Monitoring
pub mod Transport
pub mod Relay
pub mod RateLimiter
pub mod TransferStore
pub mod TransferStatus
pub mod Bot
pub mod Config
pub mod ConfigAccount
pub mod Api
pub mod Wizard
