-- ===== src/Lib.antt =====
-- Verification of the Stoffel MPC coordinator (crates/off-chain, crates/coord-shared, and the program
-- run-coord of crates/bins).
--
-- The coordinator leads n parties, t of them faulty, through the rounds of an MPC execution:
-- preprocessing, reservation of input masks, collection of masked inputs, computation, distribution
-- of encrypted output shares. Parties propose rounds, and a round is entered when a quorum has
-- proposed it and its precondition holds. Clients reserve mask indices, submit masked inputs and
-- fetch output shares; a browser does so with requests that carry their own signatures, by a session
-- that a passkey has opened. Finished executions are retired, and give up their place when it is needed.
--
-- Files, with what they model:
--   Prelude           tests, lists, equality, results, hash maps and sets as association lists
--   Shared            crates/coord-shared/src/lib.rs: Round, ExecutionId, its texts (Hex), the error
--                     types
--   Coordinator       crates/off-chain/src/lib.rs:
--     Types           registrations, events, RPC errors, the network
--     Topology        validate_topology, transition_quorum, retirement_quorum
--     Inputs          expand_input_ranges
--     Execution       CoordinatorExecutionState and its construction
--     Execution/Rounds      next_quorum_round, blocking_precondition, try_advance
--     Execution/Cascade, Delivery, Precondition    what a cascade of rounds does
--     Reserve         reserve_mask_indices; Reserve/Slots, Admission, Counting
--     Submit          submit_masked_inputs; Submit/Writes, Admission
--     Retired         RetiredExecutions; Retired/Bounds, Parties
--     Server          CoordinatorRPCServerSharedBase: registration, retirement, shutdown;
--                     Server/Registering
--     Rpc             the RPC methods on one execution
--     Outputs         send_output_shares, obtain_output_shares; Outputs/Delivery
--     Subscriptions   the subscriptions to reservations and masked inputs;
--                     Subscriptions/Feed, Unaffected, History: who is sent what across submissions
--     System          the methods that change the state as actions of concurrent tasks, and runs
--     System/Soundness, Safety, Registration, Interleaving, Honest    the invariant of all runs
--   Node              the module node_rpc of crates/off-chain/src/lib.rs
--     Node/Range, Waiting, MaskShares, Requests, Delivery, Served    what a range request is answered with,
--                     and when
--   Browser           crates/off-chain/src/browser_rpc.rs:
--     Message         authentication_message, webauthn_bind_challenge
--     Nonces          NonceBook; Nonces/Replay, Runs against a log that forgets nothing
--     SignCounts      SignCounts
--     Bindings        WebauthnBindings; Bindings/Targets
--     Webauthn        verify_webauthn_assertion
--     Session         authenticate
--     CredentialIndex    load_credential_id_index
--     Bind, Roster    browser_bind_webauthn_identity, and whom it admits
--     Status          browser_execution_status, browser_round, browser_output_shares
--     Methods         the other signed methods of the coordinator, and those of a node
--     Concurrent      the sections of the handlers as actions in any order;
--                     Attestation and OutputKey: what holds in all runs
--   Client            OffChainCoordinatorClient of crates/off-chain/src/lib.rs: Waiting
--                     (wait_for_indices, wait_for_round), Inputs (wait_for_inputs, with its stable
--                     sort in Sorting, and Inputs/Order), Outputs (obtain_outputs) and Sending
--                     (send_output_shares, send_masked_inputs)
--   RunCoord          crates/bins/src/bin/run-coord.rs: Arguments (parse_one_off) and Assignment
--                     (build_input_assignment), with Assignment/Ranges
--   Tests             runs on concrete data, and each theorem applied to such data
--
-- State and concurrency. One mutex guards the shared state, so a method is one or more sections
-- that run without interruption. A section is a function on the state. Where a method releases the
-- lock between two sections, its definition takes what other tasks do meanwhile as a function
-- argument, and System has one action per section, so a list of actions is any interleaving. The
-- second lock, masked_input_delivery, is the map in_flight: while the submission of a task that has
-- taken it is under way, other submissions and proposals on it wait. It is an object of an execution's
-- state; an action of System names the one that its task has cloned, which may be that of an evicted
-- execution of the same name, and so any.
--
-- Numbers. Indices and counts are natural numbers; the u64 sums and differences that can wrap are
-- written with their modulus. A list of the source has fewer than 2 ^ 63 elements where a theorem
-- says so. usize is taken to have 64 bits.
--
-- Fuel. The loop of try_advance has fuel seven. Each turn moves to a later one of the six rounds, so
-- it ends by its own condition. The loop that draws a session token has the list of the draws as its
-- fuel; it ends if they differ and are more than the sessions.
--
-- Parameters. The network (whether a message is sent in time, whether a subscription is closed) is
-- a record of two functions; the serialisation of mask shares is a function. Byte strings stand for
-- identities, hashes and ciphertexts. The cryptography of the browser listener, JSON and base64 are
-- one record of functions (Crypto), of which the theorems assume nothing but, where they say so, that a
-- hash has 32 bytes. The codec for hexadecimal texts is a record with its documented laws (IsHex). The
-- clock is an argument. Decryption and secret sharing of the client are
-- records of functions (Sharing, Sealing, Masking), the first two with the laws of a key pair (IsKeyPair)
-- where a theorem says so.
--
-- Not modelled: closing connections; the polling of the one-off shutdown; the texts of errors, log
-- output and serialisation; TLS, sockets and timers (crates/coord-shared/src/rpc.rs,
-- self_signed_certs.rs, the start-up code of crates/off-chain and of run-coord); the methods of the
-- client that only send one message; the client of crates/on-chain; the programs generate-ids and deploy-contract of crates/bins.
pub mod Prelude
pub mod Shared
pub mod Coordinator
pub mod Node
pub mod Browser
pub mod Client
pub mod RunCoord
pub mod Tests
