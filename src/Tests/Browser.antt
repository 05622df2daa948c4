-- ===== src/Tests/Browser.antt =====
-- The browser listener of crates/off-chain/src/browser_rpc.rs on concrete data. The cryptography is
-- a toy: a signature is the signing key, and a hash tells the length.
use stoffel_mpc_coordinator.Prelude.HashMap
use stoffel_mpc_coordinator.Prelude.HashSet
use stoffel_mpc_coordinator.Prelude.{
  ◌≡◌, refl, true, List, [], ◌∷◌, ◌++◌, some, length, replicate, codes, list_eq, nat_eq, pair_eq,
  ok, err, ◌==◌,
}
use stoffel_mpc_coordinator.Coordinator.Execution.{ExecutionState, input_slot_client}
use stoffel_mpc_coordinator.Coordinator.Server.{SharedBase}
use stoffel_mpc_coordinator.Browser.{Crypto, BrowserCall, Token, auth_error, already_submitted}
use stoffel_mpc_coordinator.Browser.Message.{authentication_message, webauthn_bind_challenge}
use stoffel_mpc_coordinator.Browser.Nonces.{accept, seen_by}
use stoffel_mpc_coordinator.Browser.Nonces.Runs.{}
use stoffel_mpc_coordinator.Browser.SignCounts.{last_known, accept_count}
use stoffel_mpc_coordinator.Browser.Bindings.{insert, with_token, with_target, get}
use stoffel_mpc_coordinator.Browser.Webauthn.{
  verify_webauthn_assertion, check_client_data, check_authenticator_data, signed_by,
}
use stoffel_mpc_coordinator.Browser.Session.{
  authenticate, session_identity, request_message, IsVouched,
}
use stoffel_mpc_coordinator.Browser.Bind.{
  BindWebauthnIdentity, BrowserConfig, CoordinatorBrowserState, admit_bind, find_identity,
  indexed_match, match_candidate, candidates, has_submitted, indices_from, count_bind, finish_bind,
}
use stoffel_mpc_coordinator.Browser.Roster.{IsAttested}
use stoffel_mpc_coordinator.Browser.Concurrent.{
  BrowserAction, admit, count, finish, admitted_as, admit_step, count_step, finish_step,
  browser_step, browser_run, started,
}
use stoffel_mpc_coordinator.Browser.Attestation.{authenticate-IsAttested}
use stoffel_mpc_coordinator.Browser.Status.{}
use stoffel_mpc_coordinator.Tests.Data.{job, client_y, reserving, collecting, empty_base}

abbrev pub toy : Crypto
toy = record {
  digest = λ bytes. replicate 32 (length bytes);
  is_key = λ key. true;
  is_signature = λ signature. true;
  is_der_signature = λ signature. true;
  verify = λ key message signature. signature == key;
  verify_der = λ key message signature. signature == key;
  parse_client_data = λ json. some (record {
    kind = some (codes "webauthn.get");
    origin = some (codes "https://vote");
    challenge = some json;
  });
  decode_base64 = λ text. some text;
}

abbrev pub config : BrowserConfig
config = record {
  crypto = toy;
  rp_id_hash = replicate 32 1;
  origin = codes "https://vote";
  credential_id_index = [];
}

-- The second client's passkey vouches for the keys 11 and 12.
abbrev pub call : BindWebauthnIdentity
call = record {
  execution_id = job;
  assertion = record {
    authenticator_data = replicate 32 1 ++ 5 ∷ 0 ∷ 0 ∷ 0 ∷ 1 ∷ [];
    client_data_json = replicate 32 34;
    signature = client_y;
  };
  ecdsa_public_key = 11 ∷ [];
  ecdh_public_key = 12 ∷ [];
  credential_id = [];
}

abbrev pub base : ExecutionState → SharedBase
base d = record empty_base { executions = (job, d) ∷ [] }

too_late : admit_bind config call (base collecting) ≡ err (auth_error already_submitted)
unfolding admit_bind find_identity indexed_match match_candidate candidates has_submitted
    indices_from input_slot_client verify_webauthn_assertion check_client_data
    check_authenticator_data signed_by webauthn_bind_challenge HashMap.get HashSet.insert
too_late = refl

abbrev pub token : Token
token = 77 ∷ []

abbrev pub request : BrowserCall
request = record {
  execution_id = job;
  request = record {
    public_key = 11 ∷ [];
    created = 100;
    nonce = replicate 16 3;
    signature = 11 ∷ [];
    body = [];
    session_token = token;
  };
}

abbrev actions : List BrowserAction
actions = admit call ∷ count 0 ∷ finish 0 (token ∷ []) ∷ []

abbrev after : CoordinatorBrowserState
after = (browser_run config actions (started (base reserving))).state

authenticated :
    (authenticate toy (codes "browser_round") request 110 after.bindings after.nonces).1
    ≡ ok client_y
unfolding browser_step admit_step admitted_as count_step finish_step count_bind finish_bind
    admit_bind find_identity indexed_match match_candidate candidates has_submitted indices_from
    input_slot_client verify_webauthn_assertion check_client_data check_authenticator_data signed_by
    webauthn_bind_challenge HashMap.get HashSet.insert HashMap.insert HashMap.contains_key insert
    with_token with_target accept_count last_known authenticate session_identity request_message
    authentication_message get accept seen_by
authenticated = refl

authenticate-IsAttested_example :
    (v : IsVouched toy (codes "browser_round") request after.bindings client_y) × IsAttested config
      v.binding
authenticate-IsAttested_example =
    authenticate-IsAttested config (base reserving) actions (codes "browser_round") request 110
      client_y authenticated
