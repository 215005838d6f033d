-- ===== src/Store/Tests.antt =====
-- The store on concrete rows.
use better_auth_go.Prelude.{
  List, String, ◌≡◌, refl, ap, ◌≢◌, true, false, [], ◌∷◌, none, some, lookup, ◌==◌, arith,
}
use better_auth_go.Prelude.Int.{pos}
use better_auth_go.Action.{ok, err, replay}
use better_auth_go.Value.{Record, text, instant, nil, field}
use better_auth_go.Schema.{model_user, model_session, model_account, model_verification}
use better_auth_go.Memory.Match.{Printer}
use better_auth_go.Memory.Table.{Rows, table, assign}
use better_auth_go.Memory.WellFormed.{WellFormed}
use better_auth_go.Memory.History.{empty-WellFormed}
use better_auth_go.Store.Code.{store_code}
use better_auth_go.Store.Core.{core_memory}
use better_auth_go.Store.Types.{
  OauthProfile, User, Session, ProviderTokens, CreateEmailUserParams, OneTimeToken, user_deletion,
}
use better_auth_go.Store.Records.{
  user_record, user_of_row, session_record, session_of_row, token_columns, tokens_of_row,
}
use better_auth_go.Store.Sessions.{
  revocation, rotate_session, revoke_session, revoke_user_sessions, find_user_by_id,
  session_by_token_hash,
}
use better_auth_go.Store.Sessions
use better_auth_go.Store.Users.{delete_user}
use better_auth_go.Store.History.{
  StoreCall, create_session, create_email_user, put_one_time_token, run_store_call, run_store_calls,
  run_store_calls-WellFormed, OnePer, OnePerPair, run_store_calls_unique,
}
use better_auth_go.Store.Failure.{run_store_call_rollback}
use better_auth_go.Store.Expiry.{use_token_expired}
use better_auth_go.Store.Tokens.{token_record}
use better_auth_go.Store.LastAccount.{HasAccount, unlink_account-HasAccount}
use better_auth_go.Store.Accounts.{unlink_account}
use better_auth_go.Store.Rotation.{rotate_session-once, revoke_session-NoLive}
use better_auth_go.Store.Revocation.{NoLive}
use better_auth_go.Store.TokenUses.{for_deletion, for_oauth, use_token, use_token-once}
use better_auth_go.Store.Deletion.{survivor, delete_user-ok}
use better_auth_go.Store.SignOut.{revoke_user_sessions-ok}
use better_auth_go.Store.Authentication.{session_by_token_hash-create_session}
use better_auth_go.Store.RoundTrips.{
  dated_user, dated_session, user_of_row-user_record, session_of_row-session_record,
  tokens_of_row-token_columns,
}

abbrev printer : Printer
printer = record { print_other = λ v. "?"; to_lower = λ s. s }

abbrev session : String → String → Session
session id hash = record {
  id = id;
  user_id = "u1";
  token_hash = hash;
  expires_at = 900;
  created_at = 100;
  updated_at = 100;
  last_seen_at = 100;
  revoked_at = none;
  impersonator_id = "";
  impersonation_id = "";
}

abbrev one_session : Rows
one_session = run_store_calls (core_memory printer) (create_session (session "s1" "h1") ∷ []) []

one_session-WellFormed : WellFormed (core_memory printer) one_session
one_session-WellFormed =
    run_store_calls-WellFormed (core_memory printer) (create_session (session "s1" "h1") ∷ []) []
      (empty-WellFormed (core_memory printer))

abbrev rotated : Rows
rotated = (rotate_session (core_memory printer) "h1" (session "s2" "h2") one_session).1

rotation_works :
    rotate_session (core_memory printer) "h1" (session "s2" "h2") one_session
    ≡ (ok (session "s2" "h2"), rotated)
unfolding store_code run_store_calls run_store_call
rotation_works = refl

other_hash : ◌≢◌ {A = String} "h2" "h1"
other_hash e = let bad : false ≡ true = ap (λ (x : String). x == "h1") e in ground (arith, bad)

rotate_session-once_example :
    (lookup "s2" (table rotated model_session) ≡ some (session_record (session "s2" "h2")))
    × NoLive "h1" rotated
    × (rotate_session (core_memory printer) "h1" (session "s3" "h3") rotated
        ≡ (err replay, rotated))
rotate_session-once_example =
    rotate_session-once printer "h1" (session "s2" "h2") (session "s3" "h3") (session "s2" "h2")
      one_session rotated one_session-WellFormed other_hash rotation_works

abbrev revoked : Rows
revoked = (revoke_session (core_memory printer) "h1" 200 one_session).1

revocation_works : revoke_session (core_memory printer) "h1" 200 one_session ≡ (ok tt, revoked)
unfolding store_code run_store_calls run_store_call
revocation_works = refl

revoke_session-NoLive_example :
    NoLive "h1" revoked
    × (rotate_session (core_memory printer) "h1" (session "s3" "h3") revoked
        ≡ (err replay, revoked))
revoke_session-NoLive_example =
    revoke_session-NoLive printer "h1" 200 (session "s3" "h3") one_session revoked
      one_session-WellFormed revocation_works

abbrev token : OneTimeToken
token = record {
  id = "t1";
  user_id = "u1";
  hash = "k1";
  purpose = user_deletion;
  expires_at = 900;
  created_at = 100;
  metadata = [];
}

abbrev one_token : Rows
one_token = run_store_calls (core_memory printer) (put_one_time_token token ∷ []) []

one_token-WellFormed : WellFormed (core_memory printer) one_token
one_token-WellFormed =
    run_store_calls-WellFormed (core_memory printer) (put_one_time_token token ∷ []) []
      (empty-WellFormed (core_memory printer))

abbrev used : Rows
used = (use_token printer (for_deletion "u1") "k1" 200 one_token).1

deletion_works : use_token printer (for_deletion "u1") "k1" 200 one_token ≡ (ok tt, used)
unfolding store_code run_store_calls run_store_call use_token
deletion_works = refl

use_token-once_example : use_token printer for_oauth "k1" 150 used ≡ (err replay, used)
use_token-once_example =
    use_token-once printer "k1" (for_deletion "u1") for_oauth 200 150 one_token used
      one_token-WellFormed deletion_works

run_store_calls_unique_example :
    let rows =
      run_store_calls
        (core_memory printer)
        (create_session (session "s1" "h1") ∷ put_one_time_token token ∷ [])
        [] in
    OnePer model_user "email" rows
    × OnePer model_session "tokenHash" rows
    × OnePer model_verification "value" rows
    × OnePerPair model_account "providerId" "accountId" rows
run_store_calls_unique_example =
    run_store_calls_unique printer
      (create_session (session "s1" "h1") ∷ put_one_time_token token ∷ [])

delete_user-ok_example :
    ((delete_user (core_memory printer) "u1" one_session).0 ≡ ok tt)
    × ((m j : String)
        → lookup j (table (delete_user (core_memory printer) "u1" one_session).1 m)
          ≡ survivor "u1" m j (lookup j (table one_session m)))
delete_user-ok_example = delete_user-ok printer "u1" one_session one_session-WellFormed

abbrev signed_out : Rows
signed_out = (revoke_user_sessions (core_memory printer) "u1" 200 one_session).1

sign_out_works :
    revoke_user_sessions (core_memory printer) "u1" 200 one_session ≡ (ok tt, signed_out)
unfolding store_code run_store_calls run_store_call
sign_out_works = refl

abbrev signed_out_row : Record
signed_out_row = assign "id" (revocation 200) (session_record (session "s1" "h1"))

signed_out-lookup : lookup "s1" (table signed_out model_session) ≡ some signed_out_row
unfolding store_code run_store_calls run_store_call
signed_out-lookup = refl

signed_out_owner : field signed_out_row "userId" ≡ text "u1"
unfolding store_code
signed_out_owner = refl

revoke_user_sessions-ok_example : field signed_out_row "revokedAt" ≢ nil
revoke_user_sessions-ok_example =
    revoke_user_sessions-ok printer "u1" 200 one_session signed_out one_session-WellFormed
      sign_out_works "s1" signed_out_row signed_out-lookup signed_out_owner

abbrev ann : User
ann = record {
  id = "u1";
  email = "a@x.y";
  name = "Ann";
  image_url = "";
  email_verified = true;
  created_at = 100;
  updated_at = 100;
  disabled_at = none;
}

abbrev sign_up : CreateEmailUserParams
sign_up = record {
  user = ann;
  password_hash = "p";
  session = session "s1" "h1";
  create_session = false;
  event = record {
    id = "e1";
    schema_version = pos 1;
    name = "user.created";
    aggregate_id = "u1";
    occurred_at = 100;
    payload = [];
  };
}

abbrev one_user : Rows
one_user = run_store_calls (core_memory printer) (create_email_user sign_up ∷ []) []

one_user-WellFormed : WellFormed (core_memory printer) one_user
one_user-WellFormed =
    run_store_calls-WellFormed (core_memory printer) (create_email_user sign_up ∷ []) []
      (empty-WellFormed (core_memory printer))

abbrev signed_in : Rows
signed_in = (Sessions.create_session (core_memory printer) (session "s1" "h1") one_user).1

sign_in_works :
    Sessions.create_session (core_memory printer) (session "s1" "h1") one_user
    ≡ (ok (session "s1" "h1"), signed_in)
unfolding store_code run_store_calls run_store_call
sign_in_works = refl

ann_found : find_user_by_id (core_memory printer) "u1" signed_in ≡ (ok ann, signed_in)
unfolding store_code run_store_calls run_store_call
ann_found = refl

session_by_token_hash-create_session_example :
    session_by_token_hash (core_memory printer) "h1" signed_in
    ≡ (ok (session "s1" "h1", ann), signed_in)
session_by_token_hash-create_session_example =
    session_by_token_hash-create_session printer (session "s1" "h1") (session "s1" "h1") ann
      one_user signed_in one_user-WellFormed sign_in_works ann_found

abbrev Nonempty : String → Type 0
Nonempty s = s ≢ ""

u1-Nonempty : Nonempty "u1"
u1-Nonempty e = let bad : false ≡ true = ap (λ (x : String). x == "") e in ground (arith, bad)

s1-Nonempty : Nonempty "s1"
s1-Nonempty e = let bad : false ≡ true = ap (λ (x : String). x == "") e in ground (arith, bad)

h1-Nonempty : Nonempty "h1"
h1-Nonempty e = let bad : false ≡ true = ap (λ (x : String). x == "") e in ground (arith, bad)

email-Nonempty : Nonempty "a@x.y"
email-Nonempty e = let bad : false ≡ true = ap (λ (x : String). x == "") e in ground (arith, bad)

user_of_row-user_record_example :
    user_of_row (user_record (dated_user ann 99 99)) ≡ ok (dated_user ann 99 99)
user_of_row-user_record_example = user_of_row-user_record ann 99 99 u1-Nonempty email-Nonempty

session_of_row-session_record_example :
    session_of_row (session_record (dated_session (session "s1" "h1") 899 99 99 99))
    ≡ ok (dated_session (session "s1" "h1") 899 99 99 99)
session_of_row-session_record_example =
    session_of_row-session_record (session "s1" "h1") 899 99 99 99 s1-Nonempty u1-Nonempty
      h1-Nonempty

abbrev tokens : ProviderTokens
tokens = record {
  access_token = "a";
  refresh_token = "r";
  id_token = "i";
  scope = "openid";
  access_token_expires_at = 900;
  refresh_token_expires_at = 0;
}

tokens_of_row-token_columns_example : tokens_of_row (token_columns tokens) ≡ tokens
tokens_of_row-token_columns_example = tokens_of_row-token_columns tokens

abbrev wrong_rotation : StoreCall
wrong_rotation = StoreCall.rotate_session "h9" (session "s2" "h2")

wrong_rotation_fails :
    run_store_call (core_memory printer) wrong_rotation one_session
    ≡ (err replay, (run_store_call (core_memory printer) wrong_rotation one_session).1)
unfolding store_code run_store_calls run_store_call
wrong_rotation_fails = refl

run_store_call_rollback_example :
    (run_store_call (core_memory printer) wrong_rotation one_session).1 ≡ one_session
run_store_call_rollback_example =
    run_store_call_rollback (core_memory printer) wrong_rotation one_session
      (run_store_call (core_memory printer) wrong_rotation one_session).1 replay refl
      wrong_rotation_fails

token-lookup : lookup "t1" (table one_token model_verification) ≡ some (token_record token)
unfolding store_code run_store_calls run_store_call
token-lookup = refl

token_fields :
    (field (token_record token) "value" ≡ text "k1")
    × (field (token_record token) "expiresAt" ≡ instant 900)
unfolding store_code
token_fields = (refl, refl)

use_token_expired_example :
    use_token printer (for_deletion "u1") "k1" 900 one_token ≡ (err replay, one_token)
use_token_expired_example =
    use_token_expired printer "k1" 900 900 "t1" (token_record token) one_token (for_deletion "u1")
      one_token-WellFormed token-lookup token_fields.0 token_fields.1 refl

abbrev google : OauthProfile
google = record {
  provider = "google";
  issuer = "";
  provider_account_id = "g1";
  previous_provider_account_id = "";
  email = "a@x.y";
  email_verified = true;
  name = "Ann";
  image_url = "";
}

abbrev two_accounts : List StoreCall
two_accounts =
    create_email_user sign_up ∷ StoreCall.link_oauth_account "a2" "u1" google tokens 100 ∷ []

abbrev linked : Rows
linked = run_store_calls (core_memory printer) two_accounts []

linked-WellFormed : WellFormed (core_memory printer) linked
linked-WellFormed =
    run_store_calls-WellFormed (core_memory printer) two_accounts []
      (empty-WellFormed (core_memory printer))

abbrev unlinked : Rows
unlinked = (unlink_account (core_memory printer) "u1" "google" "g1" false linked).1

unlink_works :
    unlink_account (core_memory printer) "u1" "google" "g1" false linked ≡ (ok tt, unlinked)
unfolding store_code run_store_calls run_store_call
unlink_works = refl

unlink_account-HasAccount_example : HasAccount "u1" unlinked
unlink_account-HasAccount_example =
    unlink_account-HasAccount (core_memory printer) "u1" "google" "g1" linked unlinked
      linked-WellFormed unlink_works
