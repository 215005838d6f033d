-- ===== src/Store/Tokens.antt =====
-- store.go: one-time tokens and OAuth states.
use Prim.Native.String.{◌++◌ as append_text}
use better_auth_go.Prelude.{
  ℕ, String, Bool, true, false, not, ◌||◌, [], ◌∷◌, Option, none, some, Assoc, ◌==◌, if◌then◌else◌,
}
use better_auth_go.Action.{not_found, replay, Result, ok, err, Action, pure, throw, lift, ◌>>=◌}
use better_auth_go.Value.{Record, text, flag, instant, field, string_map}
use better_auth_go.Database.{Where, equals, operator_on, starts_with}
use better_auth_go.Schema.{model_user, model_account, model_verification}
use better_auth_go.Memory.Table.{Adapter, Rows}
use better_auth_go.Memory.Methods.{create, find_one, update, delete_many, consume_one}
use better_auth_go.Memory.Transactions.{atomically}
use better_auth_go.Store.Types.{
  User, OneTimeToken, OneTimePurpose, password_reset, email_verify, email_change,
  email_change_confirmation, user_deletion, oauth_state, purpose_text, OauthState,
}
use better_auth_go.Store.Records.{
  user_of_row, record_string, record_time, record_string_map, entry, merge_string_maps,
}
use better_auth_go.Store.Queries.{
  new_row, one_row, rows_where, change, require, forgive_not_found, credential_where,
  credential_row, live_token,
}
use better_auth_go.Store.Sessions.{find_user_by_id}

unfoldable pub is_email_change : OneTimePurpose → Bool
is_email_change email_change = true
is_email_change email_change_confirmation = true
is_email_change _ = false

-- the identifier of a token's row
unfoldable pub token_identifier : OneTimeToken → String
unfolding is_email_change purpose_text
token_identifier t =
    if is_email_change t.purpose
    then append_text (purpose_text t.purpose) (append_text ":" t.user_id)
    else purpose_text t.purpose

unfoldable pub token_record : OneTimeToken → Record
token_record t =
    ("id", text t.id)
    ∷ ("identifier", text (token_identifier t))
    ∷ ("value", text t.hash)
    ∷ ("expiresAt", instant t.expires_at)
    ∷ ("createdAt", instant t.created_at)
    ∷ ("metadata", string_map (merge_string_maps t.metadata (("userId", t.user_id) ∷ [])))
    ∷ []

bool_text : Bool → String
bool_text true = "true"
bool_text false = "false"

unfoldable pub oauth_state_record : OauthState → Record
unfolding bool_text purpose_text
oauth_state_record s =
    ("id", text s.id)
    ∷ ("identifier", text (purpose_text oauth_state))
    ∷ ("value", text s.hash)
    ∷ ("expiresAt", instant s.expires_at)
    ∷ ("createdAt", instant s.created_at)
    ∷ (
      "metadata",
      string_map (
          ("pkceVerifier", s.pkce_verifier)
          ∷ ("nonce", s.nonce)
          ∷ ("redirectURI", s.redirect_uri)
          ∷ ("returnTo", s.return_to)
          ∷ ("errorReturnTo", s.error_return_to)
          ∷ ("newUserReturnTo", s.new_user_return_to)
          ∷ ("linkUserId", s.link_user_id)
          ∷ ("requestSignUp", bool_text s.request_sign_up)
          ∷ []),
    )
    ∷ []

or_empty : Result String → String
or_empty (ok s) = s
or_empty (err e) = ""

-- the state that ConsumeOAuthState reads from the consumed row
unfoldable pub oauth_state_of_row : String → Record → Result OauthState
unfolding or_empty record_string record_time record_string_map entry field
oauth_state_of_row hash row = timed (record_time row "expiresAt") (record_time row "createdAt")
  where
    meta : Assoc String
    meta = record_string_map (field row "metadata")

    timed : Result ℕ → Result ℕ → Result OauthState
    timed (err e) c = err e
    timed (ok x) (err e) = err e
    timed (ok x) (ok c) = ok (record {
      id = or_empty (record_string row "id");
      hash = hash;
      pkce_verifier = entry meta "pkceVerifier";
      nonce = entry meta "nonce";
      redirect_uri = entry meta "redirectURI";
      return_to = entry meta "returnTo";
      error_return_to = entry meta "errorReturnTo";
      new_user_return_to = entry meta "newUserReturnTo";
      link_user_id = entry meta "linkUserId";
      request_sign_up = entry meta "requestSignUp" == "true";
      expires_at = x;
      created_at = c;
    })

abbrev pub identified : OneTimePurpose → Where
identified p = equals "identifier" (text (purpose_text p))

-- the identifier of any user's change of email
abbrev pub identified_prefix : OneTimePurpose → Where
identified_prefix p = operator_on "identifier" starts_with (text (append_text (purpose_text p) ":"))

unfoldable pub metadata_of : Record → Assoc String
metadata_of r = record_string_map (field r "metadata")

module _ (a : Adapter) where
  -- PutOneTimeToken
  unfoldable pub put_one_time_token : OneTimeToken → Action Rows (Unit {0})
  unfolding is_email_change
  put_one_time_token t =
      if not (is_email_change t.purpose)
      then (do row ← create a (new_row model_verification (token_record t)); pure tt)
      else atomically (do
        n ←
            delete_many a
              (rows_where model_verification (equals "identifier" (text (token_identifier t)) ∷ []))
        row ← create a (new_row model_verification (token_record t))
        pure tt)

  -- HasOneTimeToken
  unfoldable pub has_one_time_token : OneTimePurpose → String → ℕ → Action Rows Bool
  has_one_time_token purpose hash now = do
    row ← forgive_not_found (
        find_one a
          (one_row model_verification (live_token (identified purpose) hash (instant now))))
    pure (elim row [ none ↦ false | some r ↦ true ])

  -- the ConsumeOne call on a verification row, where a missing row is a replay
  unfoldable pub consume_token : Where → String → ℕ → Action Rows Record
  consume_token identifier hash now = do
    row ← consume_one a (rows_where model_verification (live_token identifier hash (instant now)))
    require replay row

  -- ConsumeUserDeletion
  unfoldable pub consume_user_deletion : String → String → ℕ → Action Rows (Unit {0})
  unfolding metadata_of
  consume_user_deletion hash user now = do
    token ← consume_token (identified user_deletion) hash now
    if entry (metadata_of token) "userId" == user then pure tt else throw replay

  -- ConsumeEmailChange
  unfoldable pub consume_email_change : String → ℕ → Action Rows (User × String)
  unfolding metadata_of
  consume_email_change hash now = atomically (do
    token ← consume_token (identified_prefix email_change) hash now
    let metadata = metadata_of token
    if entry metadata "userId" == "" || entry metadata "newEmail" == "" then throw replay else do
      row ← update a (
          change model_user (equals "id" (text (entry metadata "userId")) ∷ []) (
            ("email", text (entry metadata "newEmail"))
            ∷ ("emailVerified", flag true)
            ∷ ("updatedAt", instant now)
            ∷ []))
      r ← require not_found row
      user ← lift (user_of_row r)
      pure (user, entry metadata "returnTo"))

  -- ConsumeEmailChangeConfirmation
  unfoldable pub consume_email_change_confirmation :
      String → ℕ → Action Rows (User × String × String)
  unfolding metadata_of
  consume_email_change_confirmation hash now = do
    token ← consume_token (identified_prefix email_change_confirmation) hash now
    let metadata = metadata_of token
    if entry metadata "userId" == "" || entry metadata "newEmail" == "" then throw replay else do
      user ← find_user_by_id a (entry metadata "userId")
      pure (user, entry metadata "newEmail", entry metadata "returnTo")

  -- the credential that ConsumePasswordReset creates where there is none to update
  unfoldable pub create_if_missing : String → String → ℕ → Option Record → Action Rows (Unit {0})
  create_if_missing user hash now (some account) = pure tt
  create_if_missing user hash now none = do
    row ← create a (new_row model_account (credential_row user hash (instant now) (instant now)))
    pure tt

  -- ConsumePasswordReset
  unfoldable pub reset_password : String → String → ℕ → Action Rows User
  reset_password user password_hash now = do
    account ← update a (
        change model_account (credential_where user (equals "userId" (text user)))
          (("password", text password_hash) ∷ ("updatedAt", instant now) ∷ []))
    written ← create_if_missing user password_hash now account
    find_user_by_id a user

  unfoldable pub consume_password_reset : String → String → ℕ → Action Rows User
  unfolding metadata_of
  consume_password_reset hash password_hash now = atomically (do
    token ← consume_token (identified password_reset) hash now
    let user = entry (metadata_of token) "userId"
    if user == "" then throw replay else reset_password user password_hash now)

  -- ConsumeEmailVerification
  unfoldable pub consume_email_verification : String → ℕ → Action Rows User
  unfolding metadata_of
  consume_email_verification hash now = do
    token ← consume_token (identified email_verify) hash now
    let user = entry (metadata_of token) "userId"
    if user == "" then throw replay else find_user_by_id a user

  -- PutOAuthState
  unfoldable pub put_oauth_state : OauthState → Action Rows (Unit {0})
  put_oauth_state s = do row ← create a (new_row model_verification (oauth_state_record s)); pure tt

  -- ConsumeOAuthState
  unfoldable pub consume_oauth_state : String → ℕ → Action Rows OauthState
  consume_oauth_state hash now = do
    token ← consume_token (identified oauth_state) hash now
    lift (oauth_state_of_row hash token)
