-- ===== src/Store/Records.antt =====
-- store.go: the conversions between entities and records, and the accessors of a record.
use better_auth_go.Prelude.{
  ℕ, zero, suc, String, Bool, false, Option, none, some, [], ◌∷◌, Assoc, lookup, put, get_or, ◌==◌,
  if◌then◌else◌,
}
use better_auth_go.Action.{not_found, failure, Result, ok, err}
use better_auth_go.Value.{
  Scalar, str, scalar, Value, Record, text, flag, instant, nil, field, string_map, any_map, request,
  int,
}
use better_auth_go.Store.Types.{
  User, Session, OauthAccount, DomainEvent, AuditEvent, ProviderTokens,
}

infixl 10 ◌>>=◌
abbrev ◌>>=◌ : {A B : Type 0} → Result A → (A → Result B) → Result B
ok a >>= f = f a
err e >>= f = err e

text_value : Value → Result String
text_value (text s) =
    if s == "" then err (failure "betterauth: adapter returned invalid field") else ok s
text_value _ = err (failure "betterauth: adapter returned invalid field")

-- recordString(row, field)
unfoldable pub record_string : Record → String → Result String
unfolding text_value field
record_string r f = text_value (field r f)

instant_value : Value → Result ℕ
instant_value (instant zero) = err (failure "betterauth: adapter returned invalid field")
instant_value (instant (suc t)) = ok (suc t)
instant_value _ = err (failure "betterauth: adapter returned invalid field")

-- recordTime(row, field)
unfoldable pub record_time : Record → String → Result ℕ
unfolding instant_value field
record_time r f = instant_value (field r f)

unfoldable pub optional_string : Value → String
optional_string (text s) = s
optional_string _ = ""

unfoldable pub optional_bool : Value → Bool
optional_bool (flag b) = b
optional_bool _ = false

-- optionalTimePtr(value)
unfoldable pub optional_time_ptr : Value → Option ℕ
optional_time_ptr (instant t) = some t
optional_time_ptr _ = none

-- optionalTime(value)
unfoldable pub optional_time : Value → ℕ
unfolding optional_time_ptr
optional_time v = get_or (optional_time_ptr v) 0

-- nullableTime(value)
unfoldable pub nullable_time : Option ℕ → Value
nullable_time none = nil
nullable_time (some t) = instant t

-- nullableTimeValue(value)
unfoldable pub nullable_time_value : ℕ → Value
nullable_time_value zero = nil
nullable_time_value (suc t) = instant (suc t)

texts_of : Assoc Scalar → Assoc String → Assoc String
unfolding put
texts_of [] result = result
texts_of ((k, str s) ∷ m) result = texts_of m (put k s result)
texts_of ((k, v) ∷ m) result = texts_of m result

-- recordStringMap(value)
unfoldable pub record_string_map : Value → Assoc String
unfolding texts_of
record_string_map (any_map m) = texts_of m []
record_string_map (string_map m) = m
record_string_map _ = []

-- m[k] of a map[string]string
unfoldable pub entry : Assoc String → String → String
unfolding lookup
entry m k = get_or (lookup k m) ""

-- mergeStringMaps(first, second)
unfoldable pub merge_string_maps : Assoc String → Assoc String → Assoc String
unfolding put
merge_string_maps m [] = m
merge_string_maps m ((k, v) ∷ second) = merge_string_maps (put k v m) second

unfoldable pub user_record : User → Record
unfolding nullable_time
user_record u =
    ("id", text u.id)
    ∷ ("email", text u.email)
    ∷ ("name", text u.name)
    ∷ ("image", text u.image_url)
    ∷ ("emailVerified", flag u.email_verified)
    ∷ ("createdAt", instant u.created_at)
    ∷ ("updatedAt", instant u.updated_at)
    ∷ ("disabledAt", nullable_time u.disabled_at)
    ∷ []

-- userFromRecord(row) of a row that is there
unfoldable pub user_of_row : Record → Result User
unfolding record_string record_time optional_string optional_bool optional_time_ptr field
user_of_row row = do
  id ← record_string row "id"
  email ← record_string row "email"
  created ← record_time row "createdAt"
  updated ← record_time row "updatedAt"
  ok (record {
    id = id;
    email = email;
    name = optional_string (field row "name");
    image_url = optional_string (field row "image");
    email_verified = optional_bool (field row "emailVerified");
    created_at = created;
    updated_at = updated;
    disabled_at = optional_time_ptr (field row "disabledAt");
  })

-- userFromRecord(row)
unfoldable pub user_from_record : Option Record → Result User
user_from_record none = err not_found
user_from_record (some row) = user_of_row row

unfoldable pub session_record : Session → Record
unfolding nullable_time
session_record s =
    ("id", text s.id)
    ∷ ("userId", text s.user_id)
    ∷ ("tokenHash", text s.token_hash)
    ∷ ("expiresAt", instant s.expires_at)
    ∷ ("createdAt", instant s.created_at)
    ∷ ("updatedAt", instant s.updated_at)
    ∷ ("lastSeenAt", instant s.last_seen_at)
    ∷ ("revokedAt", nullable_time s.revoked_at)
    ∷ ("impersonatedBy", text s.impersonator_id)
    ∷ ("impersonationId", text s.impersonation_id)
    ∷ []

-- sessionFromRecord(row) of a row that is there
unfoldable pub session_of_row : Record → Result Session
unfolding record_string record_time optional_string optional_time_ptr field
session_of_row row = do
  id ← record_string row "id"
  user_id ← record_string row "userId"
  hash ← record_string row "tokenHash"
  expires ← record_time row "expiresAt"
  created ← record_time row "createdAt"
  updated ← record_time row "updatedAt"
  last_seen ← record_time row "lastSeenAt"
  ok (record {
    id = id;
    user_id = user_id;
    token_hash = hash;
    expires_at = expires;
    created_at = created;
    updated_at = updated;
    last_seen_at = last_seen;
    revoked_at = optional_time_ptr (field row "revokedAt");
    impersonator_id = optional_string (field row "impersonatedBy");
    impersonation_id = optional_string (field row "impersonationId");
  })

-- sessionFromRecord(row)
unfoldable pub session_from_record : Option Record → Result Session
session_from_record none = err not_found
session_from_record (some row) = session_of_row row

-- accountFromRecord(row) of a row that is there
unfoldable pub account_of_row : Record → Result OauthAccount
unfolding record_string record_time optional_string field
account_of_row row = do
  id ← record_string row "id"
  user_id ← record_string row "userId"
  provider ← record_string row "providerId"
  account_id ← record_string row "accountId"
  created ← record_time row "createdAt"
  updated ← record_time row "updatedAt"
  ok (record {
    id = id;
    user_id = user_id;
    provider = provider;
    provider_account_id = account_id;
    scope = optional_string (field row "scope");
    created_at = created;
    updated_at = updated;
  })

-- accountFromRecord(row)
unfoldable pub account_from_record : Option Record → Result OauthAccount
account_from_record none = err not_found
account_from_record (some row) = account_of_row row

unfoldable pub domain_event_record : DomainEvent → Record
domain_event_record e =
    ("id", text e.id)
    ∷ ("schemaVersion", scalar (int e.schema_version))
    ∷ ("name", text e.name)
    ∷ ("aggregateId", text e.aggregate_id)
    ∷ ("occurredAt", instant e.occurred_at)
    ∷ ("payload", string_map e.payload)
    ∷ []

unfoldable pub audit_event_record : AuditEvent → Record
audit_event_record e =
    ("id", text e.id)
    ∷ ("schemaVersion", scalar (int e.schema_version))
    ∷ ("action", text e.action)
    ∷ ("actorUserId", text e.actor_user_id)
    ∷ ("subjectUserId", text e.subject_user_id)
    ∷ ("sessionId", text e.session_id)
    ∷ ("occurredAt", instant e.occurred_at)
    ∷ ("request", request e.request.request_id e.request.ip e.request.user_agent)
    ∷ ("details", string_map e.details)
    ∷ []

-- the columns of an account row that come from the provider's tokens
unfoldable pub token_columns : ProviderTokens → Record
unfolding nullable_time_value
token_columns t =
    ("accessToken", text t.access_token)
    ∷ ("refreshToken", text t.refresh_token)
    ∷ ("idToken", text t.id_token)
    ∷ ("scope", text t.scope)
    ∷ ("accessTokenExpiresAt", nullable_time_value t.access_token_expires_at)
    ∷ ("refreshTokenExpiresAt", nullable_time_value t.refresh_token_expires_at)
    ∷ []

-- the tokens of an account row
unfoldable pub tokens_of_row : Record → ProviderTokens
unfolding optional_string optional_time field
tokens_of_row r = record {
  access_token = optional_string (field r "accessToken");
  refresh_token = optional_string (field r "refreshToken");
  id_token = optional_string (field r "idToken");
  scope = optional_string (field r "scope");
  access_token_expires_at = optional_time (field r "accessTokenExpiresAt");
  refresh_token_expires_at = optional_time (field r "refreshTokenExpiresAt");
}
