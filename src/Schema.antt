-- ===== src/Schema.antt =====
-- schema.go: the logical schema of the server, and the schema of its own models.
pub mod Merge
pub mod Kept
mod Tests
use better_auth_go.Prelude.{String, Bool, true, false, List, [], ◌∷◌, Assoc}
use better_auth_go.Value.{Value, nil}

pub data FieldType : Type 0 where
  string_field number_field boolean_field date_field json_field string_array_field unset_field :
      FieldType

pub record FieldSchema : Type 0 where
  pub kind : FieldType
  pub required : Bool
  pub default_value : Value
  pub unique : Bool
  pub index : Bool
  pub references : String
  pub input : Bool
  pub returned : Bool
  pub field_name : String

pub record IndexSchema : Type 0 where
  pub name : String
  pub fields : List String
  pub unique : Bool

pub record ModelSchema : Type 0 where
  pub model_name : String
  pub fields : Assoc FieldSchema
  pub indexes : List IndexSchema

abbrev pub Schema : Type 0
Schema = Assoc ModelSchema

abbrev pub model_user : String
model_user = "user"

abbrev pub model_session : String
model_session = "session"

abbrev pub model_account : String
model_account = "account"

abbrev pub model_verification : String
model_verification = "verification"

abbrev pub model_audit_event : String
model_audit_event = "auditEvent"

abbrev pub model_outbox_event : String
model_outbox_event = "outboxEvent"

-- the zero value of FieldSchema, with its type
unfoldable pub plain : FieldType → FieldSchema
plain t = record {
  kind = t;
  required = false;
  default_value = nil;
  unique = false;
  index = false;
  references = "";
  input = false;
  returned = false;
  field_name = "";
}

-- a field with `Required: true`
unfoldable pub needed : FieldType → FieldSchema
unfolding plain
needed t = let f = plain t in record f { required = true }

-- a field with `Required: true, Unique: true`
unfoldable pub key : FieldType → FieldSchema
unfolding needed
key t = let f = needed t in record f { unique = true }

-- a field with `Index: true, References: ModelUser` besides
unfoldable pub owner : FieldSchema
unfolding needed
owner = let f = needed string_field in record f { index = true; references = model_user }

unfoldable pub shown : FieldSchema → FieldSchema
shown f = record f { returned = true }

unfoldable pub entered : FieldSchema → FieldSchema
entered f = record f { input = true }

unfoldable pub model : Assoc FieldSchema → List IndexSchema → ModelSchema
model fs is = record { model_name = ""; fields = fs; indexes = is }

model_user_schema : ModelSchema
unfolding model plain needed key owner shown entered
model_user_schema =
    model
      (("id", shown (key string_field))
        ∷ ("email", shown (entered (key string_field)))
        ∷ ("emailVerified", shown (needed boolean_field))
        ∷ ("name", shown (entered (plain string_field)))
        ∷ ("image", shown (entered (plain string_field)))
        ∷ ("createdAt", shown (needed date_field))
        ∷ ("updatedAt", shown (needed date_field))
        ∷ ("disabledAt", plain date_field)
        ∷ [])
      []

model_session_schema : ModelSchema
unfolding model plain needed key owner shown entered
model_session_schema =
    model
      (("id", key string_field)
        ∷ ("userId", owner)
        ∷ ("tokenHash", key string_field)
        ∷ ("expiresAt", needed date_field)
        ∷ ("createdAt", needed date_field)
        ∷ ("updatedAt", needed date_field)
        ∷ ("lastSeenAt", needed date_field)
        ∷ ("revokedAt", plain date_field)
        ∷ ("impersonatedBy", plain string_field)
        ∷ ("impersonationId", plain string_field)
        ∷ [])
      []

model_account_schema : ModelSchema
unfolding model plain needed key owner shown entered
model_account_schema =
    model
      (("id", key string_field)
        ∷ ("userId", owner)
        ∷ ("providerId", needed string_field)
        ∷ ("accountId", needed string_field)
        ∷ ("password", plain string_field)
        ∷ ("accessToken", plain string_field)
        ∷ ("refreshToken", plain string_field)
        ∷ ("idToken", plain string_field)
        ∷ ("accessTokenExpiresAt", plain date_field)
        ∷ ("refreshTokenExpiresAt", plain date_field)
        ∷ ("scope", plain string_field)
        ∷ ("createdAt", needed date_field)
        ∷ ("updatedAt", needed date_field)
        ∷ [])
      (record {
        name = "uniq_provider_account";
        fields = "providerId" ∷ "accountId" ∷ [];
        unique = true;
      }
        ∷ [])

model_verification_schema : ModelSchema
unfolding model plain needed key owner shown entered
model_verification_schema =
    model
      (("id", key string_field)
        ∷ ("identifier", needed string_field)
        ∷ ("value", key string_field)
        ∷ ("expiresAt", needed date_field)
        ∷ ("createdAt", needed date_field)
        ∷ ("metadata", plain json_field)
        ∷ [])
      []

model_audit_event_schema : ModelSchema
unfolding model plain needed key owner shown entered
model_audit_event_schema =
    model
      (("id", key string_field)
        ∷ ("schemaVersion", needed number_field)
        ∷ ("action", needed string_field)
        ∷ ("actorUserId", needed string_field)
        ∷ ("subjectUserId", needed string_field)
        ∷ ("sessionId", plain string_field)
        ∷ ("occurredAt", needed date_field)
        ∷ ("request", plain json_field)
        ∷ ("details", plain json_field)
        ∷ [])
      []

model_outbox_event_schema : ModelSchema
unfolding model plain needed key owner shown entered
model_outbox_event_schema =
    model
      (("id", key string_field)
        ∷ ("schemaVersion", needed number_field)
        ∷ ("name", needed string_field)
        ∷ ("aggregateId", needed string_field)
        ∷ ("occurredAt", needed date_field)
        ∷ ("payload", plain json_field)
        ∷ ("publishedAt", plain date_field)
        ∷ [])
      []

-- CoreSchema()
unfoldable pub core_schema : Schema
unfolding model_user_schema model_session_schema model_account_schema model_verification_schema
    model_audit_event_schema model_outbox_event_schema
core_schema =
    (model_user, model_user_schema)
    ∷ (model_session, model_session_schema)
    ∷ (model_account, model_account_schema)
    ∷ (model_verification, model_verification_schema)
    ∷ (model_audit_event, model_audit_event_schema)
    ∷ (model_outbox_event, model_outbox_event_schema)
    ∷ []
