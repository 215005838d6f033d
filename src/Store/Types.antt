-- ===== src/Store/Types.antt =====
-- types.go and ports.go: the entities that the store reads and writes. Instants are in UTC, and `*time.Time` is an option.
use better_auth_go.Prelude.{ℕ, String, Bool, Option, Assoc}
use better_auth_go.Prelude.Int.{ℤ}

pub record User : Type 0 where
  pub id : String
  pub email : String
  pub name : String
  pub image_url : String
  pub email_verified : Bool
  pub created_at : ℕ
  pub updated_at : ℕ
  pub disabled_at : Option ℕ

pub record Session : Type 0 where
  pub id : String
  pub user_id : String
  pub token_hash : String
  pub expires_at : ℕ
  pub created_at : ℕ
  pub updated_at : ℕ
  pub last_seen_at : ℕ
  pub revoked_at : Option ℕ
  pub impersonator_id : String
  pub impersonation_id : String

pub record PasswordCredential : Type 0 where
  pub user_id : String
  pub password_hash : String
  pub updated_at : ℕ

pub record OauthAccount : Type 0 where
  pub id : String
  pub user_id : String
  pub provider : String
  pub provider_account_id : String
  pub scope : String
  pub created_at : ℕ
  pub updated_at : ℕ

pub record OauthProfile : Type 0 where
  pub provider : String
  pub issuer : String
  pub provider_account_id : String
  pub previous_provider_account_id : String
  pub email : String
  pub email_verified : Bool
  pub name : String
  pub image_url : String

pub record ProviderTokens : Type 0 where
  pub access_token : String
  pub refresh_token : String
  pub id_token : String
  pub scope : String
  pub access_token_expires_at : ℕ
  pub refresh_token_expires_at : ℕ

pub record StoredOauthAccount : Type 0 where
  pub account : OauthAccount
  pub tokens : ProviderTokens

pub record RequestMetadata : Type 0 where
  pub request_id : String
  pub ip : String
  pub user_agent : String

pub record AuditEvent : Type 0 where
  pub id : String
  pub schema_version : ℤ
  pub action : String
  pub actor_user_id : String
  pub subject_user_id : String
  pub session_id : String
  pub occurred_at : ℕ
  pub request : RequestMetadata
  pub details : Assoc String

pub record DomainEvent : Type 0 where
  pub id : String
  pub schema_version : ℤ
  pub name : String
  pub aggregate_id : String
  pub occurred_at : ℕ
  pub payload : Assoc String

pub data OneTimePurpose : Type 0 where
  password_reset email_verify email_change email_change_confirmation user_deletion oauth_state :
      OneTimePurpose

-- string(purpose)
unfoldable pub purpose_text : OneTimePurpose → String
purpose_text password_reset = "password_reset"
purpose_text email_verify = "email_verify"
purpose_text email_change = "email_change"
purpose_text email_change_confirmation = "email_change_confirmation"
purpose_text user_deletion = "user_deletion"
purpose_text oauth_state = "oauth_state"

pub record OneTimeToken : Type 0 where
  pub id : String
  pub user_id : String
  pub hash : String
  pub purpose : OneTimePurpose
  pub expires_at : ℕ
  pub created_at : ℕ
  pub metadata : Assoc String

pub record OauthState : Type 0 where
  pub id : String
  pub hash : String
  pub pkce_verifier : String
  pub nonce : String
  pub redirect_uri : String
  pub return_to : String
  pub error_return_to : String
  pub new_user_return_to : String
  pub link_user_id : String
  pub request_sign_up : Bool
  pub expires_at : ℕ
  pub created_at : ℕ

pub record CreateEmailUserParams : Type 0 where
  pub user : User
  pub password_hash : String
  pub session : Session
  pub create_session : Bool
  pub event : DomainEvent

pub record ChangePasswordParams : Type 0 where
  pub user_id : String
  pub previous_hash : String
  pub replacement_hash : String
  pub current_token_hash : String
  pub replacement_session : Session
  pub revoke_other_sessions : Bool

pub record OauthUpsertPolicy : Type 0 where
  pub allow_implicit_link : Bool
  pub require_local_verification : Bool
  pub update_user_info_on_link : Bool
  pub update_account_on_sign_in : Bool
  pub allow_sign_up : Bool
