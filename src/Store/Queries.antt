-- ===== src/Store/Queries.antt =====
-- The queries that the store builds, and steps that its operations share.
use Prim.Native.String.{◌++◌ as append_text}
use better_auth_go.Prelude.{◌≡◌, refl, arith, String, true, List, [], ◌∷◌, Option, none, some}
use better_auth_go.Action.{Error, not_found, Result, ok, err, Action}
use better_auth_go.Value.{Value, Record, text}
use better_auth_go.Database.{
  Where, equals, operator_on, gt, CreateQuery, FindOneQuery, UpdateQuery, DeleteQuery, CountQuery,
}

abbrev pub credential_provider : String
credential_provider = "credential"

-- CreateQuery{Model: model, Data: row, ForceAllowID: true}
abbrev pub new_row : String → Record → CreateQuery
new_row m r = record { model = m; row = r; select = []; force_allow_id = true }

-- FindOneQuery{Model: model, Where: where}
abbrev pub one_row : String → List Where → FindOneQuery
one_row m ws = record { model = m; predicate = ws; select = []; joins = [] }

abbrev pub rows_where : String → List Where → DeleteQuery
rows_where m ws = record { model = m; predicate = ws }

abbrev pub counted : String → List Where → CountQuery
counted m ws = record { model = m; predicate = ws }

abbrev pub change : String → List Where → Record → UpdateQuery
change m ws r = record { model = m; predicate = ws; update = r }

-- accountKeyWhere and credentialIdentityWhere (account_identity.go)
abbrev pub account_key_where : String → String → List Where
account_key_where provider account =
    equals "providerId" (text provider) ∷ equals "accountId" (text account) ∷ []

abbrev pub credential_where : String → Where → List Where
credential_where user last =
    equals "providerId" (text credential_provider) ∷ equals "accountId" (text user) ∷ last ∷ []

-- the credential account row of a user
abbrev pub credential_row : String → String → Value → Value → Record
credential_row user hash created updated =
    ("id", text (append_text user ":credential"))
    ∷ ("userId", text user)
    ∷ ("providerId", text credential_provider)
    ∷ ("accountId", text user)
    ∷ ("password", text hash)
    ∷ ("createdAt", created)
    ∷ ("updatedAt", updated)
    ∷ []

-- the predicate of a one-time record
abbrev pub live_token : Where → String → Value → List Where
live_token identifier hash now =
    identifier ∷ equals "value" (text hash) ∷ operator_on "expiresAt" gt now ∷ []

unfoldable pub forgiven : {A : Type 0} → Result (Option A) → Result (Option A)
forgiven (err not_found) = ok none
forgiven r = r

-- `if err != nil && !errors.Is(err, ErrNotFound) { return err }`: a missing row is no error
unfoldable pub forgive_not_found : {S A : Type 0} → Action S (Option A) → Action S (Option A)
unfolding forgiven
forgive_not_found m s = (forgiven (m s).0, (m s).1)

-- the nil check on a row that an update or a read returned
unfoldable pub require : {S A : Type 0} → Error → Option A → Action S A
require e none s = (err e, s)
require e (some x) s = (ok x, s)

pub require-ok :
    {S A : Type 0} (e : Error) (o : Option A) (s t : S) (x : A)
    → require e o s ≡ (ok x, t)
    → (o ≡ some x) × (s ≡ t)
unfolding require
require-ok e none s t x h = ground arith
require-ok e (some y) s t x h = ground arith

pub require-none : {S A : Type 0} (e : Error) (s : S) → require {A = A} e none s ≡ (err e, s)
unfolding require
require-none e s = refl
