-- ===== src/Store/TokenUses.antt =====
-- The operations of store.go that consume a one-time token: among all of them, a token is consumed once.
use better_auth_go.Prelude.{ℕ, String, ◌≡◌, refl, Option, none, some}
use better_auth_go.Action.{replay, ok, err, Action, pure, ◌>>=◌}
use better_auth_go.Action.Inversion.{>>=-ok, >>=-err, pure-ok}
use better_auth_go.Action.Preserves.{Preserves}
use better_auth_go.Value.{Record}
use better_auth_go.Database.{Where, validate_item}
use better_auth_go.Schema.{model_verification}
use better_auth_go.Memory.Match.{Printer}
use better_auth_go.Memory.Table.{Table, Rows, table}
use better_auth_go.Memory.WellFormed.{WellFormed}
use better_auth_go.Memory.Untouched.{IsAt, create-IsAt, update-IsAt}
use better_auth_go.Memory.Transactions.{atomically-ok, atomically-err}
use better_auth_go.Store.Core.{core_memory}
use better_auth_go.Store.Types.{
  password_reset, email_verify, email_change, email_change_confirmation, user_deletion, oauth_state,
}
use better_auth_go.Store.Sessions.{find_user_by_id}
use better_auth_go.Store.Tokens.{
  identified, identified_prefix, consume_token, consume_user_deletion, consume_email_change,
  consume_email_change_confirmation, create_if_missing, reset_password, consume_password_reset,
  consume_email_verification, consume_oauth_state,
}
use better_auth_go.Store.Invariant.Rules.{store_rules}
use better_auth_go.Store.Invariant.Tokens.{
  consume_user_deletion-WellFormed, consume_email_change-WellFormed,
  consume_email_change_confirmation-WellFormed, consume_password_reset-WellFormed,
  consume_email_verification-WellFormed, consume_oauth_state-WellFormed,
}
use better_auth_go.Store.SingleUse.{checked, NoToken, consume_token-NoToken, NoToken-consume_token}

-- the calls that consume a token
pub data TokenUse : Type 0 where
  for_deletion : String → TokenUse
  for_email_change for_confirmation for_verification for_oauth : TokenUse
  for_reset : String → TokenUse

module _ {A : Type 0} where
  abbrev discard : Action Rows A → Action Rows (Unit {0})
  discard m = do x ← m; pure tt

-- the call, less the value that it returns
unfoldable pub use_token : Printer → TokenUse → String → ℕ → Action Rows (Unit {0})
use_token p (for_deletion user) hash now =
    discard (consume_user_deletion (core_memory p) hash user now)
use_token p for_email_change hash now = discard (consume_email_change (core_memory p) hash now)
use_token p for_confirmation hash now =
    discard (consume_email_change_confirmation (core_memory p) hash now)
use_token p for_verification hash now =
    discard (consume_email_verification (core_memory p) hash now)
use_token p for_oauth hash now = discard (consume_oauth_state (core_memory p) hash now)
use_token p (for_reset password) hash now =
    discard (consume_password_reset (core_memory p) hash password now)

module _ (p : Printer) (t : Table) where
  find_user_by_id-IsAt :
      (n user : String) → Preserves (IsAt n t) (find_user_by_id (core_memory p) user)
  unfolding find_user_by_id
  find_user_by_id-IsAt n user = search store_rules

  create_if_missing-IsAt :
      (user hash : String) (now : ℕ) (o : Option Record)
      → Preserves (IsAt model_verification t) (create_if_missing (core_memory p) user hash now o)
  unfolding create_if_missing
  create_if_missing-IsAt user hash now none = search (store_rules, create-IsAt, refl)
  create_if_missing-IsAt user hash now (some r) = search store_rules

  reset_password-IsAt :
      (user hash : String) (now : ℕ)
      → Preserves (IsAt model_verification t) (reset_password (core_memory p) user hash now)
  unfolding reset_password
  reset_password-IsAt user hash now =
      search (store_rules, update-IsAt, refl, create_if_missing-IsAt, find_user_by_id-IsAt)

module _ (p : Printer) (w : Where) (hash : String) (now : ℕ)
    (valid : validate_item w ≡ ok (checked w)) {B : Type 0} where
  consumed_first :
      (f : Record → Action Rows B) (rows after : Rows) (b : B)
      → ((r : Record) (t : Table) → Preserves (IsAt model_verification t) (f r))
      → WellFormed (core_memory p) rows
      → (consume_token (core_memory p) w hash now >>= f) rows ≡ (ok b, after)
      → NoToken hash after
  consumed_first f rows after b keeps v h =
      let (r, mid, ran, rest) = >>=-ok _ f rows after b h in
      let same : table after model_verification ≡ table mid model_verification =
        rw rest at
          ((keeps r (table mid model_verification)).after mid (record { same = refl })).same in
      λ id s e. consume_token-NoToken p w hash now valid rows mid r v ran id s (rw same at e)

  refused_first :
      (f : Record → Action Rows B) (rows : Rows)
      → consume_token (core_memory p) w hash now rows ≡ (err replay, rows)
      → (consume_token (core_memory p) w hash now >>= f) rows ≡ (err replay, rows)
  refused_first f rows refused = >>=-err _ f rows rows replay refused

deletion_valid : validate_item (identified user_deletion) ≡ ok (checked (identified user_deletion))
unfolding validate_item
deletion_valid = refl

change_valid :
    validate_item (identified_prefix email_change) ≡ ok (checked (identified_prefix email_change))
unfolding validate_item
change_valid = refl

confirmation_valid :
    validate_item (identified_prefix email_change_confirmation)
    ≡ ok (checked (identified_prefix email_change_confirmation))
unfolding validate_item
confirmation_valid = refl

verification_valid :
    validate_item (identified email_verify) ≡ ok (checked (identified email_verify))
unfolding validate_item
verification_valid = refl

oauth_valid : validate_item (identified oauth_state) ≡ ok (checked (identified oauth_state))
unfolding validate_item
oauth_valid = refl

reset_valid : validate_item (identified password_reset) ≡ ok (checked (identified password_reset))
unfolding validate_item
reset_valid = refl

module _ (p : Printer) (hash : String) (now : ℕ) where
  -- the first step of every call
  used_lem :
      {B : Type 0} (m : Action Rows B) (rows after : Rows)
      → ((mid : Rows) (b : B) → m rows ≡ (ok b, mid) → NoToken hash mid)
      → discard m rows ≡ (ok tt, after)
      → NoToken hash after
  used_lem m rows after gone h =
      let (b, mid, ran, last) = >>=-ok m _ rows after tt h in
      rw ((pure-ok tt tt mid after last).1) at (gone mid b ran)

  use_token-NoToken :
      (u : TokenUse) (rows after : Rows)
      → WellFormed (core_memory p) rows
      → use_token p u hash now rows ≡ (ok tt, after)
      → NoToken hash after
  unfolding use_token consume_user_deletion consume_email_change consume_email_change_confirmation
      consume_email_verification consume_oauth_state consume_password_reset
  use_token-NoToken (for_deletion user) rows after v h =
      used_lem _ rows after
        (λ mid b ran.
          consumed_first p _ hash now deletion_valid _ rows mid b (λ r t. search store_rules) v ran)
        h
  use_token-NoToken for_email_change rows after v h =
      used_lem _ rows after
        (λ mid b ran.
          consumed_first p _ hash now change_valid _ rows mid b
            (λ r t. search (store_rules, update-IsAt, refl) depth 9) v
            (atomically-ok _ rows mid b ran))
        h
  use_token-NoToken for_confirmation rows after v h =
      used_lem _ rows after
        (λ mid b ran.
          consumed_first p _ hash now confirmation_valid _ rows mid b
            (λ r t. search (store_rules, find_user_by_id-IsAt)) v ran)
        h
  use_token-NoToken for_verification rows after v h =
      used_lem _ rows after
        (λ mid b ran.
          consumed_first p _ hash now verification_valid _ rows mid b
            (λ r t. search (store_rules, find_user_by_id-IsAt)) v ran)
        h
  use_token-NoToken for_oauth rows after v h =
      used_lem _ rows after
        (λ mid b ran.
          consumed_first p _ hash now oauth_valid _ rows mid b (λ r t. search store_rules) v ran)
        h
  use_token-NoToken (for_reset password) rows after v h =
      used_lem _ rows after
        (λ mid b ran.
          consumed_first p _ hash now reset_valid _ rows mid b
            (λ r t. search (store_rules, reset_password-IsAt)) v (atomically-ok _ rows mid b ran))
        h

  -- where ConsumeOne finds no row for the token hash, every use is refused
  pub refused_use_token :
      (u : TokenUse) (rows : Rows)
      → ((w : Where)
          → validate_item w ≡ ok (checked w)
          → consume_token (core_memory p) w hash now rows ≡ (err replay, rows))
      → use_token p u hash now rows ≡ (err replay, rows)
  unfolding use_token consume_user_deletion consume_email_change consume_email_change_confirmation
      consume_email_verification consume_oauth_state consume_password_reset
  refused_use_token (for_deletion user) rows refused =
      >>=-err _ _ rows rows replay
        (refused_first p _ hash now deletion_valid _ rows (refused _ deletion_valid))
  refused_use_token for_email_change rows refused = >>=-err _ _ rows rows replay (
      atomically-err _ rows rows replay
        (refused_first p _ hash now change_valid _ rows (refused _ change_valid)))
  refused_use_token for_confirmation rows refused =
      >>=-err _ _ rows rows replay
        (refused_first p _ hash now confirmation_valid _ rows (refused _ confirmation_valid))
  refused_use_token for_verification rows refused =
      >>=-err _ _ rows rows replay
        (refused_first p _ hash now verification_valid _ rows (refused _ verification_valid))
  refused_use_token for_oauth rows refused =
      >>=-err _ _ rows rows replay
        (refused_first p _ hash now oauth_valid _ rows (refused _ oauth_valid))
  refused_use_token (for_reset password) rows refused = >>=-err _ _ rows rows replay (
      atomically-err _ rows rows replay
        (refused_first p _ hash now reset_valid _ rows (refused _ reset_valid)))

  NoToken-use_token :
      (u : TokenUse) (rows : Rows)
      → WellFormed (core_memory p) rows
      → NoToken hash rows
      → use_token p u hash now rows ≡ (err replay, rows)
  NoToken-use_token u rows v n =
      refused_use_token u rows (λ w valid. NoToken-consume_token p w hash now valid rows v n)

  use_token-WellFormed :
      (u : TokenUse) → Preserves (WellFormed (core_memory p)) (use_token p u hash now)
  unfolding use_token
  use_token-WellFormed (for_deletion user) = search (store_rules, consume_user_deletion-WellFormed)
  use_token-WellFormed for_email_change = search (store_rules, consume_email_change-WellFormed)
  use_token-WellFormed for_confirmation =
      search (store_rules, consume_email_change_confirmation-WellFormed)
  use_token-WellFormed for_verification =
      search (store_rules, consume_email_verification-WellFormed)
  use_token-WellFormed for_oauth = search (store_rules, consume_oauth_state-WellFormed)
  use_token-WellFormed (for_reset password) =
      search (store_rules, consume_password_reset-WellFormed)

-- From well-formed tables, once a call for any of the six uses has succeeded with a token hash, a call with that
-- hash for any use, at any time, returns ErrReplay and changes nothing.
pub use_token-once :
    (p : Printer) (hash : String) (first second : TokenUse) (now later : ℕ) (rows after : Rows)
    → WellFormed (core_memory p) rows
    → use_token p first hash now rows ≡ (ok tt, after)
    → use_token p second hash later after ≡ (err replay, after)
use_token-once p hash first second now later rows after v h =
    NoToken-use_token p hash later second after
      (rw h at ((use_token-WellFormed p hash now first).after rows v))
      (use_token-NoToken p hash now first rows after v h)
