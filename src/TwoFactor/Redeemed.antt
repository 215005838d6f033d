-- ===== src/TwoFactor/Redeemed.antt =====
-- Challenges that are over, and challenges that no delivered code can answer.
use better_auth_go.Prelude.{
  ℕ, String, ◌≡◌, refl, sym, ap, ◌∙◌, true, false, [], ◌∷◌, none, arith, Bool-cases, inl, inr,
  subst, ◌==◌,
}
use better_auth_go.Action.{Error, not_found, Result, ok, err, Action, pure, throw}
use better_auth_go.Action.Inversion.{
  >>=-ok, >>=-run, >>=-err, pure-ok, lift-ok, with_result-run, unless-run, when-run, otherwise-ok,
}
use better_auth_go.Value.{Record, text, instant}
use better_auth_go.Database.{equals, validate_item}
use better_auth_go.Schema.{model_verification}
use better_auth_go.Memory.Table.{Rows, table, unique_keys}
use better_auth_go.Memory.Match.{matches}
use better_auth_go.Memory.WellFormed.{WellFormed}
use better_auth_go.Memory.Effects.{NoneSelected, consume-NoneSelected}
use better_auth_go.Memory.Semantics.{deep_equal-text}
use better_auth_go.Store.Queries.{rows_where, live_token, require-none}
use better_auth_go.Store.SingleUse.{checked_token, live_token-valid, matches-token}
use better_auth_go.TwoFactor.Config.{is_none}
use better_auth_go.TwoFactor.Challenges.{
  Env, verification_pending, verification_value, consume_verification,
}
use better_auth_go.TwoFactor.Lockout.{
  VerificationState, invalid_challenge, invalid_factor, failing_as,
}
use better_auth_go.TwoFactor.Verify.{
  Request, Services, Outcome, redeem_challenge, verification_state, found_record, checked_record,
}
use better_auth_go.TwoFactor.Handlers.{verify_otp}
use better_auth_go.TwoFactor.SignIn.{otp_record, send_otp}
use better_auth_go.TwoFactor.Attempts.{OfValue, consume_verification-ok}
use better_auth_go.TwoFactor.Preserved.{consume_verification-WellFormed}
use better_auth_go.TwoFactor.Requests.{at_request}
use better_auth_go.TwoFactor.Locked.{restoring-run}
use better_auth_go.TwoFactor.Begun.{
  failing_as-ok, NoFactor, verification_state-NoFactor, verification_state-same,
}

module _ {S A : Type 0} where
  failing_as-err :
      (e f : Error) (m : Action S A) (s t : S) → m s ≡ (err f, t) → failing_as e m s ≡ (err e, t)
  unfolding failing_as
  failing_as-err e f m s t h = ap (λ (p : Result A × S). failing_as e (λ u. p) s) h

module _ (env : Env) where
  consume_verification-none :
      (identifier value : String) (rows : Rows)
      → WellFormed env.adapter rows
      → OfValue value (λ r. ⊥) rows
      → consume_verification env identifier value rows ≡ (err not_found, rows)
  unfolding consume_verification validate_item
  consume_verification-none identifier value rows v clear =
      >>=-run _ _ rows rows none (
        consume-NoneSelected env.adapter
          (rows_where model_verification
            (live_token (equals "identifier" (text identifier)) value (instant env.now)))
          (checked_token (equals "identifier" (text identifier)) value env.now) rows
          (live_token-valid (equals "identifier" (text identifier)) value env.now refl)
          (v.at model_verification).distinct none_selected)
      ∙ require-none not_found rows
    where
      none_selected :
          NoneSelected env.adapter.printer
            (checked_token (equals "identifier" (text identifier)) value env.now)
            (table rows model_verification)
      none_selected id r here =
          elim (Bool-cases (
            matches env.adapter.printer r
              (checked_token (equals "identifier" (text identifier)) value env.now))) [
                | inl hit ↦ absurd (
                    clear.at id r here (
                      deep_equal-text _ value (
                        ground (
                          arith,
                          hit,
                          matches-token env.adapter.printer (equals "identifier" (text identifier))
                              value env.now r,
                        ))))
                | inr miss ↦ miss
              ]

module _ (env : Env) (keys : unique_keys env.adapter model_verification ≡ ("value" ∷ []) ∷ []) where
  -- Where verification values are unique, once a pending challenge has been redeemed on well-formed tables,
  -- redeeming it again at any time is refused as an invalid challenge, and nothing changes.
  pub redeem_challenge-once :
      (state : VerificationState) (rows after : Rows) (now : ℕ)
      → WellFormed env.adapter rows
      → state.pending ≡ true
      → redeem_challenge env state rows ≡ (ok tt, after)
      → redeem_challenge (at_request env now [] "") state after ≡ (err invalid_challenge, after)
  unfolding redeem_challenge verification_value
  redeem_challenge-once state rows after now v pending h =
      let (row, mid, ran, last) =
        >>=-ok _ _ rows after tt
          (failing_as-ok _ _ rows after tt (sym (when-run state.pending _ _ rows pending) ∙ h)) in
      let (m, t, parsed, ended) = >>=-ok _ _ mid after tt last in
      let (same_user, done) =
        otherwise-ok (m.user_id == state.user_id) not_found (pure tt) tt t after ended in
      let same : mid ≡ after = (lift-ok _ m mid t parsed).1 ∙ (pure-ok tt tt t after done).1 in
      let (id, here, has, clear) =
        consume_verification-ok env keys verification_pending
          (verification_value env "pending" state.key) rows mid row v ran in
      when-run state.pending _ _ after pending
      ∙ failing_as-err _ not_found _ after after (
          >>=-err _ _ after after not_found (
            rw same at (
              consume_verification-none (at_request env now [] "") verification_pending
                (verification_value env "pending" state.key) mid (tables mid row ran)
                (clear (λ r. ⊥)))))
    where
      tables :
          (mid : Rows) (row : Record)
          → consume_verification env verification_pending
              (verification_value env "pending" state.key)
              rows
            ≡ (ok row, mid)
          → WellFormed env.adapter mid
      tables mid row ran =
          subst (WellFormed env.adapter) (ap (λ (x : Result Record × Rows). x.1) ran) (
            (consume_verification-WellFormed env verification_pending
                (verification_value env "pending" state.key)).after
              rows v)

module _ (env : Env) (services : Services) (request : Request)
    (deliver : is_none env.config.deliver_otp ≡ false) where
  -- On well-formed tables, where delivered codes are configured and no two-factor record is that of a request's
  -- user, sendOTP is refused as an invalid code and changes nothing, and verifyOTP is refused as an invalid code.
  pub no_record-refused :
      (offer state : VerificationState) (rows sent checked : Rows)
      → WellFormed env.adapter rows
      → verification_state env false request.session request.pending_cookie rows ≡ (ok offer, sent)
      → verification_state env true request.session request.pending_cookie rows
        ≡ (ok state, checked)
      → NoFactor offer.user_id rows
      → NoFactor state.user_id rows
      → (send_otp env services request rows ≡ (err invalid_factor, rows))
        × ((verify_otp env services request rows).0 ≡ err invalid_factor)
  unfolding send_otp verify_otp otp_record found_record checked_record throw
  no_record-refused offer state rows sent checked v offered begun unowned_offer unowned = (
    (unless-run _ _ _ rows deliver
          ∙ >>=-run _ _ rows sent offer offered
          ∙ >>=-err _ _ sent sent invalid_factor (
              with_result-run _ _ sent sent (err not_found) (
                verification_state-NoFactor env false request.session request.pending_cookie
                  offer.user_id offer rows sent v unowned_offer offered)))
        ∙ ap (λ (s : Rows). (err invalid_factor, s))
            (verification_state-same env request.session request.pending_cookie offer rows sent
              offered),
    ap (λ (x : Result Outcome × Rows). x.0)
        (unless-run _ _ _ rows deliver
          ∙ >>=-run _ _ rows checked state begun
          ∙ >>=-err _ _ checked _ invalid_factor (
              with_result-run _ _ checked checked (err not_found) (
                verification_state-NoFactor env true request.session request.pending_cookie
                  state.user_id state rows checked v unowned begun)
              ∙ restoring-run env request state invalid_factor checked)),
  )
