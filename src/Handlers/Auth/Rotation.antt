-- ===== src/Handlers/Auth/Rotation.antt =====
-- auth_handler.go, Refresh and Logout: the refresh tokens that are still good afterwards.
use rd_testing_project.Base.{
  ℕ, ◌+◌, ◌*◌, ◌∙◌, ap, ◌≡◌, ◌≢◌, ◌≤◌, refl, String, true, false, none, some, string_eq, nat_eq,
  arith, text_eq_iff, inl, inr, Option-cases,
}
use mathlib.Core.Option
use rd_testing_project.Base.Maps.{get, put, update, get-put_self, get-put_other, get-update_self}
use rd_testing_project.Models.{Time, User, RefreshToken, hour}
use rd_testing_project.Store.{MemoryStore, ok, err, not_found, Result-cases}
use rd_testing_project.Store.Users.{
  get_refresh_token, revoke_refresh_token, get_user_by_id, save_refresh_token,
}
use rd_testing_project.Http.{Env, Request, Decoded, audit, status_ok}
use rd_testing_project.Auth.{Crypto}
use rd_testing_project.Handlers.Auth.{
  RefreshRequest, refresh, logout, new_refresh_token, new_refresh_entry, issue_tokens_and_respond,
}

-- A token is spent: no lookup of it succeeds any more.
abbrev IsSpent : String → MemoryStore → Type 0
IsSpent token m = (now : Time) → get_refresh_token token now m ≡ err not_found

revoked-IsSpent :
    (token : String) (m : MemoryStore) (rt : RefreshToken)
    → get token m.refresh_tokens ≡ some rt
    → rt.revoked ≡ true
    → IsSpent token m
unfolding get_refresh_token
revoked-IsSpent token m rt here revoked now = ground arith

missing-IsSpent :
    (token : String) (m : MemoryStore) → get token m.refresh_tokens ≡ none → IsSpent token m
unfolding get_refresh_token
missing-IsSpent token m gone now = ground arith

module _ (c : Crypto) (secret : String) (env : Env) (r : Request) where
  refused_refresh :
      (body : Decoded RefreshRequest) (m : MemoryStore)
      → IsSpent body.value.refresh_token m
      → ((refresh c secret env r body m).0.status ≢ status_ok)
        × ((refresh c secret env r body m).1 ≡ m)
  unfolding refresh
  refused_refresh body m spent = let e = spent (env.now 0) in (λ x. ground arith, ground arith)

  -- issueTokensAndRespond adds one token, the drawn one, or none where no access token is minted.
  issue_tokens_adds :
      (i : ℕ) (user : User) (m : MemoryStore)
      → (issue_tokens_and_respond c secret env r i user m).0.status ≡ status_ok
      → (issue_tokens_and_respond c secret env r i user m).1.refresh_tokens
        ≡ put
            (new_refresh_token env)
            (new_refresh_entry env (env.now (i + 1)) user)
            m.refresh_tokens
  unfolding issue_tokens_and_respond save_refresh_token audit
  issue_tokens_adds i user m h = ground arith

  -- What a refresh that succeeds has found and has left of the refresh tokens.
  refresh_succeeds :
      (body : Decoded RefreshRequest) (m : MemoryStore)
      → (refresh c secret env r body m).0.status ≡ status_ok
      → (rt : RefreshToken) × (user : User) × (get_refresh_token body.value.refresh_token
            (env.now 0)
            m
          ≡ ok rt)
        × (get rt.user_id m.users ≡ some user)
        × ((refresh c secret env r body m).1.refresh_tokens
            ≡ put (new_refresh_token env) (new_refresh_entry env (env.now 2) user) (
                update body.value.refresh_token
                  (λ (t : RefreshToken). record t { revoked = true })
                  m.refresh_tokens))
  unfolding refresh revoke_refresh_token get_user_by_id
  refresh_succeeds body m h =
      elim (Result-cases (get_refresh_token body.value.refresh_token (env.now 0) m)) [
        | inr (x, e) ↦ absurd (ground arith)
        | inl (rt, e) ↦ elim (Option-cases (get rt.user_id m.users)) [
          | inl gone ↦ absurd (ground arith)
          | inr (user, here) ↦
              let spent = record m {
                refresh_tokens =
                    update body.value.refresh_token
                      (λ (t : RefreshToken). record t { revoked = true }) m.refresh_tokens;
              } in
              let runs : refresh c secret env r body m
                  ≡ issue_tokens_and_respond c secret env r 1 user spent =
                ground arith in
              (rt, user, e, here, rw runs (issue_tokens_adds 1 user spent (rw (← runs) h)))
        ]
      ]

usable_lem :
    (token : String) (now : Time) (m : MemoryStore) (rt : RefreshToken)
    → get_refresh_token token now m ≡ ok rt
    → get token m.refresh_tokens ≡ some rt
unfolding get_refresh_token
usable_lem token now m rt h = elim (Option-cases (get token m.refresh_tokens)) [
  | inl gone ↦ absurd (ground arith)
  | inr (found, here) ↦ ground arith
]

-- After a refresh that succeeds and draws a token other than the one given, a refresh with the old
-- token does not succeed and changes nothing.
pub refresh_rotates :
    (c : Crypto) (secret : String) (env env' : Env) (r r' : Request)
    → (body : Decoded RefreshRequest) (m : MemoryStore)
    → new_refresh_token env ≢ body.value.refresh_token
    → (refresh c secret env r body m).0.status ≡ status_ok
    → let m' = (refresh c secret env r body m).1 in
      ((refresh c secret env' r' body m').0.status ≢ status_ok)
      × ((refresh c secret env' r' body m').1 ≡ m')
refresh_rotates c secret env env' r r' body m differ h =
    let old = body.value.refresh_token in
    let revoke = λ (t : RefreshToken). record t { revoked = true } in
    let (rt, user, usable, _, tokens) = refresh_succeeds c secret env r body m h in
    let m' = (refresh c secret env r body m).1 in
    let revoked : get old m'.refresh_tokens ≡ some (revoke rt) = rw tokens (
      get-put_other old (new_refresh_token env) (new_refresh_entry env (env.now 2) user)
        (update old revoke m.refresh_tokens) differ
      ∙ get-update_self old revoke m.refresh_tokens
      ∙ ap (Option.map revoke) (usable_lem old (env.now 0) m rt usable)) in
    refused_refresh c secret env' r' body m' (revoked-IsSpent old m' (revoke rt) revoked refl)

-- A refresh that succeeds had a usable token of a user that exists, and the token it draws is
-- usable for seven days and is of that user.
pub refresh_renews :
    (c : Crypto) (secret : String) (env : Env) (r : Request)
    → (body : Decoded RefreshRequest) (m : MemoryStore) (now : Time)
    → (refresh c secret env r body m).0.status ≡ status_ok
    → now ≤ env.now 2 + 7 * 24 * hour
    → (old new : RefreshToken) × (user : User) × (get_refresh_token body.value.refresh_token
          (env.now 0)
          m
        ≡ ok old)
      × (get old.user_id m.users ≡ some user)
      × (get_refresh_token (new_refresh_token env) now (refresh c secret env r body m).1 ≡ ok new)
      × (new.user_id ≡ user.id)
unfolding get_refresh_token
refresh_renews c secret env r body m now h early =
    let (rt, user, usable, here, tokens) = refresh_succeeds c secret env r body m h in
    let new = new_refresh_entry env (env.now 2) user in
    let m' = (refresh c secret env r body m).1 in
    let filed : get (new_refresh_token env) m'.refresh_tokens ≡ some new =
      rw tokens (get-put_self (new_refresh_token env) new _) in
    (rt, new, user, usable, here, rw filed (ground arith), refl)

-- After a logout that gives a token, a refresh with it does not succeed and changes nothing.
logout_revokes :
    (c : Crypto) (secret : String) (env env' : Env) (r r' : Request)
    → (body : Decoded RefreshRequest) (m : MemoryStore) → body.failed ≡ false
    → body.value.refresh_token ≢ ""
    → let m' = (logout c secret env r body m).1 in
      ((refresh c secret env' r' body m').0.status ≢ status_ok)
      × ((refresh c secret env' r' body m').1 ≡ m')
unfolding logout revoke_refresh_token audit
logout_revokes c secret env env' r r' body m parsed given =
    let token = body.value.refresh_token in
    let revoke = λ (t : RefreshToken). record t { revoked = true } in
    let m' = (logout c secret env r body m).1 in
    let tokens : m'.refresh_tokens ≡ update token revoke m.refresh_tokens =
      ground (arith, text_eq_iff token "") in
    refused_refresh c secret env' r' body m' (elim (Option-cases (get token m.refresh_tokens)) [
      | inl gone ↦
          missing-IsSpent token m' (
            rw tokens (get-update_self token revoke m.refresh_tokens ∙ ap (Option.map revoke) gone))
      | inr (rt, here) ↦
          revoked-IsSpent token m' (revoke rt)
            (rw tokens
              (get-update_self token revoke m.refresh_tokens ∙ ap (Option.map revoke) here))
            refl
    ])
