-- ===== src/Http/Tests.antt =====
-- Tests of the management server, and its theorems at concrete inputs.
use cyrenus.Http.Outcome.{run_request-refused, IsLogin, run_request-serves}
use cyrenus.Api.Samples.{always, Object}
use cyrenus.Http.Run.{Given, run_request}
use cyrenus.Http.Types.{Request}
use cyrenus.Http.Guard.{has_session, authenticate, skip_bearer}
use cyrenus.Http.Database.{database_get_session}
use cyrenus.Http.Routes.{
  copied_name, rules_routes, traffic_routes, account_routes, protected_route, not_found,
  public_route, policy_route,
}
use cyrenus.Prelude.{
  str_find, starts_with, ap, zero, str_eq, ◌++◌, suc, suc, suc, Text, length, drop, take,
}
use cyrenus.Http.Upload.{receive_all-body, bytes}
use cyrenus.Http.Gate.{handle_request-guarded}
use cyrenus.Http.Endpoint.{NoSlash, delete_rule}
use cyrenus.Http.Serve.{policy_route-long, request_of}
use cyrenus.Http.Samples.{
  sample_session, find_session, delete_request, times, rows, plain_digest, table,
}
use cyrenus.Http.Upload.{new_context, receive_all}
use cyrenus.Http.Access.{HasSession, HasKey, is_open}
use cyrenus.Http.Dispatch.{is_verify, process_request, handle_request}
use cyrenus.Http.Types.{undefined, rules_delete, call, ConnectionContext}
use cyrenus.Prelude.{refl, ◌⊎◌, codes, none, some, true, ◌≡◌, [], ◌∷◌, ℕ, arith}

receive_all-body_example :
    (ctx : ConnectionContext) × (receive_all ((true, 1 ∷ []) ∷ (true, 2 ∷ 3 ∷ []) ∷ []) new_context
      ≡ some ctx)
    × (bytes ctx.data_ptr ≡ 1 ∷ 2 ∷ 3 ∷ [])
    × (ctx.size ≡ 3)
receive_all-body_example =
    receive_all-body ((true, 1 ∷ []) ∷ (true, 2 ∷ 3 ∷ []) ∷ []) (refl, (refl, tt)) (omega arith)

handle_request-guarded_example :
    HasSession table plain_digest rows times (delete_request (some (codes "Bearer t")) none)
    ⊎ HasKey table plain_digest rows times (delete_request (some (codes "Bearer t")) none)
unfolding handle_request process_request public_route str_eq codes is_verify authenticate
    has_session database_get_session find_session skip_bearer starts_with drop protected_route
    account_routes traffic_routes rules_routes
handle_request-guarded_example =
    handle_request-guarded table plain_digest rows times
      (delete_request (some (codes "Bearer t")) none) (some new_context) true [] refl

no_session : ¬ (HasSession table plain_digest rows times (delete_request none none))
no_session s = let g = s.given in absurd (cc)

no_key : ¬ (HasKey table plain_digest rows times (delete_request none none))
no_key s = let g = s.given in absurd (cc)

-- A login with any body, and keys without one.
abbrev login_given : Given Object
login_given = record {
  json = always ((codes "username", codes "admin") ∷ (codes "password", codes "pw") ∷ []);
  sha256 = λ text. text;
  credentials = record { username = codes "admin"; password = codes "pw" };
  fresh = record { user_id = codes "u"; session_id = codes "s"; now = 1000 };
  rand = λ n. n;
  now = 1000;
}

abbrev login_request : Request
login_request = record {
  method = codes "POST";
  url = codes "/api/v1/auth/login";
  authorization = none;
  api_key = none;
}

no_login_session : ¬ (HasSession table plain_digest rows times login_request)
no_login_session s = let g = s.given in absurd (cc)

no_login_key : ¬ (HasKey table plain_digest rows times login_request)
no_login_key s = let g = s.given in absurd (cc)

run_request-refused_example :
    let result =
      run_request table plain_digest login_given rows times login_request
        (some new_context)
        true
        [] in
    (is_open result.0 ≡ true)
    × ((result.2 ≡ rows) ⊎ IsLogin table plain_digest login_given result.0)
run_request-refused_example =
    run_request-refused table plain_digest login_given rows times login_request (some new_context)
      true [] no_login_session no_login_key

live_session :
    HasSession table plain_digest rows times
      (request_of (delete_rule (codes "1")) (some (codes "Bearer t")) none)
unfolding database_get_session find_session skip_bearer starts_with drop codes str_eq take
live_session = record {
  auth_header = codes "Bearer t";
  session = sample_session;
  given = refl;
  found = refl;
  live = omega arith;
}

run_request-serves_example :
    run_request table plain_digest login_given rows times
      (request_of (delete_rule (codes "1")) (some (codes "Bearer t")) none)
      (some new_context)
      true
      []
    ≡ (call (rules_delete (codes "1")), some new_context, rows)
run_request-serves_example =
    run_request-serves table plain_digest login_given rows times (delete_rule (codes "1"))
      (some (codes "Bearer t")) none new_context true tt live_session

-- `n` times the letter a.
letters : ℕ → Text
letters zero = []
letters (suc n) = 97 ∷ letters n

letters-NoSlash : (n : ℕ) → NoSlash (letters n)
unfolding letters
letters-NoSlash zero = tt
letters-NoSlash (suc n) = (λ e. absurd (omega arith), letters-NoSlash n)

length-letters : (n : ℕ) → length (letters n) ≡ n
unfolding letters
length-letters zero = refl
length-letters (suc n) = ap suc (length-letters n)

abbrev two_bytes : Text
two_bytes = 1 ∷ 2 ∷ []

policy_route-long_example :
    (str_find (codes "/deploy") (letters 300 ++ codes "/deploy") ≡ some (length (letters 300)))
    × (str_find (codes "/deploy") (copied_name (letters 300 ++ codes "/deploy")) ≡ none)
    × (policy_route
          (delete_request none none)
          new_context
          (letters 300 ++ codes "/deploy")
          not_found
        ≡ undefined)
policy_route-long_example =
    policy_route-long (delete_request none none) new_context (letters 300) not_found
      (letters-NoSlash 300) (omega (arith, length-letters 300))
