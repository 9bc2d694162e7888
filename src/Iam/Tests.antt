-- ===== src/Iam/Tests.antt =====
-- Runs of the sessions and of the codes on small tables, and the theorems about them at concrete
-- inputs. The hash of a token or a code is the number plus 1000.
use detailing_studio.Prelude.{
  ℕ, ◌+◌, ◌≡◌, refl, false, ◌&&◌, Option, none, some, List, [], ◌∷◌, ◌==◌, if◌then◌else◌, any,
  arith, ok, err,
}
use detailing_studio.Iam.Session.{RefreshSession, issue, is_active}
use detailing_studio.Iam.Sessions.{
  SessionTable, GeneratedToken, UserSnapshot, master, active_user, find_active, refresh_token_reuse,
  build_login_response, otp_attempts_exceeded, save, put, refresh,
}
use detailing_studio.Iam.Sessions.Laws.{IsValid, holders}
use detailing_studio.Iam.Sessions.Reuse.{reuse_detected}
use detailing_studio.Iam.Sessions.History.{
  SessionReach, here, next, logs_in, refreshes, reach-IsValid,
}
use detailing_studio.Iam.Otp.{OtpRequest, login_purpose, request, verify}
use detailing_studio.Iam.Otp.Laws.{Guess, guess_all, attempts_run_out}
use detailing_studio.Iam.Login.{LoginTable, find_pending_by_phone_and_purpose, login_by_phone_otp}
use detailing_studio.Iam.Login.Guesses.{login_all, wrong_logins_free}

abbrev hash_fn : ℕ → ℕ
hash_fn n = n + 1000

abbrev the_user : UserSnapshot
the_user = record {
  id = 7;
  phone = 79001234567;
  full_name = "Ivan";
  role = master;
  branch_ids = 1 ∷ [];
  status = active_user;
}

abbrev find_user : ℕ → Option UserSnapshot
find_user id = if id == 7 then some the_user else none

abbrev find_by_phone : ℕ → Option UserSnapshot
find_by_phone phone = if phone == 79001234567 then some the_user else none

abbrev token : ℕ → GeneratedToken
token n = record { raw = n; hash = n + 1000 }

abbrev empty_table : SessionTable
empty_table = record { sessions = []; outbox = [] }

abbrev the_session : RefreshSession
the_session = record (issue 1 7 none 1050 0) { events = [] }

abbrev one_session : SessionTable
one_session = record { sessions = the_session ∷ []; outbox = [] }

one_session-IsValid : IsValid one_session.sessions
unfolding issue
one_session-IsValid = record { one_holder = λ h. ground arith; one_row = λ i. ground arith }

empty-IsValid : IsValid []
empty-IsValid = record { one_holder = λ h. omega arith; one_row = λ i. omega arith }

reuse_detected_example :
    ((refresh hash_fn find_user 50 20
        (token 52)
        (refresh hash_fn find_user 50 10 (token 51) one_session).0).1
      ≡ err (refresh_token_reuse the_session.id))
    × (any
          (λ x. is_active x.status && x.user_id == the_session.user_id)
          (refresh hash_fn find_user 50 20
            (token 52)
            (refresh hash_fn find_user 50 10 (token 51) one_session).0).0.sessions
        ≡ false)
unfolding issue find_active
reuse_detected_example =
    reuse_detected hash_fn find_user 50 10 20 (token 51) (token 52) one_session the_session
      one_session-IsValid refl refl refl

-- A login and a refresh with the token that it gave.
abbrev after_login : SessionTable
after_login = save (issue 1 7 none 1050 0) empty_table

after_login-fresh : holders 1051 after_login.sessions ≡ 0
unfolding save issue put
after_login-fresh = refl

two_steps :
    SessionReach hash_fn find_user empty_table
      (refresh hash_fn find_user 50 10 (token 51) after_login).0
two_steps =
    next (next here (logs_in 1 7 0 (token 50) refl refl))
      (refreshes 50 10 (token 51) after_login-fresh)

reach-IsValid_example : IsValid (refresh hash_fn find_user 50 10 (token 51) after_login).0.sessions
reach-IsValid_example = reach-IsValid hash_fn find_user two_steps empty-IsValid

abbrev the_request : OtpRequest
the_request = record (request 3 79001234567 login_purpose 1234 234 none (some 2) 0) { events = [] }

abbrev two_guesses : List Guess
two_guesses = record { code = 1; at = 10 } ∷ record { code = 2; at = 20 } ∷ []

attempts_run_out_example :
    (verify hash_fn 234 30 (guess_all hash_fn two_guesses the_request)).1
    ≡ err (otp_attempts_exceeded 3)
unfolding request find_pending_by_phone_and_purpose
attempts_run_out_example =
    attempts_run_out hash_fn two_guesses the_request 234 30 refl (omega arith) refl refl
      (omega arith)

abbrev requested : LoginTable
requested = record { requests = the_request ∷ []; sessions = empty_table; otp_outbox = [] }

wrong_logins_free_example :
    (login_all hash_fn find_by_phone 79001234567 9 (token 60) two_guesses requested ≡ requested)
    × ((login_by_phone_otp hash_fn find_by_phone 79001234567 234 9
          (token 60)
          30
          (login_all hash_fn find_by_phone 79001234567 9 (token 60) two_guesses requested)).1
        ≡ ok (build_login_response 60 the_user))
unfolding request find_pending_by_phone_and_purpose
wrong_logins_free_example =
    wrong_logins_free hash_fn find_by_phone 79001234567 9 234 30 (token 60) two_guesses requested
      the_request the_user refl refl (omega arith) refl (omega arith) refl refl
