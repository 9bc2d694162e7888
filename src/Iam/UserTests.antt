-- ===== src/Iam/UserTests.antt =====
-- The theorems on users at concrete ones.
use detailing_studio.Prelude.{◌≡◌, refl, false, none, [], ◌∷◌, ok, ◌>>=◌}
use detailing_studio.Iam.Sessions.{owner}
use detailing_studio.Iam.User.{User, UserTable, register, block_user}
use detailing_studio.Iam.User.Blocking.{active_owners, both_owners_blocked}

abbrev ann : User
ann = register 1 "ann@studio" 79001112233 none "Ann" owner [] 10

abbrev bob : User
bob = register 2 "bob@studio" 79001112244 none "Bob" owner [] 10

both_owners_blocked_example :
    (t : UserTable) × ((block_user 1 9 "leave" 20 (record { users = ann ∷ bob ∷ []; outbox = [] })
        >>= block_user 2 9 "leave" 30)
      ≡ ok t)
    × (active_owners t.users ≡ false)
unfolding register
both_owners_blocked_example =
    both_owners_blocked ann bob [] [] 9 20 30 "leave" refl refl refl refl refl refl
