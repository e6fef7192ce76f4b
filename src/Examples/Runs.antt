-- ===== src/Examples/Runs.antt =====
-- Requests and writes on the example.
use fasti_kit.Accounts
use fasti_kit.Api
use fasti_kit.Tokens
use fasti_kit.Atomicity
use fasti_kit.Users.{stage_update, change, flush_changed, set_fields, same_columns}
use fasti_kit.Tokens.{insert_token}
use fasti_kit.Base.{◌≡◌, refl, true, false, List, [], ◌∷◌, ◌++◌}
use fasti_kit.Base.Table.{find, select, update_where, any}
use fasti_kit.Exceptions.{conflict_error, domain, ok, err}
use fasti_kit.Model.{RefreshSessionModel}
use fasti_kit.World.{◌>>=◌, transaction}
use fasti_kit.Examples.Data.{session, db, world, as_text, env, db-IsValid, world-IsSettled}
use fasti_kit.Sessions.{is_claimable, advance, rotate, mark_revoked}
use fasti_kit.Sessions.Rotation.{may_rotate, rotated_rows, handed_back, rotate_cases}
use fasti_kit.Atomicity.{Write, perform, perform_atomic}
use fasti_kit.Api.Sound.{run-IsSettled}
use fasti_kit.Api.{Request, login, refresh, retry_job, replicate, run}
use fasti_kit.Sessions.Interleaving.{
  Table, is_issued, Reach, here, next, creates, IsRevoked, claim_once, revoked_for_good,
}
use fasti_kit.World.Valid.{IsSettled}

abbrev requests : List Request
requests =
    login "ann@example.com" "secret"
    ∷ refresh 1 10 0
    ∷ Api.reset_password "reset" "fresh"
    ∷ retry_job 40
    ∷ replicate
    ∷ []

run-IsSettled_example : IsSettled (run env requests (world false))
run-IsSettled_example = run-IsSettled env requests (world false) (world-IsSettled false)

-- the used token makes the whole write fail, after the new password was staged
abbrev late_failure : Write
late_failure = Atomicity.reset_password 1 "hash:fresh" "used" 900

late_failure_raises :
    (perform as_text late_failure (world false)).0
    ≡ err (domain (conflict_error "Token already used"))
unfolding perform Accounts.reset_password stage_update change flush_changed set_fields same_columns
    Tokens.stage_add insert_token ◌>>=◌ transaction find any
late_failure_raises = refl

perform_atomic_example : (perform as_text late_failure (world false)).1.committed ≡ db
perform_atomic_example =
    perform_atomic as_text late_failure (world false) (domain (conflict_error "Token already used"))
      late_failure_raises

rotate_cases_example :
    ((rotate 10 1 0 (world false)).0
      ≡ ok (handed_back 0 100 (find (may_rotate 10 1 0 100) (session ∷ []))))
    × ((rotate 10 1 0 (world false)).1.committed
        ≡ record db { refresh_sessions = rotated_rows 10 1 0 100 (session ∷ []) })
rotate_cases_example = rotate_cases 10 1 0 (world false) db-IsValid refl

abbrev table : Table
table = record { issued = 10 ∷ []; rows = session ∷ [] }

-- somebody else's session
abbrev other : RefreshSessionModel
other = record session { id = 11; user_id = 2 }

abbrev claimed_table : Table
claimed_table = record table {
  rows = update_where (is_claimable 10 1 0 100) (advance 100) (session ∷ []);
}

abbrev later_table : Table
later_table = record { issued = 11 ∷ 10 ∷ []; rows = claimed_table.rows ++ other ∷ [] }

claim_reaches : Reach claimed_table later_table
unfolding any
claim_reaches = next here (creates claimed_table other refl)

session_issued : is_issued 10 (10 ∷ []) ≡ true
unfolding any
session_issued = refl

session_claimed : any (is_claimable 10 1 0 100) (session ∷ []) ≡ true
unfolding any
session_claimed = refl

claim_once_example : select (is_claimable 10 1 0 200) later_table.rows ≡ []
claim_once_example =
    claim_once 10 1 0 100 table (tt, tt) session_issued session_claimed claim_reaches 1 200

abbrev revoked_table : Table
revoked_table = record table { rows = mark_revoked 150 session ∷ [] }

revoked : IsRevoked 10 revoked_table
revoked = record { drawn = session_issued; revoked = ((λ _. refl), tt) }

abbrev revoked_later : Table
revoked_later = record { issued = 11 ∷ 10 ∷ []; rows = mark_revoked 150 session ∷ other ∷ [] }

revoked_reaches : Reach revoked_table revoked_later
unfolding any
revoked_reaches = next here (creates revoked_table other refl)

revoked_for_good_example : select (is_claimable 10 1 0 200) revoked_later.rows ≡ []
revoked_for_good_example = revoked_for_good 10 revoked revoked_reaches 1 0 200
