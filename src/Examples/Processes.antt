-- ===== src/Examples/Processes.antt =====
-- The stack of middlewares, the seeding command, the lock around migrations and a start of the process
-- on small inputs.
use fasti_kit.Base.{
  ℕ, zero, suc, ◌+◌, ◌≤◌, ◌<◌, String, true, false, Option, none, some, List, [], ◌∷◌, ◌≡◌, refl,
  ap, sym, ◌∙◌, arith, if◌then◌else◌, string_eq, nat_eq, ◌==◌,
}
use fasti_kit.Base.Table.{any}
use fasti_kit.World.Valid.{has_user}
use fasti_kit.UserService.{CreateUserRequest}
use fasti_kit.Middleware.{HeaderOps, same_name, Scope, Task, Ending, raised, Web, deliver, stack}
use fasti_kit.Middleware.Trace.{is_single, Event, query, application}
use fasti_kit.Middleware.Stack.{Serves, stack-Serves}
use fasti_kit.Seeding.{Options, is_used, build_unique_user, seed}
use fasti_kit.Seeding.Drawing.{Distinct, build_unique_user_ends}
use fasti_kit.Seeding.Guarded.{seed_keeps_users}
use fasti_kit.MigrationLock.{
  System, init, goes, locked, migrating, waiting, try_lock, try_fails, commit_lock, Reach,
  start as begin, later,
}
use fasti_kit.MigrationLock.Exclusion.{one_at_a_time}
use fasti_kit.Startup.{
  Required, Closing, check_database, check_mail_config, check_jwt_config, missing, run, lifespan,
}
use fasti_kit.Startup.Released.{IsReady, IsReleased, serves, served-IsReady}
use fasti_kit.Examples.Data.{world, env}

abbrev Pairs : Type 0
Pairs = List (String × String)

abbrev value_of : String → Pairs → Option String
value_of name [] = none
value_of name ((key, value) ∷ rest) = if same_name key name then some value else value_of name rest

abbrev pairs : HeaderOps
pairs = record {
  Headers = Pairs;
  get = value_of;
  set = λ name value h. (name, value) ∷ h;
  get-set = λ name key value h. refl;
}

abbrev web : Web pairs
web = record {
  uuid = λ k. "drawn";
  decimal = λ n. if n == 0 then "0" else "many";
  phrase = λ status. none;
  rendered = λ response. (("Content-Type", "application/problem+json") ∷ [], "{}");
}

abbrev get_request : Scope Pairs
get_request = record {
  type = "http";
  method = "GET";
  path = "/health";
  headers = ("x-request-id", "abc") ∷ [];
}

abbrev task : Task Pairs
task = record { sent = []; request_id = "-"; query_count = 7; draws = 0; log = [] }

-- two statements and an exception
abbrev behave : Scope Pairs → String → List (Event Pairs) × Ending
behave scope id = (query ∷ query ∷ [], raised)

stack-Serves_example :
    Serves pairs web behave get_request task true false
      (stack pairs web "local" (application true behave) get_request deliver task)
unfolding is_single
stack-Serves_example = stack-Serves pairs web "local" behave get_request task refl refl

-- a text for each number
marks : ℕ → String
marks zero = ""
marks (suc n) = String.◌∷◌ "x" (marks n)

abbrev request : ℕ → CreateUserRequest
request k = record { name = "Bob"; email = marks k; password = "secret" }

size : String → ℕ
size String.[] = 0
size (String.◌∷◌ c s) = suc (size s)

size-marks : (n : ℕ) → size (marks n) ≡ n
unfolding size marks
size-marks zero = refl
size-marks (suc n) = ap suc (size-marks n)

request-Distinct : Distinct request 0 3
request-Distinct i j after lt soon same =
    absurd (omega (arith, sym (size-marks i) ∙ ap size same ∙ size-marks j))

build_unique_user_ends_example :
    (made : CreateUserRequest) × (next : ℕ) × (build_unique_user env request 3 ("" ∷ "x" ∷ []) 0
      ≡ some (made, next))
    × (is_used made.email ("" ∷ "x" ∷ []) ≡ false)
    × (0 < next)
    × (next ≤ 0 + 3)
build_unique_user_ends_example =
    build_unique_user_ends env request ("" ∷ "x" ∷ []) 0 request-Distinct

abbrev options : Options
options = record {
  count = 2;
  admin_email = "admin@example.com";
  admin_password = "admin123";
  unverified_count = 1;
  reset = false;
  force = true;
}

abbrev host_of : String → Option (Option String)
host_of url = some (some "localhost")

seed_keeps_users_example :
    has_user
      (seed env request host_of "local" "postgresql://localhost/app" false options
        (world false)).1.committed.users
      1
    ≡ true
unfolding any
seed_keeps_users_example =
    seed_keeps_users env request host_of "local" "postgresql://localhost/app" false options
      (world false) refl refl 1 refl

-- the first process migrates, and the second waits
abbrev first_locked : System
first_locked = record { holder = some 0; pc = goes 0 locked init.pc }

abbrev second_waits : System
second_waits = record { holder = some 0; pc = goes 1 waiting first_locked.pc }

abbrev first_migrates : System
first_migrates = record { holder = some 0; pc = goes 0 migrating second_waits.pc }

reached : Reach first_migrates
reached =
    later (later (later begin (try_lock 0 refl refl)) (try_fails 1 0 refl refl))
      (commit_lock 0 refl)

one_at_a_time_example : ◌≡◌ {A = ℕ} 0 0
one_at_a_time_example = one_at_a_time reached 0 0 refl refl

abbrev settings : Required
settings = record {
  mail_from = "kit@example.org";
  mail_port = 587;
  mail_server = "smtp.example.org";
  jwt_secret_key = "secret";
  jwt_algorithm = "HS256";
}

-- the replica is down, and its pool fails to close
abbrev closing : Closing
closing = record { primary_closes = true; replica_closes = false; redis_closes = true }

settings_serve : serves (lifespan settings true false closing) ≡ true
unfolding serves lifespan run check_database check_mail_config check_jwt_config missing
settings_serve = refl

served-IsReady_example :
    IsReady settings true × IsReleased closing (lifespan settings true false closing)
served-IsReady_example = served-IsReady settings closing true false settings_serve
