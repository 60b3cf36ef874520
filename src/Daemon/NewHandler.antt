-- ===== src/Daemon/NewHandler.antt =====
-- main/smartmetd.cpp: set_new_handler and the two handlers of an allocation that fails. An exception is
-- a value; printing the report may throw one.
use smartmet_server.Base.{ℕ, arith, Option, refl, none, Bool, some, ◌≡◌, if◌then◌else◌}
use smartmet_server.Text.{Bytes, same_bytes, codes}
use smartmet_server.Daemon.EventRate.{EventRate, check}

-- How a call ends.
pub data Ending : Type 0 where
  returns throws_bad_alloc throws_other terminates : Ending

-- `try { body } catch (...) { std::terminate(); }` around a whole function.
abbrev pub or_terminate : Ending → Ending
or_terminate returns = returns
or_terminate throws_bad_alloc = terminates
or_terminate throws_other = terminates
or_terminate terminates = terminates

-- The body of bad_alloc_new_handler: the rate limit, the report, and the exception.
unfoldable pub bad_alloc_body : ℕ → Bool → EventRate → EventRate × Ending
bad_alloc_body now prints rate =
    let (rate', threw) = check now rate in
    (rate', if threw then throws_other else if prints then throws_bad_alloc else throws_other)

unfoldable pub bad_alloc_new_handler : ℕ → Bool → EventRate → EventRate × Ending
unfolding bad_alloc_body
bad_alloc_new_handler now prints rate =
    let (rate', ending) = bad_alloc_body now prints rate in (rate', or_terminate ending)

abbrev pub terminate_new_handler : Ending
terminate_new_handler = or_terminate throws_bad_alloc

pub data NewHandler : Type 0 where
  bad_alloc_handler terminate_handler : NewHandler

-- `none` is the exception for an unknown name.
unfoldable pub set_new_handler : Bytes → Option NewHandler
set_new_handler name =
    if same_bytes name (codes "default")
    then some bad_alloc_handler
    else if same_bytes name (codes "bad_alloc")
    then some bad_alloc_handler
    else if same_bytes name (codes "terminate")
    then some terminate_handler
    else none

-- An allocation that fails with a handler in place.
unfoldable pub out_of_memory : NewHandler → ℕ → Bool → EventRate → EventRate × Ending
out_of_memory bad_alloc_handler now prints rate = bad_alloc_new_handler now prints rate
out_of_memory terminate_handler now prints rate = (rate, terminate_new_handler)

-- Whatever name of the option new_handler is accepted, the first allocation that fails ends the
-- process: the handler that is to throw std::bad_alloc catches its own exception, so that nothing is
-- ever thrown to the code that allocates, whether or not the rate limit is reached.
pub out_of_memory-terminates :
    (name : Bytes) (h : NewHandler) (now : ℕ) (prints : Bool) (rate : EventRate)
    → set_new_handler name ≡ some h
    → (out_of_memory h now prints rate).1 ≡ terminates
unfolding out_of_memory bad_alloc_new_handler
out_of_memory-terminates name bad_alloc_handler now prints rate e = ground arith
out_of_memory-terminates name terminate_handler now prints rate e = refl
