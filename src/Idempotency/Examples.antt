-- ===== src/Idempotency/Examples.antt =====
-- A request to create a job, sent twice with one key.

use fenzit_be.Idempotency.Laws.{intercept-retried, IsKeyed}
use fenzit_be.Access.Guards.{single, is_uuid}
use fenzit_be.Attendance.Errors.{returned, Result}
use fenzit_be.Idempotency.{
  look_up, persist, intercept_keyed, LogRow, scope_of, Moment, KeyedRequest, intercept, path_of,
  is_uuid_v4,
}
use fenzit_be.Access.Guards.{RequestUser}
use fenzit_be.Prelude.{refl}
use fenzit_be.Prelude.{arith, true, ◌+◌, none, [], ◌≡◌, false, some, codes, List, ℕ, Text}

abbrev key : Text
key = codes "3f2504e0-4f89-41d3-9a0c-0305e82c3301"

abbrev company : Text
company = codes "t1"

abbrev user : RequestUser
user = record {
  user_id = codes "u1";
  tenant_id = some company;
  role = none;
  platform_admin = false;
  raw_jwt = codes "jwt";
}

abbrev request_to : Text → KeyedRequest
request_to url = record {
  idempotency_key = single key;
  user = some user;
  method = codes "POST";
  url = url;
}

abbrev at_time : ℕ → Moment
at_time t = record { now = t; lookup_fails = false; insert_fails = false; inserted_at = t }

-- Each run makes one more job and answers how many there are.
abbrev make : ℕ → Result ℕ × ℕ
make jobs = (returned (jobs + 1), jobs + 1)

is_uuid_v4_key : is_uuid_v4 key ≡ true
unfolding is_uuid_v4 is_uuid
is_uuid_v4_key = refl

is_uuid_v4_other : is_uuid_v4 (codes "3f2504e0-4f89-11d3-9a0c-0305e82c3301") ≡ false
unfolding is_uuid_v4 is_uuid
is_uuid_v4_other = refl

request-IsKeyed : (url : Text) → IsKeyed (request_to url) key company
request-IsKeyed url = record { has_key = refl; is_well_formed = is_uuid_v4_key; has_tenant = refl }

same_path : scope_of (request_to (codes "/jobs?x=1")) ≡ scope_of (request_to (codes "/jobs"))
unfolding path_of
same_path = refl

abbrev kept : List (LogRow ℕ)
kept = persist (at_time 1000) key company (scope_of (request_to (codes "/jobs"))) 6 []

intercept-retried_example :
    (intercept (at_time 1000) make (request_to (codes "/jobs")) [] 5 ≡ (returned 6, (kept, 6)))
    × (intercept (at_time 5000) make (request_to (codes "/jobs?x=1")) kept 6
        ≡ (returned 6, (kept, 6)))
intercept-retried_example =
    intercept-retried (at_time 1000) (at_time 5000) make make (request_to (codes "/jobs"))
      (request_to (codes "/jobs?x=1")) key company [] 5 6 6 (request-IsKeyed (codes "/jobs"))
      (request-IsKeyed (codes "/jobs?x=1")) same_path refl refl refl refl (omega arith)

-- After a day the key runs the handler again, and its old row keeps the new body out of the log.
late :
    intercept (at_time 86401000) make (request_to (codes "/jobs")) kept 6 ≡ (returned 7, (kept, 7))
unfolding intercept intercept_keyed look_up persist path_of is_uuid_v4 is_uuid
late = refl
