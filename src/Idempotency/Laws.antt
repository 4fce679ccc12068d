-- ===== src/Idempotency/Laws.antt =====
-- A retried request is answered from the log.

-- The request has a key of the expected form and a user of a company.
use fenzit_be.Attendance.Errors.{thrown, returned, HttpException, Result}
use fenzit_be.Prelude.{if◌then◌else◌}
use fenzit_be.Prelude.{Bool, refl}
use fenzit_be.Prelude.{
  text_eq_self, arith, ◌∷◌, ltb, ◌∙◌, [], none, ◌+◌, true, ◌<◌, false, exists, some, ◌≡◌, List,
  Text, ℕ,
}
use fenzit_be.Idempotency.{
  window_ms, tenant_of, live_rows, is_entry, is_uuid_v4, scope_of, LogRow, key_of, persist, Moment,
  intercept_keyed, look_up, intercept, KeyedRequest,
}

pub record IsKeyed (request : KeyedRequest) (key tenant_id : Text) : Type 0 where
  pub has_key : key_of request.idempotency_key ≡ some key
  pub is_well_formed : is_uuid_v4 key ≡ true
  pub has_tenant : tenant_of request.user ≡ some tenant_id

intercept-keyed :
    {B S : Type 0} (moment : Moment) (next : S → Result B × S) (request : KeyedRequest)
    (key tenant_id : Text) (log : List (LogRow B)) (s : S)
    → IsKeyed request key tenant_id
    → intercept moment next request log s
      ≡ intercept_keyed moment next key tenant_id (scope_of request) log s
unfolding intercept intercept_keyed
intercept-keyed moment next request key tenant_id log s k =
    rw (intercept, k.has_key, k.is_well_formed, k.has_tenant) refl

no_live_rows :
    {B : Type 0} (now : ℕ) (key tenant_id scope : Text) (log : List (LogRow B))
    → exists (is_entry key tenant_id scope) log ≡ false
    → live_rows now key tenant_id scope log ≡ []
no_live_rows now key tenant_id scope [] h = refl
no_live_rows now key tenant_id scope (row ∷ log) h =
    let rest : exists (is_entry key tenant_id scope) log ≡ false = ground arith in
    let off : is_entry key tenant_id scope row ≡ false = ground arith in
    let empty = no_live_rows now key tenant_id scope log rest in ground arith

look_up-persist :
    {B : Type 0} (first retry : Moment) (key tenant_id scope : Text) (body : B)
    (log : List (LogRow B))
    → first.insert_fails ≡ false
    → retry.lookup_fails ≡ false
    → retry.now < first.inserted_at + window_ms
    → exists (is_entry key tenant_id scope) log ≡ false
    → look_up retry key tenant_id scope (persist first key tenant_id scope body log) ≡ some body
unfolding look_up persist
look_up-persist first retry key tenant_id scope body log kept looked soon fresh =
    let inside : ltb retry.now (first.inserted_at + window_ms) ≡ true = ground arith in
    rw
      (
        kept,
        fresh,
        looked,
        text_eq_self key,
        text_eq_self tenant_id,
        text_eq_self scope,
        inside,
        no_live_rows retry.now key tenant_id scope log fresh,
      )
      refl

if_same : {A : Type 0} (b : Bool) (a : A) → (if b then a else a) ≡ a
if_same true a = refl
if_same false a = refl

look_up-fresh :
    {B : Type 0} (moment : Moment) (key tenant_id scope : Text) (log : List (LogRow B))
    → exists (is_entry key tenant_id scope) log ≡ false
    → look_up moment key tenant_id scope log ≡ none
unfolding look_up
look_up-fresh moment key tenant_id scope log fresh =
    rw (no_live_rows moment.now key tenant_id scope log fresh) (if_same moment.lookup_fails none)

-- A request whose key is new to its company and path runs its handler; once that has returned and its
-- body is in the log, a request with the same key, company and path within 24 hours is answered with the
-- same body, whatever its handler would do, and changes neither the log nor the state of the handlers.
pub intercept-retried :
    {B S : Type 0} (first retry : Moment) (next next' : S → Result B × S)
    (request again : KeyedRequest) (key tenant_id : Text) (log : List (LogRow B)) (s s' : S)
    (body : B)
    → IsKeyed request key tenant_id
    → IsKeyed again key tenant_id
    → scope_of again ≡ scope_of request
    → exists (is_entry key tenant_id (scope_of request)) log ≡ false
    → next s ≡ (returned body, s')
    → first.insert_fails ≡ false
    → retry.lookup_fails ≡ false
    → retry.now < first.inserted_at + window_ms
    → (intercept first next request log s
        ≡ (returned body, (persist first key tenant_id (scope_of request) body log, s')))
      × (intercept retry next' again (persist first key tenant_id (scope_of request) body log) s'
          ≡ (returned body, (persist first key tenant_id (scope_of request) body log, s')))
unfolding intercept_keyed
intercept-retried first retry next next' request again key tenant_id log s s' body k k' same fresh
      ran kept looked soon =
    let scope = scope_of request in
    let log' = persist first key tenant_id scope body log in
    let hit = look_up-persist first retry key tenant_id scope body log kept looked soon fresh in
    (
      intercept-keyed first next request key tenant_id log s k
          ∙ rw (intercept_keyed, look_up-fresh first key tenant_id scope log fresh, ran) refl,
      intercept-keyed retry next' again key tenant_id log' s' k'
          ∙ rw (same, intercept_keyed, hit) refl,
    )

-- A handler that throws leaves the log as it was, so that a retry runs the handler again.
intercept-thrown :
    {B S : Type 0} (moment : Moment) (next : S → Result B × S) (request : KeyedRequest)
    (key tenant_id : Text) (log : List (LogRow B)) (s s' : S) (e : HttpException)
    → IsKeyed request key tenant_id
    → exists (is_entry key tenant_id (scope_of request)) log ≡ false
    → next s ≡ (thrown e, s')
    → intercept moment next request log s ≡ (thrown e, (log, s'))
unfolding intercept_keyed
intercept-thrown moment next request key tenant_id log s s' e k fresh ran =
    intercept-keyed moment next request key tenant_id log s k
    ∙ rw (intercept_keyed, look_up-fresh moment key tenant_id (scope_of request) log fresh, ran)
        refl
