-- ===== src/Privacy.antt =====
-- app/privacy/service.py: the withdrawal of a consent and the purge of old messages; and the route
-- app/api/routes/privacy.py. Times count microseconds from the first time that Python has.
pub mod Laws
use jb_wm_backend.Base.{
  ℕ, ◌*◌, ◌-◌, String, Bool, not, ◌&&◌, Option, none, some, List, ◌==◌, if◌then◌else◌, ltb, length,
  where_all, delete_where,
}
use jb_wm_backend.Models.{ConsentRecord, HealthRecord, MedicalDocument, AgentMessage}
use jb_wm_backend.Database.{
  Error, exception, http, Result, ok, err, Exec, pure, raise, raise_if, gets, or_raise, modify,
  commit, tick, ◌>>=◌, ◌>>◌,
}
use jb_wm_backend.Database.Rows.{get_row, save_row}
use jb_wm_backend.Environment.{Env}
use jb_wm_backend.Security.{Principal, equals?, require_customer_access}

abbrev pub consent_key : ConsentRecord → String
consent_key c = c.id

-- The rows that a consent covers, of one customer.
abbrev pub covers_record : String → String → HealthRecord → Bool
covers_record customer_id consent_id r =
    r.customer_id == customer_id && equals? r.consent_id consent_id

abbrev pub covers_document : String → String → MedicalDocument → Bool
covers_document customer_id consent_id r =
    r.customer_id == customer_id && equals? r.consent_id consent_id

-- What `revoke_consent` returns: the numbers of deleted rows stand for the dictionary `deleted`.
pub record Revocation : Type 0 where
  pub consent_id : String
  pub status : String
  pub health_records : ℕ
  pub medical_documents : ℕ

-- `(now or utcnow()) - timedelta(days=days)` without the range check.
abbrev pub span : ℕ → ℕ
span days = days * 86400000000

abbrev pub is_older : ℕ → AgentMessage → Bool
is_older cutoff m = ltb m.created_at cutoff

-- `value if value is not None else default`
abbrev pub or_given : Option ℕ → ℕ → ℕ
or_given none n = n
or_given (some m) n = m

module _ (env : Env) where
  -- `revoke_consent`
  unfoldable pub revoke_consent : String → String → Exec Revocation
  revoke_consent customer_id consent_id = do
    consent ←
        or_raise (← gets (λ db. get_row consent_key consent_id db.consents))
          (exception "ValueError")
    raise_if (not (consent.customer_id == customer_id)) (exception "ValueError")
    records ← gets (λ db. where_all (covers_record customer_id consent_id) db.health_records)
    documents ← gets (λ db. where_all (covers_document customer_id consent_id) db.medical_documents)
    t ← tick
    modify (λ db. record db {
      health_records = delete_where (covers_record customer_id consent_id) db.health_records;
      medical_documents =
          delete_where (covers_document customer_id consent_id) db.medical_documents;
      consents =
          save_row consent_key
            (record consent { status = "revoked"; revoked_at = some (env.utcnow t) }) db.consents;
    })
    commit
    pure (record {
      consent_id = consent_id;
      status = "revoked";
      health_records = length records;
      medical_documents = length documents;
    })

  -- The handler of `ValueError` in the route.
  abbrev pub not_found {ℓ} : {A : Type ℓ} → Result A → Exec A
  not_found (ok a) = pure a
  not_found (err (exception name)) =
      if name == "ValueError" then raise (http 404) else raise (exception name)
  not_found (err e) = raise e

  -- `revoke_customer_consent`
  unfoldable pub revoke_customer_consent : Principal → String → String → Exec Revocation
  revoke_customer_consent principal customer_id consent_id = do
    require_customer_access principal customer_id
    λ w. let (out, w') = revoke_consent customer_id consent_id w in not_found out w'

  -- `now or utcnow()`
  abbrev pub read_now : Option ℕ → Exec ℕ
  read_now none = tick >>= λ t. pure (env.utcnow t)
  read_now (some n) = pure n

  -- `purge_expired_sensitive_messages`: the number of deleted messages, and the cutoff.
  unfoldable pub purge_expired_sensitive_messages : Option ℕ → Option ℕ → Exec (ℕ × ℕ)
  purge_expired_sensitive_messages now retention_days = do
    today ← read_now now
    let days = or_given retention_days env.settings.privacy_sensitive_retention_days
    raise_if (ltb today (span days)) (exception "OverflowError")
    rows ← gets (λ db. where_all (is_older (today - span days)) db.messages)
    modify (λ db. record db { messages = delete_where (is_older (today - span days)) db.messages })
    commit
    pure (length rows, today - span days)
