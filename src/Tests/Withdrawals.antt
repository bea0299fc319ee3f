-- ===== src/Tests/Withdrawals.antt =====
-- The theorems on the withdrawal of a consent and the purge at concrete inputs.
use jb_wm_backend.Base.{ℕ, String, ◌≡◌, refl, none, some, [], ◌∷◌, Option}
use jb_wm_backend.Json.{end}
use jb_wm_backend.Models.{HealthRecord, AgentMessage}
use jb_wm_backend.Database.{Db, World, Result, ok, empty_db}
use jb_wm_backend.Privacy.{Revocation, revoke_consent, purge_expired_sensitive_messages}
use jb_wm_backend.Privacy.Laws.{
  IsRevoked, IsPurged, revoke_consent-IsRevoked, purge_expired_sensitive_messages-IsPurged,
}
use jb_wm_backend.Tests.Samples.{environment}

abbrev health_record : String → Option String → HealthRecord
health_record id consent = record {
  id = id;
  customer_id = "c1";
  source = "mock";
  metric = "steps";
  value = end;
  measured_at = 0;
  consent_id = consent;
}

abbrev message : String → ℕ → AgentMessage
message id at = record {
  id = id;
  session_id = "s1";
  role = "user";
  content = "";
  meta = end;
  created_at = at;
}

abbrev consented : Db
consented = record empty_db {
  consents =
      record {
        id = "k1";
        customer_id = "c1";
        scope = "health";
        status = "granted";
        granted_at = 0;
        revoked_at = none;
      }
      ∷ [];
  health_records =
      health_record "h1" (some "k1")
      ∷ health_record "h2" none
      ∷ health_record "h3" (some "k2")
      ∷ [];
  messages = message "m1" 5 ∷ message "m2" 86400000009 ∷ [];
}

abbrev before : World
before = record { committed = consented; working = consented; ticks = 0 }

abbrev revocation : Result Revocation × World
revocation = revoke_consent environment "c1" "k1" before

abbrev revoked : Revocation
revoked = record {
  consent_id = "k1";
  status = "revoked";
  health_records = 1;
  medical_documents = 0;
}

revocation_returns : revocation ≡ (ok revoked, revocation.1)
unfolding revoke_consent
revocation_returns = refl

revoke_consent-IsRevoked_example : IsRevoked "c1" "k1" before revoked revocation.1
revoke_consent-IsRevoked_example =
    revoke_consent-IsRevoked environment "c1" "k1" before revocation.1 revoked revocation_returns

abbrev purge : Result (ℕ × ℕ) × World
purge = purge_expired_sensitive_messages environment (some 86400000010) (some 1) before

purge_returns : purge ≡ (ok (1, 10), purge.1)
unfolding purge_expired_sensitive_messages
purge_returns = refl

purge_expired_sensitive_messages-IsPurged_example :
    IsPurged environment (some 86400000010) (some 1) before 1 10 purge.1
purge_expired_sensitive_messages-IsPurged_example =
    purge_expired_sensitive_messages-IsPurged environment (some 86400000010) (some 1) before purge.1
      1 10 purge_returns
