-- ===== src/Privacy/Laws.antt =====
-- app/privacy/service.py: what a withdrawal and a purge leave.
use jb_wm_backend.Base.{
  arith, ℕ, ◌+◌, ◌-◌, ◌*◌, ◌<◌, String, ◌≡◌, refl, ◌&&◌, true, false, Option, some, none, List,
  length, where_all, delete_where, is_some, Bool-cases, Option-cases, inl, inr, ◌==◌, eq_iff,
  eq_refl, and-eq-true,
}
use jb_wm_backend.Base.Selecting.{Splits, where_all-Splits}
use jb_wm_backend.Security.{equals?}
use jb_wm_backend.Security.Access.{equals?_sound}
use jb_wm_backend.Models.{ConsentRecord, AgentMessage}
use jb_wm_backend.Database.{World, ok}
use jb_wm_backend.Database.Rows.{get_row, save_row, get_row-save_row_self, key-get_row}
use jb_wm_backend.Environment.{Env}
use jb_wm_backend.Privacy.{
  consent_key, covers_record, covers_document, Revocation, span, is_older, or_given, revoke_consent,
  purge_expired_sensitive_messages,
}

-- The rows of a table that meet a condition are deleted, no others, and their number is told.
pub record IsDeletion {A : Type 0} (P : A → Type 0) (rows : List A) (n : ℕ) (rest : List A)
    : Type 0 where
  pub gone : List A
  pub split : Splits P rows gone rest
  pub counted : n ≡ length gone

covers :
    (owner customer_id : String) (consent : Option String) (consent_id : String)
    → (owner == customer_id && equals? consent consent_id) ≡ true
    → (owner ≡ customer_id) × (consent ≡ some consent_id)
covers owner customer_id consent consent_id h =
    let (own, under) = and-eq-true (owner == customer_id) (equals? consent consent_id) h in
    ((eq_iff owner customer_id).0 own, equals?_sound consent consent_id under)

covers-not :
    (owner customer_id : String) (consent : Option String) (consent_id : String)
    → (owner == customer_id && equals? consent consent_id) ≡ false
    → ¬ ((owner ≡ customer_id) × (consent ≡ some consent_id))
covers-not owner customer_id consent consent_id h (own, under) =
    absurd (ground (arith, eq_iff owner customer_id, eq_refl consent_id))

-- What the withdrawal of a consent leaves in the tables, with what it reports.
pub record IsRevoked (customer_id consent_id : String) (w : World) (r : Revocation) (w' : World)
    : Type 0 where
  pub consent : ConsentRecord
  pub stored : get_row consent_key consent_id w'.working.consents ≡ some consent
  pub own : consent.customer_id ≡ customer_id
  pub closed : (consent.status ≡ "revoked") × (is_some consent.revoked_at ≡ true)
  pub records :
      IsDeletion
        (λ h. (h.customer_id ≡ customer_id) × (h.consent_id ≡ some consent_id))
        w.working.health_records
        r.health_records
        w'.working.health_records
  pub documents :
      IsDeletion
        (λ m. (m.customer_id ≡ customer_id) × (m.consent_id ≡ some consent_id))
        w.working.medical_documents
        r.medical_documents
        w'.working.medical_documents
  pub committed : w'.committed ≡ w'.working

-- The value that is given, or else the default.
abbrev pub IsGiven : Option ℕ → ℕ → ℕ → Type 0
IsGiven none default n = n ≡ default
IsGiven (some m) default n = n ≡ m

-- The messages older than the cutoff, which lies the given number of days before the given time,
-- are deleted, no others, and counted.
pub record IsPurged (env : Env) (now days : Option ℕ) (w : World) (n cutoff : ℕ) (w' : World)
    : Type 0 where
  pub today : ℕ
  pub given_now : IsGiven now (env.utcnow w.ticks) today
  pub kept_days : ℕ
  pub given_days : IsGiven days env.settings.privacy_sensitive_retention_days kept_days
  pub cut : cutoff + kept_days * 86400000000 ≡ today
  pub messages :
      IsDeletion
        (λ (m : AgentMessage). m.created_at < cutoff)
        w.working.messages
        n
        w'.working.messages
  pub committed : w'.committed ≡ w'.working

module _ (env : Env) where
  revoked :
      (customer_id consent_id : String) (w w' : World) (r : Revocation) (c : ConsentRecord)
      → get_row consent_key consent_id w.working.consents ≡ some c
      → c.customer_id ≡ customer_id
      → revoke_consent env customer_id consent_id w ≡ (ok r, w')
      → IsRevoked customer_id consent_id w r w'
  unfolding revoke_consent
  revoked customer_id consent_id w w' r c found own run =
      let same : (c.customer_id == customer_id) ≡ true = (eq_iff c.customer_id customer_id).1 own in
      let new : ConsentRecord = record c {
        status = "revoked";
        revoked_at = some (env.utcnow w.ticks);
      } in
      let consents : w'.working.consents ≡ save_row consent_key new w.working.consents =
        ground arith in
      let records : w'.working.health_records
          ≡ delete_where (covers_record customer_id consent_id) w.working.health_records =
        ground arith in
      let documents : w'.working.medical_documents
          ≡ delete_where (covers_document customer_id consent_id) w.working.medical_documents =
        ground arith in
      record {
        consent = new;
        stored = rw consents (
            get_row-save_row_self consent_key consent_id new c w.working.consents
              (key-get_row consent_key consent_id w.working.consents c found) found);
        own = own;
        closed = (refl, refl);
        records = record {
          gone = where_all (covers_record customer_id consent_id) w.working.health_records;
          split = rw records (
              where_all-Splits (covers_record customer_id consent_id)
                (record {
                  yes = λ h. covers h.customer_id customer_id h.consent_id consent_id;
                  no = λ h. covers-not h.customer_id customer_id h.consent_id consent_id;
                })
                w.working.health_records);
          counted = ground arith;
        };
        documents = record {
          gone = where_all (covers_document customer_id consent_id) w.working.medical_documents;
          split = rw documents (
              where_all-Splits (covers_document customer_id consent_id)
                (record {
                  yes = λ m. covers m.customer_id customer_id m.consent_id consent_id;
                  no = λ m. covers-not m.customer_id customer_id m.consent_id consent_id;
                })
                w.working.medical_documents);
          counted = ground arith;
        };
        committed = ground arith;
      }

  -- If a withdrawal returns, the consent is the customer's and stored as revoked with a time, exactly
  -- the customer's health records and medical documents under it are deleted, the others stay in their
  -- order, the reported numbers are those of the deleted rows, and everything is committed.
  pub revoke_consent-IsRevoked :
      (customer_id consent_id : String) (w w' : World) (r : Revocation)
      → revoke_consent env customer_id consent_id w ≡ (ok r, w')
      → IsRevoked customer_id consent_id w r w'
  unfolding revoke_consent
  revoke_consent-IsRevoked customer_id consent_id w w' r run =
      elim (Option-cases (get_row consent_key consent_id w.working.consents)) [
        | inl missing ↦ absurd (ground arith)
        | inr (c, found) ↦ elim (Bool-cases (c.customer_id == customer_id)) [
          | inr other ↦ absurd (ground arith)
          | inl same ↦
              revoked customer_id consent_id w w' r c found
                ((eq_iff c.customer_id customer_id).0 same) run
        ]
      ]

  older_rows :
      (cutoff : ℕ) (xs : List AgentMessage)
      → IsDeletion
          (λ (m : AgentMessage). m.created_at < cutoff)
          xs
          (length (where_all (is_older cutoff) xs))
          (delete_where (is_older cutoff) xs)
  older_rows cutoff xs = record {
    gone = where_all (is_older cutoff) xs;
    split =
        where_all-Splits (is_older cutoff)
          (record { yes = λ m h. ground arith; no = λ m h older. absurd (ground arith) }) xs;
    counted = refl;
  }

  purged :
      (now days : Option ℕ) (today kept : ℕ) (w w' : World) (n cutoff : ℕ)
      → IsGiven now (env.utcnow w.ticks) today
      → IsGiven days env.settings.privacy_sensitive_retention_days kept
      → purge_expired_sensitive_messages env now days w ≡ (ok (n, cutoff), w')
      → (cutoff + kept * 86400000000 ≡ today)
        × (w'.working.messages ≡ delete_where (is_older cutoff) w.working.messages)
        × (n ≡ length (where_all (is_older cutoff) w.working.messages))
        × (w'.committed ≡ w'.working)
  unfolding purge_expired_sensitive_messages
  purged none none today kept w w' n cutoff at since run =
      let same : cutoff ≡ today - span kept = ground arith in
      (ground arith, rw same (ground arith), rw same (ground arith), ground arith)
  purged none (some d) today kept w w' n cutoff at since run =
      let same : cutoff ≡ today - span kept = ground arith in
      (ground arith, rw same (ground arith), rw same (ground arith), ground arith)
  purged (some t) none today kept w w' n cutoff at since run =
      let same : cutoff ≡ today - span kept = ground arith in
      (ground arith, rw same (ground arith), rw same (ground arith), ground arith)
  purged (some t) (some d) today kept w w' n cutoff at since run =
      let same : cutoff ≡ today - span kept = ground arith in
      (ground arith, rw same (ground arith), rw same (ground arith), ground arith)

  given : (o : Option ℕ) (d : ℕ) → IsGiven o d (or_given o d)
  given none d = refl
  given (some m) d = refl

  -- If a purge returns, the cutoff lies the given or configured number of days before the given time
  -- or the clock's, exactly the messages older than it are deleted, the others stay in their order,
  -- the reported number is that of the deleted ones, and everything is committed.
  pub purge_expired_sensitive_messages-IsPurged :
      (now days : Option ℕ) (w w' : World) (n cutoff : ℕ)
      → purge_expired_sensitive_messages env now days w ≡ (ok (n, cutoff), w')
      → IsPurged env now days w n cutoff w'
  purge_expired_sensitive_messages-IsPurged now days w w' n cutoff run =
      let at = given now (env.utcnow w.ticks) in
      let since = given days env.settings.privacy_sensitive_retention_days in
      let (cut, rest, counted, committed) = purged now days _ _ w w' n cutoff at since run in
      record {
        today = or_given now (env.utcnow w.ticks);
        given_now = at;
        kept_days = or_given days env.settings.privacy_sensitive_retention_days;
        given_days = since;
        cut = cut;
        messages = rw (rest, counted) (older_rows cutoff w.working.messages);
        committed = committed;
      }
