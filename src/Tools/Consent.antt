-- ===== src/Tools/Consent.antt =====
-- app/tools/data_tools.py: health data without a consent, and the window of the transactions.
use mathlib.Core.List.{Perm}
use jb_wm_backend.Base.{
  ℕ, ◌≤◌, String, arith, ◌≡◌, refl, Bool, true, ◌&&◌, some, List, ◌==◌, eq_iff, leb, newest_first,
  take, truthy?, and-eq-true, where_all, delete_where, false,
}
use jb_wm_backend.Base.Sorting.{
  IsDescending, newest_first-IsDescending, where_all-IsDescending, where_all_absorbs,
}
use jb_wm_backend.Base.Selecting.{
  Splits, Decides, where_all-Splits, where_all-where_all, where_all-newest_first,
}
use jb_wm_backend.Json.{Fields, arr, get}
use jb_wm_backend.Models.{HealthRecord, MedicalDocument, AccountTransaction}
use jb_wm_backend.Database.{Db, World, ok}
use jb_wm_backend.Environment.{Env}
use jb_wm_backend.Tools.People.{objects, consented_records, consented_documents, get_health_data}
use jb_wm_backend.Tools.Money.{
  day_of, transactions_of, rows_between, transaction_dict, transactions_dict,
  get_account_transactions,
}

-- The tables without the health records and medical documents that name no consent.
abbrev pub without_unconsented : Db → Db
without_unconsented db = record db {
  health_records = consented_records db.health_records;
  medical_documents = consented_documents db.medical_documents;
}

-- A transaction of the customer on a day of the window.
abbrev pub IsWithin : String → ℕ → ℕ → AccountTransaction → Type 0
IsWithin c from_date to_date r =
    (r.customer_id ≡ c) × (from_date ≤ day_of r.transacted_at) × (day_of r.transacted_at ≤ to_date)

-- The transactions that a context shows: of a table, exactly the customer's own from the window, the
-- newest first, cut after thirty.
pub record IsWindow (c : String) (from_date to_date : ℕ) (table rows : List AccountTransaction)
    : Type 0 where
  pub chosen : List AccountTransaction
  pub others : List AccountTransaction
  pub split : Splits (IsWithin c from_date to_date) table chosen others
  pub sorted : List AccountTransaction
  pub same_rows : Perm chosen sorted
  pub newest : IsDescending (λ (r : AccountTransaction). r.transacted_at) sorted
  pub shown : rows ≡ take 30 sorted

module _ (env : Env) where
  -- Health records and medical documents that name no consent have no influence on the health data
  -- of any customer.
  pub get_health_data-unconsented :
      (c : String) (db : Db)
      → get_health_data env c (without_unconsented db) ≡ get_health_data env c db
  unfolding get_health_data
  get_health_data-unconsented c db =
      rw
        (
          where_all_absorbs (λ (r : HealthRecord). r.customer_id == c) (λ r. truthy? r.consent_id)
              db.health_records,
          where_all_absorbs (λ (r : MedicalDocument). r.customer_id == c)
              (λ r. truthy? r.consent_id) db.medical_documents,
        )
        refl

within_sound :
    (c : String) (from_date to_date : ℕ) (r : AccountTransaction)
    → ((r.customer_id == c)
        && (leb from_date (day_of r.transacted_at) && leb (day_of r.transacted_at) to_date))
      ≡ true
    → IsWithin c from_date to_date r
within_sound c from_date to_date r h =
    let (own, inside) =
      and-eq-true (r.customer_id == c)
        (leb from_date (day_of r.transacted_at) && leb (day_of r.transacted_at) to_date) h in
    let (low, high) =
      and-eq-true (leb from_date (day_of r.transacted_at)) (leb (day_of r.transacted_at) to_date)
        inside in
    ((eq_iff r.customer_id c).0 own, ground arith, ground arith)

outside :
    (c : String) (from_date to_date : ℕ) (r : AccountTransaction)
    → ((r.customer_id == c)
        && (leb from_date (day_of r.transacted_at) && leb (day_of r.transacted_at) to_date))
      ≡ false
    → ¬ IsWithin c from_date to_date r
outside c from_date to_date r h (own, low, high) = absurd (ground (arith, eq_iff r.customer_id c))

window_Decides :
    (c : String) (from_date to_date : ℕ)
    → Decides (IsWithin c from_date to_date) (λ (r : AccountTransaction).
      (r.customer_id == c)
      && (leb from_date (day_of r.transacted_at) && leb (day_of r.transacted_at) to_date))
window_Decides c from_date to_date = record {
  yes = λ r h. within_sound c from_date to_date r h;
  no = λ r h. outside c from_date to_date r h;
}

shown-IsWindow :
    (c : String) (from_date to_date : ℕ) (db : Db)
    → IsWindow c from_date to_date db.transactions (take 30 (rows_between from_date to_date c db))
shown-IsWindow c from_date to_date db =
    let key : AccountTransaction → ℕ = λ r. r.transacted_at in
    let own : AccountTransaction → Bool = λ r. r.customer_id == c in
    let within : AccountTransaction → Bool =
      λ r. leb from_date (day_of r.transacted_at) && leb (day_of r.transacted_at) to_date in
    record {
      chosen = where_all (λ r. own r && within r) db.transactions;
      others = delete_where (λ r. own r && within r) db.transactions;
      split =
          where_all-Splits (λ r. own r && within r) (window_Decides c from_date to_date)
            db.transactions;
      sorted = rows_between from_date to_date c db;
      same_rows =
          rw (← (where_all-where_all own within db.transactions))
            (where_all-newest_first within key (transactions_of c db));
      newest =
          where_all-IsDescending key within (newest_first key (transactions_of c db))
            (newest_first-IsDescending key (transactions_of c db));
      shown = refl;
    }

-- A read of the transactions between two days returns. It shows of the table exactly the customer's
-- own rows from the window with both its ends, the newest first, and the first thirty of them if
-- there are more.
pub get_account_transactions-IsWindow :
    (env : Env) (c : String) (from_date to_date : ℕ) (w : World)
    → (fs : Fields) × (rows : List AccountTransaction) × ((get_account_transactions env c
          (some from_date)
          (some to_date)
          w).0
        ≡ ok fs)
      × (get "transactions" fs ≡ some (arr (objects (transaction_dict env) rows)))
      × IsWindow c from_date to_date w.working.transactions rows
unfolding get_account_transactions transactions_dict get
get_account_transactions-IsWindow env c from_date to_date w = (
  transactions_dict env c (rows_between from_date to_date c w.working) w.working,
  take 30 (rows_between from_date to_date c w.working),
  refl,
  refl,
  shown-IsWindow c from_date to_date w.working,
)
