-- ===== src/Workflow/Reuse.antt =====
-- app/workflows/service.py, `_pick_reusable_thread`: which thread of a customer is used again.
use jb_wm_backend.Base.{
  arith, ◌≡◌, refl, ◌⊎◌, inl, inr, Bool, true, false, Option, none, some, List, [], ◌∷◌, any,
  Bool-cases,
}
use jb_wm_backend.Models.{AgentThread}
use jb_wm_backend.Database.{Db}
use jb_wm_backend.Database.Rows.{get_row}
use jb_wm_backend.Executor.{session_id}
use jb_wm_backend.Workflow.Service.{waits, first_waiting, pick_reusable_thread}

-- The session of the thread waits for an approval.
abbrev pub is_waiting : Db → AgentThread → Bool
is_waiting db t = waits (get_row session_id t.agent_session_id db.sessions)

first_waiting_found :
    (db : Db) (threads : List AgentThread) (other : Option AgentThread)
    → any (is_waiting db) threads ≡ true
    → (t : AgentThread) × (first_waiting db threads other ≡ some t) × (is_waiting db t ≡ true)
unfolding first_waiting
first_waiting_found db [] other found = absurd (ground arith)
first_waiting_found db (x ∷ threads) other found = elim (Bool-cases (is_waiting db x)) [
  | inl here ↦ (x, ground arith, here)
  | inr idle ↦
      let (t, picked, waiting) = first_waiting_found db threads other (ground arith) in
      (t, ground arith, waiting)
]

first_waiting_other :
    (db : Db) (threads : List AgentThread) (other : Option AgentThread)
    → any (is_waiting db) threads ≡ false
    → first_waiting db threads other ≡ other
unfolding first_waiting
first_waiting_other db [] other nobody = refl
first_waiting_other db (x ∷ threads) other nobody =
    ground (arith, first_waiting_other db threads other)

first_picked :
    (db : Db) (threads : List AgentThread)
    → any (is_waiting db) threads ≡ false
    → ((threads ≡ []) × (pick_reusable_thread db threads ≡ none))
      ⊎ ((t : AgentThread) × (ts : List AgentThread) × (threads ≡ t ∷ ts)
          × (pick_reusable_thread db threads ≡ some t))
unfolding pick_reusable_thread
first_picked db [] nobody = inl (refl, first_waiting_other db [] none nobody)
first_picked db (t ∷ ts) nobody = inr (t, ts, refl, first_waiting_other db (t ∷ ts) (some t) nobody)

-- Which thread is picked: one whose session waits if there is any, and else the first of the list.
abbrev pub IsPicked : Db → List AgentThread → Option AgentThread → Type 0
IsPicked db threads picked =
    ((t : AgentThread) × (any (is_waiting db) threads ≡ true)
      × (picked ≡ some t)
      × (is_waiting db t ≡ true))
    ⊎ ((any (is_waiting db) threads ≡ false)
        × (((threads ≡ []) × (picked ≡ none))
            ⊎ ((t : AgentThread) × (ts : List AgentThread) × (threads ≡ t ∷ ts)
                × (picked ≡ some t))))

-- From any list of threads, a thread whose session waits for an approval is picked if there is one, and
-- the first thread of the list, if any, otherwise.
pub pick_reusable_thread-IsPicked :
    (db : Db) (threads : List AgentThread) → IsPicked db threads (pick_reusable_thread db threads)
unfolding pick_reusable_thread
pick_reusable_thread-IsPicked db threads = elim (Bool-cases (any (is_waiting db) threads)) [
  | inl somebody ↦
      let (t, picked, waiting) = first_waiting_found db threads _ somebody in
      inl (t, somebody, picked, waiting)
  | inr nobody ↦ inr (nobody, first_picked db threads nobody)
]
