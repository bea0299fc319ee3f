-- ===== src/Tests/Samples.antt =====
-- Sample data: an environment, a session of one customer with four proposals, and its tables.
use jb_wm_backend.Base.{
  String, false, Option, none, some, List, [], ◌∷◌, ◌==◌, leb, if◌then◌else◌, ◌+◌,
}
use jb_wm_backend.Integers.{pos}
use jb_wm_backend.Json.{Json, Float, null, str, obj, field, end, dict}
use jb_wm_backend.Planning.{NeedLevel, PrimaryNeed, NeedAssessment, Plan}
use jb_wm_backend.Models.{
  AgentSession, ActionProposal, ProposalStatus, user_approval, DataSnapshot, SignalEnvelope,
  detector, Severity,
}
use jb_wm_backend.Database.{Db, empty_db, World}
use jb_wm_backend.Environment.{Env, Numbers, AppEnv, mock_apply, codex_cli, failed, wrote}
use jb_wm_backend.Tokens.Jwt.{payload}
use jb_wm_backend.Workflow.{GraphState, Decision}

abbrev sample_sum : List Float → Float
sample_sum [] = record { bits = 0 }
sample_sum (x ∷ xs) = record { bits = x.bits + (sample_sum xs).bits }

abbrev pub numbers : Numbers
numbers = record {
  hundredths = λ n. record { bits = n };
  nonzero = λ x. leb 1 x.bits;
  to_float = λ v. some (record { bits = 0 });
  to_int = λ v. some (pos 0);
  to_text = λ v. "";
  ge = λ x y. leb y.bits x.bits;
  sub = λ x y. x;
  mul = λ x y. x;
  sum = sample_sum;
  of_int = λ n. record { bits = 0 };
  trunc = λ x. pos x.bits;
  round = λ x. pos x.bits;
  with_commas = λ n. "";
  max = λ x y. x;
  div = λ x n. x;
  dec_of = λ n. record { repr = n };
  dec_of_float = λ x. record { repr = x.bits };
  dec_add = λ x y. x;
  dec_mul = λ x y. x;
  dec_div = λ x n. x;
  float_of_dec = λ x. record { bits = x.repr };
  int_of_dec = λ x. pos x.repr;
  ratio = λ x y. x;
  plus = λ a b. none;
  dec_positive = λ x. leb 1 x.repr;
}

abbrev pub assessment : NeedAssessment
assessment = record {
  medical_cost_need = NeedLevel.no_need;
  insurance_need = NeedLevel.mid;
  cashflow_need = NeedLevel.no_need;
  asset_defense_need = NeedLevel.no_need;
  investment_adjust_need = NeedLevel.no_need;
  life_plan_need = NeedLevel.no_need;
  primary_need = PrimaryNeed.insurance;
  confidence = record { bits = 70 };
  rationale = "gap";
  preference_update_only = false;
  is_no_action = false;
  clarifying_question = none;
}

abbrev pub plan : Plan
plan = record { strategy = none; proposals = []; explanation = "review"; assessment = none }

-- The output of a worker with a message, and its text, which is the message alone.
abbrev sample_json : String → Json
sample_json text = obj (dict (("assessment", null) ∷ ("plan", null) ∷ ("message", str text) ∷ []))

abbrev sample_text : Json → String
sample_text (obj (field _ _ (field _ _ (field _ (str s) _)))) = s
sample_text _ = ""

-- An environment whose worker answers a portfolio loss with an output that names a customer, any
-- other signal but "none" with a clean output, and "none" with nothing.
abbrev pub environment : Env
environment = record {
  settings = record {
    app_env = AppEnv.local;
    action_execution_mode = mock_apply;
    agent_job_mode = codex_cli;
    privacy_sensitive_retention_days = 30;
    jwt_secret = "key";
    codex_command = "codex";
    agent_job_codex_model = "gpt-5.4-mini";
    agent_job_codex_reasoning_effort = "low";
    agent_job_output_max_bytes = 200000;
  };
  numbers = numbers;
  new_uuid = λ n. "uuid";
  utcnow = λ n. n;
  today = λ n. 100;
  isoformat = λ n. "";
  date_isoformat = λ n. "";
  unix_time = λ n. n;
  token_urlsafe = λ n. "salt";
  hmac_sha256 = λ key message. 1 ∷ 2 ∷ [];
  pbkdf2_hmac = λ password salt n. some (if password == "pw" then 7 ∷ [] else 8 ∷ []);
  json_bytes = λ fs. 3 ∷ 4 ∷ 5 ∷ 6 ∷ [];
  json_loads = λ bytes. some (obj (payload "u1" "customer" (some "c1") (pos 0) (pos 3600)));
  sha256_texts = λ fs. "hash";
  sha256_json = λ fs. "hash";
  environ = ("PATH", "/bin") ∷ ("JWT_SECRET", "key") ∷ [];
  spawn = λ cmd vars text. if text == "none" then failed else wrote 100 (some text);
  context_text = λ s c. s.kind;
  json_of_text = λ text. some (sample_json text);
  json_text = sample_text;
  validate_assessment = λ v. some assessment;
  validate_plan = λ v. some plan;
  conversion_error = λ s c. "ValueError";
  job_path = λ id file. file;
  lower = λ s. s;
  collation = λ s. 0;
}

abbrev pub proposal : String → String → ProposalStatus → ActionProposal
proposal id kind status = record {
  id = id;
  session_id = "s1";
  kind = kind;
  summary = "";
  has_external_effect = false;
  params = end;
  rationale = "";
  status = status;
  created_at = 1;
}

abbrev pub session : AgentSession
session = record {
  id = "s1";
  customer_id = "c1";
  state = user_approval;
  active_needs = none;
  pending_proposal_id = some "p1";
  recent_context = none;
  failure_reason = none;
  created_at = 0;
  updated_at = 0;
}

-- The tables of one session with the given proposals.
abbrev pub tables : List ActionProposal → Db
tables ps = record empty_db { sessions = session ∷ []; proposals = ps }

abbrev pub world : List ActionProposal → World
world ps = record { committed = tables ps; working = tables ps; ticks = 0 }

abbrev pub state : Option Decision → GraphState
state decision = record {
  scope =
      ("tenant_id", "default")
      ∷ ("customer_id", "c1")
      ∷ ("agent_session_id", "s1")
      ∷ ("graph_thread_id", "t1")
      ∷ [];
  source = "user_utterance";
  payload = end;
  data_snapshot_id = none;
  context_hash = none;
  signal = none;
  assessment = none;
  plan = none;
  agent_job_id = none;
  agent_message = none;
  proposal_ids = [];
  pending_proposal_id = some "p1";
  approval_decision = decision;
  execution_results = [];
  stage = "ApprovalInterrupt";
}

abbrev pub decision : String → Decision
decision action = record { decision = action; proposal_id = "p1"; note = "" }

abbrev pub snapshot : DataSnapshot
snapshot = record {
  id = "d1";
  graph_thread_id = "t1";
  customer_id = "c1";
  context = end;
  context_hash = "hash";
  redaction_version = "v1";
  created_at = 0;
}

abbrev pub signal : String → SignalEnvelope
signal kind = record {
  source = detector;
  kind = kind;
  severity = Severity.mid;
  payload = end;
  rationale = "";
}
