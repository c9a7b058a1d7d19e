-- ===== src/Examples/ScheduledJobs.antt =====
-- The theorems on scheduled jobs at concrete jobs, runs and stores.
use nesy_reasoning_mcp.Prelude.{
  ℕ, Bool-cases, inl, inr, ◌==◌, same→eq, zero, suc, ◌-◌, ap, ◌≡◌, refl, true, false, String, some,
  none, List, [], ◌∷◌, arith, text_key,
}
use mathlib.Core.List.Memᴰ
use nesy_reasoning_mcp.Schemas.{Fields, field, end, text}
use nesy_reasoning_mcp.AutoIngest.Decisions.{VotingPolicy}
use nesy_reasoning_mcp.Scheduler.Errors.{ok}
use nesy_reasoning_mcp.Scheduler.Schemas.{
  Job, Run, State, ScheduledJobStatus, RunTrigger, SourceConfig, validate_source_config,
  strip_texts, strip_lists, require_source,
}
use nesy_reasoning_mcp.Scheduler.Schemas.Validated.{HasSource, validate_source_config_again}
use nesy_reasoning_mcp.Scheduler.States.{
  Clock, job_due, next_state_for_failure, scheduled_reviewer_count, scheduled_write_diagnostics,
}
use nesy_reasoning_mcp.Scheduler.States.Retries.{
  fail_all, fail_all_budget, with_next, IsClock, AllRetried,
}
use nesy_reasoning_mcp.Scheduler.Runner.{
  World, Readings, Begun, ended, claimed, begin_run, take_claim, cancelled, new_run,
}
use nesy_reasoning_mcp.Scheduler.Runner.Settles.{Settled, end_run_settles}
use nesy_reasoning_mcp.Scheduler.Runner.Exclusive.{Exclusive}
use nesy_reasoning_mcp.Scheduler.Runner.Workers.{
  Steps, claims, none_yet, then_step, Steps-Exclusive,
}
use nesy_reasoning_mcp.Storage.Schedules.{
  update_scheduled_ingestion_job_state, get_scheduled_ingestion_job,
}
use nesy_reasoning_mcp.Storage.Schedules.Refines.{
  JobCall, upsert, update, run_calls, replay, get-run_calls,
}
use nesy_reasoning_mcp.Storage.Audit.{AuditEntry, audit_from_dict, to_dict, audit_from_dict-to_dict}
use nesy_reasoning_mcp.Text.{strip}

abbrev source : SourceConfig
source = record {
  input_path = some " notes.md ";
  urls = [];
  retrieval_input_path = none;
  task = none;
  question = none;
  timeout_seconds = 10000;
  max_url_bytes = 1000000;
  search_queries = [];
  search_provider = "brave";
  search_limit = 5;
  search_timeout_seconds = 10000;
  search_include_domains = [];
  search_exclude_domains = [];
  search_api_key_env = "BRAVE_API_KEY";
  crawl = false;
  crawl_max_depth = 1;
  crawl_max_pages = 5;
  crawl_max_page_bytes = 1000;
  crawl_max_total_bytes = 5000;
  crawl_timeout_seconds = 10000;
  crawl_allow_domains = [];
}

abbrev stripped_source : SourceConfig
stripped_source = record source { input_path = some "notes.md" }

validate_source : validate_source_config source ≡ some stripped_source
unfolding validate_source_config strip_texts strip_lists require_source strip
validate_source = refl

validate_source_config_again_example :
    HasSource stripped_source × (validate_source_config stripped_source ≡ some stripped_source)
validate_source_config_again_example =
    validate_source_config_again source stripped_source validate_source

abbrev nightly : Job
nightly = record {
  id = "sched_1";
  name = "nightly";
  status = ScheduledJobStatus.active;
  cron = "0 2 * * *";
  timezone = "UTC";
  source_config = stripped_source;
  provider_config = record {
    model = none;
    provider = none;
    base_url = none;
    api_key_env = none;
    provider_headers = [];
    provider_thinking = none;
    provider_reasoning_effort = none;
    disable_tracing = false;
    reviewer_models = "a" ∷ "b" ∷ "a" ∷ [];
    reviewers = [];
    voting_policy = VotingPolicy.risk_tiered;
    high_priority_reviewer_models = [];
    high_priority_reviewers = [];
  };
  runtime_config = record {
    extractor_timeout_seconds = 180000;
    high_priority_reviewer_timeout_seconds = 180000;
    reviewer_timeout_seconds = 120000;
    extractor_max_tokens = 4096;
    reviewer_max_tokens = 2048;
    progress = "auto";
  };
  write_config = record {
    auto_write = true;
    allow_scheduled_writes = true;
    allow_single_reviewer_write = false;
    min_write_confidence = 850;
    report_dir = none;
  };
  retry_policy = record { max_retries = 2; retry_backoff_seconds = 300 };
  state = record {
    last_run_at = none;
    next_run_at = some "2026-01-01T02:00:00+00:00";
    last_status = none;
    retry_count = 0;
    current_run_id = none;
    last_run_id = none;
    last_report_run_id = none;
    last_report_path = none;
    diagnostics = [];
  };
  created_at = "2025-12-31T00:00:00+00:00";
  updated_at = "2025-12-31T00:00:00+00:00";
}

abbrev clock : Clock
clock = record {
  known = λ zone. true;
  wall = λ zone instant. record { year = 2026; month = 1; day = 1; hour = 2; minute = 0 };
  utc_iso = λ zone t. "2026-01-02T02:00:00+00:00";
  parse_iso = λ s. 0;
  iso = λ instant. "2026-01-01T02:05:00+00:00";
}

abbrev readings : Readings
readings = record {
  run_id = "srun_1";
  started_at = "2026-01-01T02:00:00+00:00";
  finished_at = "2026-01-01T02:04:00+00:00";
  stored_at = "2026-01-01T02:04:00+00:00";
  audit_id = "audit_1";
  audit_at = "2026-01-01T02:04:00+00:00";
}

abbrev a_run : Run
a_run = new_run readings nightly RunTrigger.due

-- A clock whose texts have as many strokes as the instant has microseconds.
abbrev strokes : ℕ → String
strokes zero = String.[]
strokes (suc n) = String.◌∷◌ "x" (strokes n)

abbrev count_strokes : String → ℕ
count_strokes String.[] = 0
count_strokes (String.◌∷◌ c s) = suc (count_strokes s)

count_strokes-strokes : (n : ℕ) → count_strokes (strokes n) ≡ n
count_strokes-strokes zero = refl
count_strokes-strokes (suc n) = ap suc (count_strokes-strokes n)

abbrev stroke_clock : Clock
stroke_clock = record clock {
  parse_iso = λ s. count_strokes s - 1;
  iso = λ t. String.◌∷◌ "t" (strokes t);
}

stroke_clock-IsClock : IsClock stroke_clock
stroke_clock-IsClock = record {
  parse_iso-iso = λ t. omega (arith, count_strokes-strokes t);
  given = λ t. elim (Bool-cases (String.◌∷◌ "t" (strokes t) == "")) [
    | inl e ↦
        let same = ap count_strokes (same→eq (String.◌∷◌ "t" (strokes t)) "" e) in
        absurd (omega (arith, same))
    | inr e ↦ e
  ];
}

fail_all_budget_example :
    (later : Job) × (fail_all stroke_clock "now" (a_run ∷ a_run ∷ []) nightly ≡ ok later)
    × AllRetried stroke_clock "now" (a_run ∷ a_run ∷ []) nightly later
    × (later.status ≡ ScheduledJobStatus.active)
    × (later.state.retry_count ≡ 2)
    × ((next : ScheduledJobStatus × State)
        → next_state_for_failure stroke_clock later a_run none "now" ≡ ok next
        → (next.0 ≡ ScheduledJobStatus.failed)
          × ((now : ℕ) → job_due stroke_clock (with_next later next) now ≡ false))
fail_all_budget_example =
    fail_all_budget stroke_clock "now" stroke_clock-IsClock (a_run ∷ a_run ∷ []) a_run nightly refl
      (omega arith)

abbrev store : World
store = record {
  schedules = record { jobs = nightly ∷ []; runs = [] };
  audit_log = [];
  audited = true;
}

abbrev hash : Fields → String
hash arguments = "hash"

abbrev world_after : Begun → World
world_after (ended w e) = w
world_after (claimed run w) = w

abbrev claimed_store : World
claimed_store = world_after (begin_run clock hash readings nightly RunTrigger.due store)

begins_claimed :
    begin_run clock hash readings nightly RunTrigger.due store ≡ claimed a_run claimed_store
unfolding begin_run take_claim scheduled_write_diagnostics scheduled_reviewer_count
    update_scheduled_ingestion_job_state
begins_claimed = refl

one_step : Steps clock hash [] store ((nightly, a_run) ∷ []) claimed_store
one_step = then_step none_yet (
    claims [] store claimed_store readings nightly RunTrigger.due a_run
      (nightly, refl, (refl, refl)) begins_claimed)

Steps-Exclusive_example : Exclusive ((nightly, a_run) ∷ []) claimed_store.schedules.jobs
Steps-Exclusive_example = Steps-Exclusive clock hash ((Memᴰ.not-nil, tt), tt, tt) one_step

end_run_settles_example : Settled clock hash readings nightly a_run cancelled store nightly
end_run_settles_example =
    end_run_settles clock hash readings nightly a_run cancelled store nightly refl

abbrev calls : List JobCall
calls =
    upsert "t1" nightly
    ∷ update "t2" "sched_1" nightly.state (some ScheduledJobStatus.running)
        (some ScheduledJobStatus.active)
    ∷ update "t3" "sched_1" nightly.state (some ScheduledJobStatus.running)
        (some ScheduledJobStatus.active)
    ∷ []

get-run_calls_example :
    get_scheduled_ingestion_job "sched_1" (run_calls calls store.schedules)
    ≡ replay calls (λ other. get_scheduled_ingestion_job other store.schedules) "sched_1"
get-run_calls_example = get-run_calls calls store.schedules "sched_1"

abbrev entry : AuditEntry
entry = record {
  id = "audit_1";
  event_type = "scheduled_ingestion";
  tool_name = "auto_ingest.schedule.run";
  input_hash = "hash";
  result_status = "skipped";
  created_at = "2026-01-01T02:04:00+00:00";
  metadata = field "job_id" (text "sched_1") end;
}

audit_from_dict-to_dict_example : audit_from_dict "fresh" "now" (to_dict entry) ≡ some entry
audit_from_dict-to_dict_example =
    audit_from_dict-to_dict "fresh" "now" entry
      (λ e. (let no : false ≡ true = (text_key.same_iff "audit_1" "").1 e in cc))
      (λ e. (let no : false ≡ true = (text_key.same_iff "2026-01-01T02:04:00+00:00" "").1 e in cc))
