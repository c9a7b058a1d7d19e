-- ===== src/Scheduler/Schemas.antt =====
-- auto_ingest/scheduler.py: the records of scheduled jobs and runs, and their validators. Numbers
-- of seconds and confidences, which Python keeps as floats, are numbers of thousandths.
pub mod Validated
use nesy_reasoning_mcp.Prelude.{
  ℕ, ◌≡◌, ◌↔◌, Bool, true, false, ◌&&◌, ◌||◌, not, if◌then◌else◌, leb, String, Option, some, none,
  List, [], ◌∷◌, map, any, all, arith, Key, ◌==◌, text_key, is_empty, ◌>>=◌,
}
use nesy_reasoning_mcp.Text.{strip}
use nesy_reasoning_mcp.Schemas.{Fields}
use nesy_reasoning_mcp.AutoIngest.Decisions.{VotingPolicy}

pub data Level : Type 0 where
  info warning error : Level

pub record Diagnostic : Type 0 where
  pub level : Level
  pub code : String
  pub message : String
  pub related_ids : List String

pub data ScheduledJobStatus : Type 0 where
  active disabled running failed : ScheduledJobStatus

pub data ScheduledRunStatus : Type 0 where
  running succeeded failed skipped : ScheduledRunStatus

pub data RunTrigger : Type 0 where
  manual due worker : RunTrigger

pub record SourceConfig : Type 0 where
  pub input_path : Option String
  pub urls : List String
  pub retrieval_input_path : Option String
  pub task : Option String
  pub question : Option String
  pub timeout_seconds : ℕ
  pub max_url_bytes : ℕ
  pub search_queries : List String
  pub search_provider : String
  pub search_limit : ℕ
  pub search_timeout_seconds : ℕ
  pub search_include_domains : List String
  pub search_exclude_domains : List String
  pub search_api_key_env : String
  pub crawl : Bool
  pub crawl_max_depth : ℕ
  pub crawl_max_pages : ℕ
  pub crawl_max_page_bytes : ℕ
  pub crawl_max_total_bytes : ℕ
  pub crawl_timeout_seconds : ℕ
  pub crawl_allow_domains : List String

pub record ProviderConfig : Type 0 where
  pub model : Option String
  pub provider : Option String
  pub base_url : Option String
  pub api_key_env : Option String
  pub provider_headers : List String
  pub provider_thinking : Option String
  pub provider_reasoning_effort : Option String
  pub disable_tracing : Bool
  pub reviewer_models : List String
  pub reviewers : List String
  pub voting_policy : VotingPolicy
  pub high_priority_reviewer_models : List String
  pub high_priority_reviewers : List String

pub record RuntimeConfig : Type 0 where
  pub extractor_timeout_seconds : ℕ
  pub high_priority_reviewer_timeout_seconds : ℕ
  pub reviewer_timeout_seconds : ℕ
  pub extractor_max_tokens : ℕ
  pub reviewer_max_tokens : ℕ
  pub progress : String

pub record WriteConfig : Type 0 where
  pub auto_write : Bool
  pub allow_scheduled_writes : Bool
  pub allow_single_reviewer_write : Bool
  pub min_write_confidence : ℕ
  pub report_dir : Option String

pub record RetryPolicy : Type 0 where
  pub max_retries : ℕ
  pub retry_backoff_seconds : ℕ

pub record State : Type 0 where
  pub last_run_at : Option String
  pub next_run_at : Option String
  pub last_status : Option ScheduledRunStatus
  pub retry_count : ℕ
  pub current_run_id : Option String
  pub last_run_id : Option String
  pub last_report_run_id : Option String
  pub last_report_path : Option String
  pub diagnostics : List Diagnostic

pub record Job : Type 0 where
  pub id : String
  pub name : String
  pub status : ScheduledJobStatus
  pub cron : String
  pub timezone : String
  pub source_config : SourceConfig
  pub provider_config : ProviderConfig
  pub runtime_config : RuntimeConfig
  pub write_config : WriteConfig
  pub retry_policy : RetryPolicy
  pub state : State
  pub created_at : String
  pub updated_at : String

pub record Run : Type 0 where
  pub id : String
  pub job_id : String
  pub trigger : RunTrigger
  pub status : ScheduledRunStatus
  pub attempt : ℕ
  pub started_at : String
  pub finished_at : Option String
  pub report_run_id : Option String
  pub report_path : Option String
  pub diagnostics : List Diagnostic
  pub metadata : Fields

pub record JobFilter : Type 0 where
  pub ids : List String
  pub status : Option ScheduledJobStatus
  pub due_before : Option String

pub record RunFilter : Type 0 where
  pub job_id : Option String
  pub status : Option ScheduledRunStatus

abbrev job_status_same : ScheduledJobStatus → ScheduledJobStatus → Bool
job_status_same ScheduledJobStatus.active ScheduledJobStatus.active = true
job_status_same ScheduledJobStatus.disabled ScheduledJobStatus.disabled = true
job_status_same ScheduledJobStatus.running ScheduledJobStatus.running = true
job_status_same ScheduledJobStatus.failed ScheduledJobStatus.failed = true
job_status_same _ _ = false

pub job_status_same_iff : (a b : ScheduledJobStatus) → (job_status_same a b ≡ true) ↔ (a ≡ b)
job_status_same_iff a b = ground arith

instance abbrev pub job_status_key : Key ScheduledJobStatus
job_status_key = record { same = job_status_same; same_iff = job_status_same_iff }

abbrev run_status_same : ScheduledRunStatus → ScheduledRunStatus → Bool
run_status_same ScheduledRunStatus.running ScheduledRunStatus.running = true
run_status_same ScheduledRunStatus.succeeded ScheduledRunStatus.succeeded = true
run_status_same ScheduledRunStatus.failed ScheduledRunStatus.failed = true
run_status_same ScheduledRunStatus.skipped ScheduledRunStatus.skipped = true
run_status_same _ _ = false

pub run_status_same_iff : (a b : ScheduledRunStatus) → (run_status_same a b ≡ true) ↔ (a ≡ b)
run_status_same_iff a b = ground arith

instance abbrev pub run_status_key : Key ScheduledRunStatus
run_status_key = record { same = run_status_same; same_iff = run_status_same_iff }

-- The validators. `none` is a ValueError, which pydantic reports as a ValidationError.
abbrev pub strip_required_text : String → Option String
strip_required_text value =
    let stripped = strip value in if stripped == "" then none else some stripped

abbrev pub strip_optional_text : Option String → Option (Option String)
strip_optional_text none = some none
strip_optional_text (some value) = strip_required_text value >>= λ stripped. some (some stripped)

abbrev pub strip_string_lists : List String → Option (List String)
strip_string_lists values =
    let stripped = map strip values in
    if any (λ item. item == "") stripped then none else some stripped

abbrev one_of : List String → Option String → Option (Option String)
one_of allowed none = some none
one_of allowed (some value) =
    if any (λ item. value == item) allowed then some (some value) else none

-- `self.input_path` and the like as a test: None and the empty text are false.
abbrev pub text_given : Option String → Bool
text_given none = false
text_given (some text) = not (text == "")

unfoldable pub require_source : SourceConfig → Option SourceConfig
require_source c =
    if text_given c.input_path
      || (not (is_empty c.urls)
          || (text_given c.retrieval_input_path || not (is_empty c.search_queries)))
    then if c.crawl && is_empty c.urls then none else some c
    else none

-- The field validators of the texts, and those of the lists.
unfoldable pub strip_texts : SourceConfig → Option SourceConfig
strip_texts c = do
  input_path ← strip_optional_text c.input_path
  retrieval_input_path ← strip_optional_text c.retrieval_input_path
  task ← strip_optional_text c.task
  question ← strip_optional_text c.question
  search_api_key_env ← strip_required_text c.search_api_key_env
  some (record c {
    input_path = input_path;
    retrieval_input_path = retrieval_input_path;
    task = task;
    question = question;
    search_api_key_env = search_api_key_env;
  })

unfoldable pub strip_lists : SourceConfig → Option SourceConfig
strip_lists c = do
  urls ← strip_string_lists c.urls
  search_queries ← strip_string_lists c.search_queries
  search_include_domains ← strip_string_lists c.search_include_domains
  search_exclude_domains ← strip_string_lists c.search_exclude_domains
  crawl_allow_domains ← strip_string_lists c.crawl_allow_domains
  some (record c {
    urls = urls;
    search_queries = search_queries;
    search_include_domains = search_include_domains;
    search_exclude_domains = search_exclude_domains;
    crawl_allow_domains = crawl_allow_domains;
  })

unfoldable pub validate_source_config : SourceConfig → Option SourceConfig
validate_source_config c = do
  with_texts ← strip_texts c
  with_lists ← strip_lists with_texts
  require_source with_lists

unfoldable pub validate_provider_config : ProviderConfig → Option ProviderConfig
validate_provider_config c = do
  model ← strip_optional_text c.model
  provider ← strip_optional_text c.provider
  base_url ← strip_optional_text c.base_url
  api_key_env ← strip_optional_text c.api_key_env
  thinking ← strip_optional_text c.provider_thinking
  provider_thinking ← one_of ("enabled" ∷ "disabled" ∷ []) thinking
  effort ← strip_optional_text c.provider_reasoning_effort
  provider_reasoning_effort ← one_of ("high" ∷ "max" ∷ []) effort
  provider_headers ← strip_string_lists c.provider_headers
  reviewer_models ← strip_string_lists c.reviewer_models
  reviewers ← strip_string_lists c.reviewers
  high_priority_reviewer_models ← strip_string_lists c.high_priority_reviewer_models
  high_priority_reviewers ← strip_string_lists c.high_priority_reviewers
  some (record c {
    model = model;
    provider = provider;
    base_url = base_url;
    api_key_env = api_key_env;
    provider_thinking = provider_thinking;
    provider_reasoning_effort = provider_reasoning_effort;
    provider_headers = provider_headers;
    reviewer_models = reviewer_models;
    reviewers = reviewers;
    high_priority_reviewer_models = high_priority_reviewer_models;
    high_priority_reviewers = high_priority_reviewers;
  })
