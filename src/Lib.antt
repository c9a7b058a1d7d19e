-- ===== src/Lib.antt =====
-- A verification library for nesy-reasoning-mcp, a server that stores implications between
-- propositions and reasons over them. Paths below are relative to src/nesy_reasoning_mcp/.
--
-- How the program hangs together. A relation (schemas.py) says that its source is sufficient,
-- necessary or equivalent for its target; normalization.py turns it into implication edges. The
-- stores (storage/) keep relations, exclusive groups, independence claims and propositions, and two
-- queues of ingestion work. reasoning.py builds a graph from the relations of a store that a context
-- filter lets through, and searches it for paths, verifies chains, classifies pairs of propositions
-- and looks for contradictions: with exclusive groups, with explicit negations, and between
-- confidences. auto_ingest/ proposes candidate relations,
-- aggregates reviewers' votes on them (review_voting.py) and gates what may be written (gate.py);
-- scheduler.py times ingestion jobs by cron expressions, and auto_ingest/cli.py runs them.
--
-- Which file models what:
--   Schemas, TimeUtils, Text: schemas.py, time_utils.py, auto_ingest/text.py and `str.strip`. The
--     data of a relation that inputs and records share is one record, `RelationFields`. A confidence
--     is a double in [0, 1], hence a whole multiple of 2^-1074, and is held as that multiple.
--   Normalization: normalization.py (`normalize_relation_edges`, `normalized_implication_preview`),
--     with what edges mean (Meaning) and their ids (EdgeIds).
--   Reasoning: reasoning.py. Networkx is the interface to networkx and to the host's floating-point
--     product and date parser; Scope has `_context_compatible` and its companions; Index the class
--     `GraphIndex` (`__init__`, `best_direct_edge`, `_search_graph`); Paths `find_paths` and
--     `_shortest_path`; Chain `verify_explicit_chain`; Classification `classify_reachability` and
--     `expected_relation_matches`; Temporal `_paths_temporally_compatible`; Exclusive
--     `_hard_group_contradictions` and what it calls, and Exclusive/Siblings
--     `find_classification_contradiction`; Negation `_explicit_negation_contradictions`, Tensions
--     `_confidence_tensions`, Separated `_context_separated_conflicts`, and Contradictions
--     `find_exclusive_contradictions`, which calls them.
--   Storage: storage/common.py (Upsert, Replace, Common), and of storage/memory.py the graph data
--     (Memory), the queue of conversation turns (Jobs), the review queue (ReviewQueue), the scheduled
--     jobs and runs (Schedules) and the audit log (Audit, with storage/audit.py). A method takes the
--     state as an argument and returns the new state with its result; ValueErrors are the errors of `Result`; times and
--     uuids are arguments.
--   AutoIngest: auto_ingest/review_voting.py (Voting), auto_ingest/gate.py (Gate) and the decisions
--     of auto_ingest/schemas.py. The gate takes the outcome of its reasoning call, the duplicate
--     detector and the formatting of confidences as the record `GateHost`.
--   Scheduler: auto_ingest/scheduler.py and `_run_scheduled_ingestion_job` of auto_ingest/cli.py.
--     Calendar is Python's datetime to the minute; Cron has the fields of an expression and the loop
--     of `next_cron_run`; Texts and Expressions have `int`, `str.split` and the parser; Schemas the
--     records and validators; States `job_due`, the states after a run and the write diagnostics;
--     Runner the two halves of a run, before and after the agents' work, and Runner/Workers the
--     calls of many workers on one store, as a step relation.
--   Prelude: lists on native numbers, Boolean tests, Python dictionaries as association lists in
--     insertion order, stable sorting, lists without repeated keys.
--   Examples: a concrete graph library, and the theorems at concrete inputs.
--
-- Parameters. networkx (edges between nodes, `shortest_path`, `all_simple_paths`) and the product of
-- doubles and `datetime.fromisoformat` are fields of a record, with their documented behaviour as
-- its laws; Examples.ListGraph fills it with a graph of lists. The time zone database and the ISO
-- texts of instants are the record `Clock`, the hash of the audit log is a function.
--
-- Bounds and fuel. The loops of the modelled code run over lists and are structural recursion, but
-- for the search of `next_cron_run`. It takes as fuel the number of stamps (year, month, day, hour and
-- minute as one number) from its start to its deadline, and two more; each of its jumps goes forward,
-- so the fuel does not run out, which is proved with what the search finds. Limits, offsets and depths
-- are natural numbers; where the code tests for a negative one, the argument is optional and None
-- stands for a negative number. Wall times are those of a datetime's years 1 to 9999 whose search
-- window stays in them; `int` reads ASCII digits.
--
-- Not modelled: the pydantic validators other than those of the scheduler's source and provider
-- settings and those that the theorems' records satisfy by type, deep copies (values are immutable
-- here), the report files of scheduled runs, the SQLite and JSON stores, the tool handlers around
-- these functions, and the servers, command lines and language-model calls, which are input and
-- output.
pub mod AutoIngest
pub mod Examples
pub mod Normalization
pub mod Prelude
pub mod Reasoning
pub mod Scheduler
pub mod Schemas
pub mod Storage
pub mod Text
pub mod TimeUtils
