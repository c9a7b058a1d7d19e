-- ===== src/Storage/Jobs/Queue.antt =====
-- storage/memory.py: the job queue has one job for each id, and every operation keeps it so.
use nesy_reasoning_mcp.Prelude.{
  ℕ, ◌≡◌, ◌↔◌, ◌⊎◌, inl, inr, refl, sym, ◌∙◌, ap, String, not, Option, some, none, List, [], ◌∷◌,
  ◌++◌, map, arith, text_key, All, All-Memᴰ, All-insert, Memᴰ, Memᴰ-filter, Memᴰ-map, map-Memᴰ,
  Bool-cases, contains, contains_iff, lacks_iff, filter, Distinct, Dict, keys, insert,
  insert-Distinct, keys-insert_iff, append-Distinct, Memᴰ-cons, Unique, filter-Unique, is_empty,
}
use mathlib.Core.List.{map-append}
use mathlib.Core.List.Memᴰ
use nesy_reasoning_mcp.Storage.Error.{ok, ok_inj}
use nesy_reasoning_mcp.Storage.Jobs.{
  ConversationTurnJob, JobStatus, job_status_key, Queued, jobs_by_id, unique_jobs, queued_id, id_in,
  updates, enqueue_ingestion_jobs, claim_pending_ingestion_jobs, update_ingestion_job_status,
  drop_pending_ingestion_jobs_over_depth, over_depth, extracting,
}
use nesy_reasoning_mcp.Storage.Jobs.Claims.{job_key, claim_cases, map-ids}

abbrev Jobs : Type 0
Jobs = List ConversationTurnJob

-- Every entry of the dictionary of incoming jobs stands under its job's id.
abbrev ById : String × ConversationTurnJob → Type 0
ById e = e.0 ≡ e.1.job_id

jobs_by_id-ById :
    (js : Jobs) (d : Dict String ConversationTurnJob) → All ById d → All ById (jobs_by_id d js)
unfolding jobs_by_id
jobs_by_id-ById [] d h = h
jobs_by_id-ById (j ∷ js) d h =
    jobs_by_id-ById js (insert j.job_id j d) (All-insert ById j.job_id j d (λ k e. e) h)

jobs_by_id-Distinct :
    (js : Jobs) (d : Dict String ConversationTurnJob)
    → Distinct (keys d)
    → Distinct (keys (jobs_by_id d js))
unfolding jobs_by_id
jobs_by_id-Distinct [] d h = h
jobs_by_id-Distinct (j ∷ js) d h =
    jobs_by_id-Distinct js (insert j.job_id j d) (insert-Distinct j.job_id j d h)

ids_of_entries :
    (d : Dict String ConversationTurnJob) → All ById d → map job_key (map (λ e. e.1) d) ≡ keys d
ids_of_entries [] h = refl
ids_of_entries (e ∷ d) (h, hs) = rw (sym h) (ap (λ l. e.0 ∷ l) (ids_of_entries d hs))

jobs_by_id-keys :
    (js : Jobs) (d : Dict String ConversationTurnJob) (a : String)
    → Memᴰ a (keys (jobs_by_id d js)) ↔ (Memᴰ a (keys d) ⊎ Memᴰ a (map job_key js))
unfolding jobs_by_id
jobs_by_id-keys [] d a = (λ m. inl m, λ s. elim s [ inl m ↦ m | inr m ↦ absurd (Memᴰ.not-nil m) ])
jobs_by_id-keys (j ∷ js) d a = ground (
  arith,
  jobs_by_id-keys js (insert j.job_id j d) a,
  keys-insert_iff j.job_id a j d,
  Memᴰ-cons a j.job_id (map job_key js),
)

jobs_by_id-Memᴰ :
    (js all : Jobs) (d : Dict String ConversationTurnJob)
    → ((j : ConversationTurnJob) → Memᴰ j js → Memᴰ j all)
    → All (λ (e : String × ConversationTurnJob). Memᴰ e.1 all) d
    → All (λ (e : String × ConversationTurnJob). Memᴰ e.1 all) (jobs_by_id d js)
unfolding jobs_by_id
jobs_by_id-Memᴰ [] all d sub h = h
jobs_by_id-Memᴰ (j ∷ js) all d sub h =
    jobs_by_id-Memᴰ js all (insert j.job_id j d) (λ k m. sub k (Memᴰ.tail m))
      (All-insert (λ (e : String × ConversationTurnJob). Memᴰ e.1 all) j.job_id j d
        (λ k e. sub j (Memᴰ.head refl)) h)

ids_of_unique_jobs : (js : Jobs) → map job_key (unique_jobs js) ≡ keys (jobs_by_id [] js)
unfolding unique_jobs
ids_of_unique_jobs js = ids_of_entries (jobs_by_id [] js) (jobs_by_id-ById js [] tt)

unique_jobs-ids :
    (js : Jobs) (a : String) → Memᴰ a (map job_key (unique_jobs js)) ↔ Memᴰ a (map job_key js)
unique_jobs-ids js a = rw (ids_of_unique_jobs js) (
  λ m. elim ((jobs_by_id-keys js [] a).0 m) [ inl p ↦ absurd (Memᴰ.not-nil p) | inr q ↦ q ],
  λ m. (jobs_by_id-keys js [] a).1 (inr m),
)

unique_jobs-Memᴰ : (js : Jobs) (j : ConversationTurnJob) → Memᴰ j (unique_jobs js) → Memᴰ j js
unfolding unique_jobs
unique_jobs-Memᴰ js j m =
    let (e, n, q) = Memᴰ-map (λ (e : String × ConversationTurnJob). e.1) (jobs_by_id [] js) j m in
    rw q (All-Memᴰ _ (jobs_by_id [] js) (jobs_by_id-Memᴰ js js [] (λ k p. p) tt) n)

unique_jobs-Unique : (js : Jobs) → Unique job_key (unique_jobs js)
unique_jobs-Unique js = rw (ids_of_unique_jobs js) (jobs_by_id-Distinct js [] tt)

kept_job_iff :
    (queue incoming : Jobs) (j : ConversationTurnJob)
    → Memᴰ j (filter (λ j. not (queued_id incoming j)) queue)
      ↔ (Memᴰ j queue × (¬ Memᴰ j.job_id (map job_key incoming)))
kept_job_iff queue incoming j =
    let (f, g) = Memᴰ-filter (λ j. not (queued_id incoming j)) j queue in
    let (to, from) = lacks_iff (map job_key incoming) j.job_id in
    (λ m. let (p, q) = f m in (p, to q), λ m. g (m.0, from m.1))

kept_job-Unique :
    (queue incoming : Jobs)
    → Unique job_key queue
    → Unique job_key (filter (λ j. not (queued_id incoming j)) queue ++ unique_jobs incoming)
kept_job-Unique queue incoming u =
    let kept = filter (λ j. not (queued_id incoming j)) queue in
    rw (map-append job_key kept (unique_jobs incoming)) (
      append-Distinct (map job_key kept) (map job_key (unique_jobs incoming))
        (filter-Unique job_key (λ j. not (queued_id incoming j)) queue u)
        (unique_jobs-Unique incoming)
        (λ a m n.
          let (j, p, e) = Memᴰ-map job_key kept a m in
          ((kept_job_iff queue incoming j).0 p).1 (rw e at ((unique_jobs-ids incoming a).0 n))))

enqueued_ids :
    (queue incoming : Jobs) (a : String)
    → Memᴰ a (
        map job_key (filter (λ j. not (queued_id incoming j)) queue)
        ++ map job_key (unique_jobs incoming))
      ↔ (Memᴰ a (map job_key queue) ⊎ Memᴰ a (map job_key incoming))
enqueued_ids queue incoming a =
    let kept = filter (λ j. not (queued_id incoming j)) queue in
    let (new_to, new_from) = unique_jobs-ids incoming a in
    (
      λ m. elim (Memᴰ.append_cases (map job_key kept) m) [
        | inl p ↦
            let (j, n, e) = Memᴰ-map job_key kept a p in
            inl (rw e (map-Memᴰ job_key queue j (((kept_job_iff queue incoming j).0 n).0)))
        | inr q ↦ inr (new_to q)
      ],
      λ s. elim (Bool-cases (contains (map job_key incoming) a)) [
        | inl y ↦
            Memᴰ.append_right (map job_key kept)
              (new_from ((contains_iff (map job_key incoming) a).0 y))
        | inr y ↦
            let absent = (lacks_iff (map job_key incoming) a).0 (rw y refl) in
            elim s [
              | inr q ↦ absurd (absent q)
              | inl p ↦
                  let (j, n, e) = Memᴰ-map job_key queue a p in
                  let stays = (kept_job_iff queue incoming j).1 (n, rw e at absent) in
                  rw e (
                    Memᴰ.append_left (map job_key (unique_jobs incoming))
                      (map-Memᴰ job_key kept j stays))
            ]
      ],
    )

-- Enqueuing jobs to a queue that has one job for each id keeps it so; the ids of the new queue are
-- those of the old one and of the incoming jobs; a queued job stays if no incoming job has its id;
-- and a job under an incoming id is an incoming job.
pub enqueue_ingestion_jobs_exact :
    (queue incoming : Jobs)
    → Unique job_key queue
    → Unique job_key (enqueue_ingestion_jobs queue incoming).queue
      × ((a : String)
          → Memᴰ a (map job_key (enqueue_ingestion_jobs queue incoming).queue)
            ↔ (Memᴰ a (map job_key queue) ⊎ Memᴰ a (map job_key incoming)))
      × ((j : ConversationTurnJob)
          → Memᴰ j (enqueue_ingestion_jobs queue incoming).queue
          → Memᴰ j incoming ⊎ (Memᴰ j queue × (¬ Memᴰ j.job_id (map job_key incoming))))
      × ((j : ConversationTurnJob)
          → Memᴰ j queue
          → ¬ Memᴰ j.job_id (map job_key incoming)
          → Memᴰ j (enqueue_ingestion_jobs queue incoming).queue)
unfolding enqueue_ingestion_jobs
enqueue_ingestion_jobs_exact queue incoming u =
    let kept = filter (λ j. not (queued_id incoming j)) queue in
    let new = unique_jobs incoming in
    (
      kept_job-Unique queue incoming u,
      λ a. rw (map-append job_key kept new) (enqueued_ids queue incoming a),
      λ j m. elim (Memᴰ.append_cases kept m) [
        | inl p ↦ inr ((kept_job_iff queue incoming j).0 p)
        | inr q ↦ inl (unique_jobs-Memᴰ incoming j q)
      ],
      λ j m n. Memᴰ.append_left new ((kept_job_iff queue incoming j).1 (m, n)),
    )

-- The calls that change the queue.
pub data JobStep : Jobs → Jobs → Type 0 where
  enqueued : (queue incoming : Jobs) → JobStep queue (enqueue_ingestion_jobs queue incoming).queue
  claimed :
      (now : String) (queue : Jobs) (limit : Option _) (out : Queued ConversationTurnJob Jobs)
      → claim_pending_ingestion_jobs now queue limit ≡ ok out
      → JobStep queue out.queue
  status_set :
      (now : String) (queue : Jobs) (id : String) (status : JobStatus) (expected : Option JobStatus)
      → JobStep queue (update_ingestion_job_status now queue id status expected).queue
  dropped :
      (queue : Jobs) (max_pending : Option _) (out : Queued ConversationTurnJob Jobs)
      → drop_pending_ingestion_jobs_over_depth queue max_pending ≡ ok out
      → JobStep queue out.queue

-- The queues that calls make of the empty one.
pub data JobsReachable : Jobs → Type 0 where
  empty : JobsReachable []
  after : (queue next : Jobs) → JobsReachable queue → JobStep queue next → JobsReachable next

claim-Unique :
    (now : String) (queue : Jobs) (limit : Option ℕ) (out : Queued ConversationTurnJob Jobs)
    → claim_pending_ingestion_jobs now queue limit ≡ ok out
    → Unique job_key queue
    → Unique job_key out.queue
unfolding claim_pending_ingestion_jobs
claim-Unique now queue none out h u = cc
claim-Unique now queue (some n) out h u =
    let (first, _, q, _) = claim_cases now queue n out h in
    rw (ap (map job_key) q ∙ map-ids extracting now (id_in first) queue) u

drop-Unique :
    (queue : Jobs) (max_pending : Option ℕ) (out : Queued ConversationTurnJob Jobs)
    → drop_pending_ingestion_jobs_over_depth queue max_pending ≡ ok out
    → Unique job_key queue
    → Unique job_key out.queue
unfolding drop_pending_ingestion_jobs_over_depth
drop-Unique queue none out h u = cc
drop-Unique queue (some n) out h u = elim (Bool-cases (is_empty (over_depth queue n))) [
  | inl e ↦ rw⁻¹ (ok_inj _ out (rw e at h)) u
  | inr e ↦
      rw⁻¹ (ok_inj _ out (rw e at h))
        (filter-Unique job_key (λ j. not (id_in (over_depth queue n) j)) queue u)
]

step-Unique : (queue next : Jobs) → JobStep queue next → Unique job_key queue → Unique job_key next
unfolding update_ingestion_job_status
step-Unique _ _ (enqueued queue incoming) u = (enqueue_ingestion_jobs_exact queue incoming u).0
step-Unique _ _ (claimed now queue limit out h) u = claim-Unique now queue limit out h u
step-Unique _ _ (status_set now queue id status expected) u =
    rw (map-ids status now (updates id expected) queue) u
step-Unique _ _ (dropped queue max_pending out h) u = drop-Unique queue max_pending out h u

-- Whatever calls the queue has seen since it was empty, it holds at most one job for each id.
pub job_queue_invariant : (queue : Jobs) → JobsReachable queue → Unique job_key queue
job_queue_invariant _ empty = tt
job_queue_invariant _ (after before queue r s) =
    step-Unique before queue s (job_queue_invariant before r)
