-- ===== src/Storage/Jobs/Depth.antt =====
-- storage/memory.py: dropping the pending jobs over the queue's depth.
use nesy_reasoning_mcp.Prelude.{
  ℕ, ◌-◌, ◌≤◌, ◌≡◌, ◌↔◌, inl, inr, refl, sym, ◌∙◌, ap, true, not, ◌&&◌, some, List, [], ◌∷◌, map,
  arith, text_key, All-of_Memᴰ, Memᴰ, Memᴰ-filter, Memᴰ-sort_by, Memᴰ-drop, contains_iff, lacks_iff,
  filter, count_if, count_if-filter, count_if-append, count_if-le, count_if-none, count_if-cong,
  count_if-sort_by, length, length-take-le, take, drop, take-drop, map-Memᴰ, length-sort_by,
  length-drop, sort_by, List-cases, length-filter-count_if,
}
use mathlib.Core.List.Memᴰ
use nesy_reasoning_mcp.Storage.Error.{ok, ok_inj}
use nesy_reasoning_mcp.Storage.Jobs.{
  ConversationTurnJob, job_status_key, Queued, job_last, is_pending, id_in, over_depth,
  drop_pending_ingestion_jobs_over_depth,
}
use nesy_reasoning_mcp.Storage.Jobs.Claims.{job_key}

abbrev Jobs : Type 0
Jobs = List ConversationTurnJob

id_in_self : (js : Jobs) (j : ConversationTurnJob) → Memᴰ j js → id_in js j ≡ true
id_in_self js j m =
    (contains_iff (map (λ (i : ConversationTurnJob). i.job_id) js) j.job_id).1
      (map-Memᴰ (λ (i : ConversationTurnJob). i.job_id) js j m)

over_depth-bound :
    (queue : Jobs) (max_pending : ℕ)
    → count_if is_pending (filter (λ j. not (id_in (over_depth queue max_pending) j)) queue)
      ≤ max_pending
unfolding over_depth
over_depth-bound queue max_pending =
    let sorted = sort_by job_last (filter is_pending queue) in
    let kept = λ (j : ConversationTurnJob). not (id_in (drop max_pending sorted) j) in
    let moved =
      count_if-filter is_pending kept queue
      ∙ count_if-cong (λ j. is_pending j && kept j) (λ j. kept j && is_pending j) queue
          (λ j. ground arith)
      ∙ sym (count_if-filter kept is_pending queue)
      ∙ sym (count_if-sort_by job_last kept (filter is_pending queue)) in
    let split =
      ap (count_if kept) (sym (take-drop max_pending sorted))
      ∙ count_if-append kept (take max_pending sorted) (drop max_pending sorted) in
    let none_left = count_if-none kept (drop max_pending sorted) (
      All-of_Memᴰ _ (drop max_pending sorted)
        (λ j m. rw (id_in_self (drop max_pending sorted) j m) refl)) in
    omega (
      arith,
      moved,
      split,
      none_left,
      count_if-le kept (take max_pending sorted),
      length-take-le max_pending sorted,
    )

over_depth-Memᴰ :
    (queue : Jobs) (max_pending : ℕ) (j : ConversationTurnJob)
    → Memᴰ j (over_depth queue max_pending)
    → Memᴰ j queue × (is_pending j ≡ true)
unfolding over_depth
over_depth-Memᴰ queue max_pending j m = (Memᴰ-filter is_pending j queue).0 (
    (Memᴰ-sort_by job_last j (filter is_pending queue)).0
      (Memᴰ-drop max_pending (sort_by job_last (filter is_pending queue)) m))

length-over_depth :
    (queue : Jobs) (max_pending : ℕ)
    → length (over_depth queue max_pending) ≡ count_if is_pending queue - max_pending
unfolding over_depth
length-over_depth queue max_pending =
    length-drop max_pending (sort_by job_last (filter is_pending queue))
    ∙ ap (λ n. n - max_pending)
        (length-sort_by job_last (filter is_pending queue)
          ∙ length-filter-count_if is_pending queue)

dropped_queue_iff :
    (dropped queue : Jobs) (j : ConversationTurnJob)
    → Memᴰ j (filter (λ j. not (id_in dropped j)) queue)
      ↔ (Memᴰ j queue × (¬ Memᴰ j.job_id (map job_key dropped)))
dropped_queue_iff dropped queue j =
    let (f, g) = Memᴰ-filter (λ j. not (id_in dropped j)) j queue in
    let (to, from) = lacks_iff (map job_key dropped) j.job_id in
    (λ m. let (p, q) = f m in (p, to q), λ m. g (m.0, from m.1))

-- Dropping the pending jobs over a depth leaves at most that many pending jobs; each dropped job
-- was a pending one of the queue; the jobs that stay are those whose id no dropped job has; and if
-- no more jobs were pending than allowed, nothing is dropped.
pub drop_pending_ingestion_jobs_bound :
    (queue : Jobs) (max_pending : ℕ) (out : Queued ConversationTurnJob Jobs)
    → drop_pending_ingestion_jobs_over_depth queue (some max_pending) ≡ ok out
    → (count_if is_pending out.queue ≤ max_pending)
      × ((j : ConversationTurnJob) → Memᴰ j out.result → Memᴰ j queue × (is_pending j ≡ true))
      × ((j : ConversationTurnJob)
          → Memᴰ j out.queue ↔ (Memᴰ j queue × (¬ Memᴰ j.job_id (map job_key out.result))))
      × (count_if is_pending queue ≤ max_pending → (out.queue ≡ queue) × (out.result ≡ []))
unfolding drop_pending_ingestion_jobs_over_depth
drop_pending_ingestion_jobs_bound queue max_pending out h =
    let sized = length-over_depth queue max_pending in
    elim (List-cases (over_depth queue max_pending)) [
      | inl none_over ↦
          let same = ok_inj _ out (rw none_over at h) in
          let total = sym sized ∙ ap length none_over in
          (
            rw⁻¹ same (omega (arith, total)),
            λ j m. absurd (Memᴰ.not-nil (rw (sym same) at m)),
            λ j. rw⁻¹ same (λ m. (m, λ n. absurd (Memᴰ.not-nil n)), λ m. m.0),
            λ _. (sym (ap (λ o. o.queue) same), sym (ap (λ o. o.result) same)),
          )
      | inr (j, js, some_over) ↦
          let same = ok_inj _ out (rw some_over at h) in
          let total = sym sized ∙ ap length some_over in
          let bound = rw some_over at (over_depth-bound queue max_pending) in
          (
            rw⁻¹ same bound,
            λ k m. over_depth-Memᴰ queue max_pending k (rw some_over (rw (sym same) at m)),
            λ k. rw⁻¹ same (dropped_queue_iff (j ∷ js) queue k),
            λ le. absurd (omega (arith, total, le)),
          )
    ]
