-- ===== src/Storage/Jobs/Claims.antt =====
-- storage/memory.py: claiming pending jobs.
use nesy_reasoning_mcp.Prelude.{
  ℕ, zero, suc, ◌≤◌, ◌≡◌, ◌≢◌, inl, inr, refl, sym, ◌∙◌, ap, String, Bool, true, false, some, List,
  [], ◌∷◌, map, arith, text_key, if◌then◌else◌, Memᴰ, Memᴰ-filter, Memᴰ-sort_by, Memᴰ-take,
  Bool-cases, contains, contains_iff, filter, count_if, length, Memᴰ-map, map-Memᴰ, Unique,
  Unique-eq, take-Unique, sort_by-Unique, filter-Unique, count_if-keys, length-sort_by, length-take,
  take-all, length-map, sort_by, length-filter-count_if,
}
use mathlib.Core.Bool.{false≢true}
use nesy_reasoning_mcp.Storage.Error.{ok, ok_inj}
use nesy_reasoning_mcp.Storage.Jobs.{
  ConversationTurnJob, JobStatus, extracting, job_status_key, Queued, job_first, is_pending,
  first_pending, id_in, set_status, claim_pending_ingestion_jobs,
}

abbrev Jobs : Type 0
Jobs = List ConversationTurnJob

map-unclaimed :
    (now : String) (queue : Jobs)
    → map (λ j. if id_in [] j then set_status extracting now j else j) queue ≡ queue
map-unclaimed now [] = refl
map-unclaimed now (j ∷ js) = ap (λ l. j ∷ l) (map-unclaimed now js)

filter-unclaimed : (queue : Jobs) → filter (id_in []) queue ≡ []
filter-unclaimed [] = refl
filter-unclaimed (j ∷ js) = filter-unclaimed js

-- Which jobs a claim changes, and how.
pub claim_cases :
    (now : String) (queue : Jobs) (limit : ℕ) (out : Queued ConversationTurnJob Jobs)
    → claim_pending_ingestion_jobs now queue (some limit) ≡ ok out
    → (claimed : Jobs) × (claimed ≡ first_pending queue limit)
      × (out.queue ≡ map (λ j. if id_in claimed j then set_status extracting now j else j) queue)
      × (out.result
          ≡ sort_by job_first (map (set_status extracting now) (filter (id_in claimed) queue)))
unfolding claim_pending_ingestion_jobs
claim_cases now queue zero out h =
    let e = ok_inj _ out h in
    (
      [],
      refl,
      sym (ap (λ o. o.queue) e) ∙ sym (map-unclaimed now queue),
      sym (ap (λ o. o.result) e) ∙ rw (filter-unclaimed queue) refl,
    )
claim_cases now queue (suc n) out h = (
  first_pending queue (suc n),
  refl,
  sym (ap (λ o. o.queue) (ok_inj _ out h)),
  sym (ap (λ o. o.result) (ok_inj _ out h)),
)

-- A claimed job is a queued one, whose id is that of one of the first pending jobs, marked.
claimed_from :
    (now : String) (queue : Jobs) (limit : ℕ) (out : Queued ConversationTurnJob Jobs)
    (r : ConversationTurnJob)
    → claim_pending_ingestion_jobs now queue (some limit) ≡ ok out
    → Memᴰ r out.result
    → (j : ConversationTurnJob) × Memᴰ j queue
      × (r ≡ set_status extracting now j)
      × (id_in (first_pending queue limit) j ≡ true)
claimed_from now queue limit out r h m =
    let (claimed, same, q, res) = claim_cases now queue limit out h in
    let marked = map (set_status extracting now) (filter (id_in claimed) queue) in
    let (j, n, e) =
      Memᴰ-map (set_status extracting now) (filter (id_in claimed) queue) r
        ((Memᴰ-sort_by job_first r marked).0 (rw res at m)) in
    let (k, p) = (Memᴰ-filter (id_in claimed) j queue).0 n in (j, k, e, rw⁻¹ same p)

first_pending-Memᴰ :
    (queue : Jobs) (limit : ℕ) (j : ConversationTurnJob)
    → Memᴰ j (first_pending queue limit)
    → Memᴰ j queue × (is_pending j ≡ true)
unfolding first_pending
first_pending-Memᴰ queue limit j m = (Memᴰ-filter is_pending j queue).0 (
    (Memᴰ-sort_by job_first j (filter is_pending queue)).0
      (Memᴰ-take limit (sort_by job_first (filter is_pending queue)) m))

id_in-found :
    (js : Jobs) (j : ConversationTurnJob)
    → id_in js j ≡ true
    → (k : ConversationTurnJob) × Memᴰ k js × (j.job_id ≡ k.job_id)
id_in-found js j h =
    Memᴰ-map (λ (i : ConversationTurnJob). i.job_id) js j.job_id
      ((contains_iff (map (λ (i : ConversationTurnJob). i.job_id) js) j.job_id).0 h)

-- A pending job that a claim has left in the queue was not claimed.
pending_left :
    (now : String) (claimed queue : Jobs) (k : ConversationTurnJob)
    → Memᴰ k (map (λ j. if id_in claimed j then set_status extracting now j else j) queue)
    → is_pending k ≡ true
    → id_in claimed k ≡ false
pending_left now claimed queue k m p =
    let (j, n, e) =
      Memᴰ-map (λ j. if id_in claimed j then set_status extracting now j else j) queue k m in
    elim (Bool-cases (id_in claimed j)) [
      | inl y ↦ absurd (false≢true (rw (rw y at e) at p))
      | inr y ↦ rw (rw y at e) y
    ]

-- Two claims one after the other, whatever their limits and times, never return jobs with the
-- same id.
pub claims_disjoint :
    (now later : String) (queue : Jobs) (n m : ℕ) (first second : Queued ConversationTurnJob Jobs)
    → claim_pending_ingestion_jobs now queue (some n) ≡ ok first
    → claim_pending_ingestion_jobs later first.queue (some m) ≡ ok second
    → (r s : ConversationTurnJob) → Memᴰ r first.result
    → Memᴰ s second.result
    → r.job_id ≢ s.job_id
claims_disjoint now later queue n m first second h1 h2 r s mr ms same =
    let (j, _, rj, jn) = claimed_from now queue n first r h1 mr in
    let (i, _, si, im) = claimed_from later first.queue m second s h2 ms in
    let (k, mk, ik) = id_in-found (first_pending first.queue m) i im in
    let (mk', pk) = first_pending-Memᴰ first.queue m k mk in
    let (claimed, eq, q, _) = claim_cases now queue n first h1 in
    let left = pending_left now claimed queue k (rw q at mk') pk in
    let chain : j.job_id ≡ k.job_id =
      sym (ap (λ x. x.job_id) rj) ∙ same ∙ ap (λ x. x.job_id) si ∙ ik in
    false≢true (
      sym left
      ∙ sym (ap (contains (map (λ (x : ConversationTurnJob). x.job_id) claimed)) chain)
      ∙ rw eq jn)

abbrev pub job_key : ConversationTurnJob → String
job_key j = j.job_id

pub map-ids :
    (status : JobStatus) (now : String) (p : ConversationTurnJob → Bool) (queue : Jobs)
    → map job_key (map (λ j. if p j then set_status status now j else j) queue) ≡ map job_key queue
map-ids status now p [] = refl
map-ids status now p (j ∷ js) = elim (Bool-cases (p j)) [
  | inl e ↦ rw e (ap (λ l. j.job_id ∷ l) (map-ids status now p js))
  | inr e ↦ rw e (ap (λ l. j.job_id ∷ l) (map-ids status now p js))
]

length-first_pending :
    (queue : Jobs) (limit : ℕ)
    → (limit ≤ count_if is_pending queue → length (first_pending queue limit) ≡ limit)
      × (count_if is_pending queue ≤ limit
          → length (first_pending queue limit) ≡ count_if is_pending queue)
unfolding first_pending
length-first_pending queue limit =
    let pendings = filter is_pending queue in
    let total = length-sort_by job_first pendings ∙ length-filter-count_if is_pending queue in
    (
      λ h. length-take limit (sort_by job_first pendings) (omega (arith, total, h)),
      λ h.
          ap length (take-all limit (sort_by job_first pendings) (omega (arith, total, h))) ∙ total,
    )

first_pending-Unique :
    (queue : Jobs) (limit : ℕ) → Unique job_key queue → Unique job_key (first_pending queue limit)
unfolding first_pending
first_pending-Unique queue limit u =
    take-Unique job_key limit _
      (sort_by-Unique job_key job_first _ (filter-Unique job_key is_pending queue u))

length-claimed :
    (now : String) (queue : Jobs) (limit : ℕ) (out : Queued ConversationTurnJob Jobs)
    → Unique job_key queue
    → claim_pending_ingestion_jobs now queue (some limit) ≡ ok out
    → length out.result ≡ length (first_pending queue limit)
length-claimed now queue limit out u h =
    let (claimed, same, q, res) = claim_cases now queue limit out h in
    let mark = set_status extracting now in
    let sized =
      ap length res
      ∙ length-sort_by job_first (map mark (filter (id_in claimed) queue))
      ∙ length-map mark (filter (id_in claimed) queue)
      ∙ length-filter-count_if (id_in claimed) queue in
    let counted =
      count_if-keys job_key queue (first_pending queue limit) u (first_pending-Unique queue limit u)
        (λ j m. (first_pending-Memᴰ queue limit j m).0) in
    sized ∙ ap (λ c. count_if (id_in c) queue) same ∙ counted

-- A returned record is a job of the queue that was pending, marked as being extracted.
abbrev pub Claimed : String → Jobs → ConversationTurnJob → Type 0
Claimed now queue r =
    (j : ConversationTurnJob) × Memᴰ j queue
    × (is_pending j ≡ true)
    × (r ≡ set_status extracting now j)

-- The marked job stands in the queue, and a job that the claim does not return stays as it is.
module _ (now : String) (claimed queue : Jobs) where
  marked : Jobs
  marked = map (λ j. if id_in claimed j then set_status extracting now j else j) queue

  returned : Jobs
  returned = sort_by job_first (map (set_status extracting now) (filter (id_in claimed) queue))

  marked-queued :
      (j : ConversationTurnJob)
      → Memᴰ j queue
      → id_in claimed j ≡ true
      → Memᴰ (set_status extracting now j) marked
  unfolding marked
  marked-queued j m e =
      rw e at (map-Memᴰ (λ j. if id_in claimed j then set_status extracting now j else j) queue j m)

  unreturned-queued :
      (j : ConversationTurnJob)
      → Memᴰ j queue
      → (¬ Memᴰ j.job_id (map job_key returned))
      → Memᴰ j marked
  unfolding marked returned
  unreturned-queued j m new = elim (Bool-cases (id_in claimed j)) [
    | inr e ↦
        rw e at
          (map-Memᴰ (λ j. if id_in claimed j then set_status extracting now j else j) queue j m)
    | inl e ↦
        let mark = set_status extracting now in
        let kept = map mark (filter (id_in claimed) queue) in
        absurd (
          new (
            map-Memᴰ job_key (sort_by job_first kept) (mark j) (
              (Memᴰ-sort_by job_first (mark j) kept).1 (
                map-Memᴰ mark (filter (id_in claimed) queue) j
                  ((Memᴰ-filter (id_in claimed) j queue).1 (m, e))))))
  ]

-- If no two jobs of the queue share an id, a claim returns as many jobs as its limit and the
-- pending jobs allow; each was pending and is now being extracted, as it is returned and as it
-- stands in the queue; a job whose id is not among the returned ones stays in the queue as it is;
-- and the queue keeps all its jobs' ids in their order.
pub claim_pending_ingestion_jobs_exact :
    (now : String) (queue : Jobs) (limit : ℕ) (out : Queued ConversationTurnJob Jobs)
    → Unique job_key queue
    → claim_pending_ingestion_jobs now queue (some limit) ≡ ok out
    → (limit ≤ count_if is_pending queue → length out.result ≡ limit)
      × (count_if is_pending queue ≤ limit → length out.result ≡ count_if is_pending queue)
      × ((r : ConversationTurnJob) → Memᴰ r out.result → Claimed now queue r × Memᴰ r out.queue)
      × ((j : ConversationTurnJob)
          → Memᴰ j queue
          → (¬ Memᴰ j.job_id (map job_key out.result))
          → Memᴰ j out.queue)
      × (map job_key out.queue ≡ map job_key queue)
unfolding marked returned
claim_pending_ingestion_jobs_exact now queue limit out u h =
    let size = length-claimed now queue limit out u h in
    let (few, many) = length-first_pending queue limit in
    let (claimed, same, q, res) = claim_cases now queue limit out h in
    (
      λ e. size ∙ few e,
      λ e. size ∙ many e,
      λ r m.
          let (j, mj, rj, jn) = claimed_from now queue limit out r h m in
          let (k, mk, ik) = id_in-found (first_pending queue limit) j jn in
          let (mk', pk) = first_pending-Memᴰ queue limit k mk in
          (
            (j, mj, rw (Unique-eq job_key queue j k u mj mk' ik) pk, rj),
            rw (q, same, rj) (marked-queued now (first_pending queue limit) queue j mj jn),
          ),
      λ j m new. rw q (unreturned-queued now claimed queue j m (rw res at new)),
      ap (map job_key) q ∙ map-ids extracting now (id_in claimed) queue,
    )
