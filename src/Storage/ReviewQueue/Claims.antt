-- ===== src/Storage/ReviewQueue/Claims.antt =====
-- storage/memory.py: what a claim of review records takes, and what it leaves.
use nesy_reasoning_mcp.Prelude.{
  ℕ, zero, suc, ◌≤◌, ◌≡◌, inl, inr, refl, sym, ◌∙◌, ap, String, true, false, Option, some, [], ◌∷◌,
  map, arith, text_key, if◌then◌else◌, Memᴰ, Memᴰ-filter, Memᴰ-sort_by, Memᴰ-take, Memᴰ-map,
  map-Memᴰ, Bool-cases, contains_iff, filter, length, sort_by, Unique, Unique-eq, List-cases,
  length-sort_by, length-map, length-filter-count_if, count_if-keys, take-Unique, sort_by-Unique,
  filter-Unique, length-take, take-all, count_if,
}
use nesy_reasoning_mcp.Storage.Error.{ok, ok_inj}
use nesy_reasoning_mcp.Storage.Jobs.{Queued}
use nesy_reasoning_mcp.AutoIngest.Records.{ReviewQueueRecord, status_key}
use nesy_reasoning_mcp.Storage.ReviewQueue.{
  Records, record_id, is_due, due_first, first_due, id_among, start_review, or_timestamp,
  claim_pending_review_queue_records,
}

first_due-Memᴰ :
    (due_before : String) (current : Records) (limit : ℕ) (r : ReviewQueueRecord)
    → Memᴰ r (first_due due_before current limit)
    → Memᴰ r current × (is_due due_before r ≡ true)
unfolding first_due
first_due-Memᴰ due_before current limit r m = (Memᴰ-filter (is_due due_before) r current).0 (
    (Memᴰ-sort_by due_first r (filter (is_due due_before) current)).0
      (Memᴰ-take limit (sort_by due_first (filter (is_due due_before) current)) m))

-- In a queue with one record for each id, a record whose id is among the first due ones is due.
pub selected-IsDue :
    (due_before : String) (current : Records) (limit : ℕ) (r : ReviewQueueRecord)
    → Unique record_id current
    → Memᴰ r current
    → id_among (first_due due_before current limit) r ≡ true
    → is_due due_before r ≡ true
selected-IsDue due_before current limit r u m h =
    let selected = first_due due_before current limit in
    let (k, n, e) =
      Memᴰ-map record_id selected r.id ((contains_iff (map record_id selected) r.id).0 h) in
    let (old, due) = first_due-Memᴰ due_before current limit k n in
    rw (Unique-eq record_id current r k u m old e) due

map-unselected :
    (timestamp : String) (current : Records)
    → map (λ r. if id_among [] r then start_review timestamp r else r) current ≡ current
map-unselected timestamp [] = refl
map-unselected timestamp (r ∷ rs) = ap (λ l. r ∷ l) (map-unselected timestamp rs)

filter-unselected : (current : Records) → filter (id_among []) current ≡ []
filter-unselected [] = refl
filter-unselected (r ∷ rs) = filter-unselected rs

-- A claim of the selected records.
abbrev pub Takes : String → Records → Records → Queued ReviewQueueRecord Records → Type 0
Takes timestamp current selected out =
    (out.queue ≡ map (λ r. if id_among selected r then start_review timestamp r else r) current)
    × (out.result
        ≡ sort_by due_first (map (start_review timestamp) (filter (id_among selected) current)))

nothing-Takes :
    (timestamp : String) (current : Records) (out : Queued ReviewQueueRecord Records)
    → ok (record { queue = current; result = [] }) ≡ ok out
    → Takes timestamp current [] out
nothing-Takes timestamp current out h =
    let same = ok_inj _ out h in
    (
      sym (ap (λ o. o.queue) same) ∙ sym (map-unselected timestamp current),
      sym (ap (λ o. o.result) same) ∙ rw (filter-unselected current) refl,
    )

first_due-zero : (due_before : String) (current : Records) → first_due due_before current 0 ≡ []
unfolding first_due
first_due-zero due_before current = refl

pub claim-Takes :
    (timestamp : String) (current : Records) (limit : ℕ) (now : Option String)
    (out : Queued ReviewQueueRecord Records)
    → claim_pending_review_queue_records timestamp current (some limit) now ≡ ok out
    → Takes timestamp current (first_due (or_timestamp now timestamp) current limit) out
unfolding claim_pending_review_queue_records
claim-Takes timestamp current zero now out h =
    rw (first_due-zero (or_timestamp now timestamp) current) (nothing-Takes timestamp current out h)
claim-Takes timestamp current (suc n) now out h =
    elim (List-cases (first_due (or_timestamp now timestamp) current (suc n))) [
      | inl e ↦ rw e (nothing-Takes timestamp current out (rw e at h))
      | inr (r, rs, e) ↦
          let same = ok_inj _ out (rw e at h) in
          rw e (sym (ap (λ o. o.queue) same), sym (ap (λ o. o.result) same))
    ]

first_due-Unique :
    (due_before : String) (current : Records) (limit : ℕ)
    → Unique record_id current
    → Unique record_id (first_due due_before current limit)
unfolding first_due
first_due-Unique due_before current limit u =
    take-Unique record_id limit _
      (sort_by-Unique record_id due_first _ (filter-Unique record_id (is_due due_before) current u))

length-first_due :
    (due_before : String) (current : Records) (limit : ℕ)
    → (limit ≤ count_if (is_due due_before) current
        → length (first_due due_before current limit) ≡ limit)
      × (count_if (is_due due_before) current ≤ limit
          → length (first_due due_before current limit) ≡ count_if (is_due due_before) current)
unfolding first_due
length-first_due due_before current limit =
    let dues = filter (is_due due_before) current in
    let total =
      length-sort_by due_first dues ∙ length-filter-count_if (is_due due_before) current in
    (
      λ h. length-take limit (sort_by due_first dues) (omega (arith, total, h)),
      λ h. ap length (take-all limit (sort_by due_first dues) (omega (arith, total, h))) ∙ total,
    )

stays :
    (timestamp : String) (selected current : Records) (r : ReviewQueueRecord)
    → Memᴰ r current
    → id_among selected r ≡ false
    → Memᴰ r (map (λ r. if id_among selected r then start_review timestamp r else r) current)
stays timestamp selected current r m e =
    rw e at
      (map-Memᴰ (λ r. if id_among selected r then start_review timestamp r else r) current r m)

starts :
    (timestamp : String) (selected current : Records) (r : ReviewQueueRecord)
    → Memᴰ r current
    → id_among selected r ≡ true
    → Memᴰ
        (start_review timestamp r)
        (map (λ r. if id_among selected r then start_review timestamp r else r) current)
starts timestamp selected current r m e =
    rw e at
      (map-Memᴰ (λ r. if id_among selected r then start_review timestamp r else r) current r m)

map-record_id :
    (timestamp : String) (selected current : Records)
    → map record_id (map (λ r. if id_among selected r then start_review timestamp r else r) current)
      ≡ map record_id current
map-record_id timestamp selected [] = refl
map-record_id timestamp selected (r ∷ rs) = elim (Bool-cases (id_among selected r)) [
  | inl e ↦ rw e (ap (λ l. r.id ∷ l) (map-record_id timestamp selected rs))
  | inr e ↦ rw e (ap (λ l. r.id ∷ l) (map-record_id timestamp selected rs))
]

-- A record whose id is not returned was not selected.
unreturned :
    (timestamp : String) (selected current : Records) (r : ReviewQueueRecord)
    → Memᴰ r current
    → (¬ Memᴰ r.id (
        map record_id
          (sort_by due_first (map (start_review timestamp) (filter (id_among selected) current)))))
    → id_among selected r ≡ false
unreturned timestamp selected current r m new = elim (Bool-cases (id_among selected r)) [
  | inr e ↦ e
  | inl e ↦
      let start = start_review timestamp in
      let taken = map start (filter (id_among selected) current) in
      absurd (
        new (
          map-Memᴰ record_id (sort_by due_first taken) (start r) (
            (Memᴰ-sort_by due_first (start r) taken).1 (
              map-Memᴰ start (filter (id_among selected) current) r
                ((Memᴰ-filter (id_among selected) r current).1 (m, e))))))
]

-- A returned record is one that was due, now under review and with one more attempt.
abbrev pub Started : String → String → Records → ReviewQueueRecord → Type 0
Started timestamp due_before current r =
    (old : ReviewQueueRecord) × Memᴰ old current
    × (is_due due_before old ≡ true)
    × (r ≡ start_review timestamp old)

-- If no two records of the review queue share an id, a claim returns as many records as its limit
-- and the due records allow; each was pending and due at the given time, or else at the time of the
-- call, and is now under review with one more attempt, as it is returned and as it stands in the
-- queue; a record whose id is not among the returned ones stays in the queue as it is; and the queue
-- keeps all its records' ids in their order.
pub claim_pending_review_queue_records_exact :
    (timestamp : String) (current : Records) (limit : ℕ) (now : Option String)
    (out : Queued ReviewQueueRecord Records)
    → Unique record_id current
    → claim_pending_review_queue_records timestamp current (some limit) now ≡ ok out
    → (limit ≤ count_if (is_due (or_timestamp now timestamp)) current → length out.result ≡ limit)
      × (count_if (is_due (or_timestamp now timestamp)) current ≤ limit
          → length out.result ≡ count_if (is_due (or_timestamp now timestamp)) current)
      × ((r : ReviewQueueRecord)
          → Memᴰ r out.result
          → Started timestamp (or_timestamp now timestamp) current r × Memᴰ r out.queue)
      × ((r : ReviewQueueRecord)
          → Memᴰ r current
          → (¬ Memᴰ r.id (map record_id out.result))
          → Memᴰ r out.queue)
      × (map record_id out.queue ≡ map record_id current)
claim_pending_review_queue_records_exact timestamp current limit now out u h =
    let due_before = or_timestamp now timestamp in
    let selected = first_due due_before current limit in
    let start = start_review timestamp in
    let taken = filter (id_among selected) current in
    let (q, res) = claim-Takes timestamp current limit now out h in
    let (few, many) = length-first_due due_before current limit in
    let sized =
      ap length res
      ∙ length-sort_by due_first (map start taken)
      ∙ length-map start taken
      ∙ length-filter-count_if (id_among selected) current
      ∙ count_if-keys record_id current selected u (first_due-Unique due_before current limit u)
          (λ r m. (first_due-Memᴰ due_before current limit r m).0) in
    (
      λ e. sized ∙ few e,
      λ e. sized ∙ many e,
      λ r m.
          let (old, n, e) =
            Memᴰ-map start taken r ((Memᴰ-sort_by due_first r (map start taken)).0 (rw res at m)) in
          let (k, p) = (Memᴰ-filter (id_among selected) old current).0 n in
          (
            (old, k, selected-IsDue due_before current limit old u k p, e),
            rw (q, e) (starts timestamp selected current old k p),
          ),
      λ r m new. rw q (
          stays timestamp selected current r m
            (unreturned timestamp selected current r m (rw res at new))),
      ap (map record_id) q ∙ map-record_id timestamp selected current,
    )
