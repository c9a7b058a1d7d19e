-- ===== src/Scheduler/Schemas/Validated.antt =====
-- auto_ingest/scheduler.py: the validated source inputs of a job.
use mathlib.Core.Path.{subst}
use nesy_reasoning_mcp.Prelude.{
  ◌≡◌, refl, sym, ap, true, false, Bool-cases, inl, inr, ◌&&◌, ◌||◌, not, String, Option, some,
  none, some_inj, bind_some, ◌>>=◌, List, [], ◌∷◌, map, any, is_empty, ◌==◌, text_key, arith,
}
use nesy_reasoning_mcp.Text.{strip}
use nesy_reasoning_mcp.Text.Stripped.{strip-strip}
use nesy_reasoning_mcp.Scheduler.Schemas.{
  SourceConfig, strip_required_text, strip_optional_text, strip_string_lists, strip_texts,
  strip_lists, require_source, text_given, validate_source_config,
}

-- A block goes on with the value of its first call.
then_some {ℓ κ} :
    {A : Type ℓ} {B : Type κ} {o : Option A} {a : A} (f : A → Option B) {b : Option B}
    → o ≡ some a
    → f a ≡ b
    → (o >>= f) ≡ b
then_some f e h = rw e h

strip_required_text_again :
    (value text : String)
    → strip_required_text value ≡ some text
    → strip_required_text text ≡ some text
strip_required_text_again value text h = elim (Bool-cases (strip value == "")) [
  | inl empty ↦ let no : none ≡ some text = rw empty at h in absurd (ground arith)
  | inr filled ↦
      let e : strip value ≡ text = some_inj _ _ (rw filled at h) in
      rw (sym e) (rw (strip-strip value) (rw filled refl))
]

strip_optional_text_again :
    (value text : Option String)
    → strip_optional_text value ≡ some text
    → strip_optional_text text ≡ some text
strip_optional_text_again none text h = rw (sym (some_inj _ _ h)) refl
strip_optional_text_again (some value) text h =
    let (stripped, e, h1) = bind_some (strip_required_text value) _ text h in
    rw (sym (some_inj _ _ h1)) (rw (strip_required_text_again value stripped e) refl)

map-strip : (values : List String) → map strip (map strip values) ≡ map strip values
map-strip [] = refl
map-strip (v ∷ vs) = rw (strip-strip v) (ap (λ l. strip v ∷ l) (map-strip vs))

strip_string_lists_again :
    (values texts : List String)
    → strip_string_lists values ≡ some texts
    → strip_string_lists texts ≡ some texts
strip_string_lists_again values texts h =
    elim (Bool-cases (any (λ item. item == "") (map strip values))) [
      | inl empty ↦ let no : none ≡ some texts = rw empty at h in absurd (ground arith)
      | inr filled ↦
          let e : map strip values ≡ texts = some_inj _ _ (rw filled at h) in
          rw (sym e) (rw (map-strip values) (rw filled refl))
    ]

-- There is an input, and a crawl has URLs.
abbrev pub HasSource : SourceConfig → Type 0
HasSource c =
    ((text_given c.input_path
        || (not (is_empty c.urls)
            || (text_given c.retrieval_input_path || not (is_empty c.search_queries))))
      ≡ true)
    × ((c.crawl && is_empty c.urls) ≡ false)

require_source-HasSource : (c d : SourceConfig) → require_source c ≡ some d → (c ≡ d) × HasSource c
unfolding require_source
require_source-HasSource c d h =
    elim (Bool-cases (
      text_given c.input_path
      || (not (is_empty c.urls)
          || (text_given c.retrieval_input_path || not (is_empty c.search_queries))))) [
            | inr none_given ↦ let no : none ≡ some d = rw none_given at h in absurd (ground arith)
            | inl one_given ↦ elim (Bool-cases (c.crawl && is_empty c.urls)) [
              | inl lost ↦
                  let no : none ≡ some d = rw (one_given, lost) at h in absurd (ground arith)
              | inr fine ↦ (some_inj _ _ (rw (one_given, fine) at h), (one_given, fine))
            ]
          ]

HasSource-require_source : (c : SourceConfig) → HasSource c → require_source c ≡ some c
unfolding require_source
HasSource-require_source c (one_given, fine) = rw (one_given, fine) refl

-- The validators leave the texts, or the lists, as they are.
abbrev TextsStripped : SourceConfig → Type 0
TextsStripped c =
    (strip_optional_text c.input_path ≡ some c.input_path)
    × (strip_optional_text c.retrieval_input_path ≡ some c.retrieval_input_path)
    × (strip_optional_text c.task ≡ some c.task)
    × (strip_optional_text c.question ≡ some c.question)
    × (strip_required_text c.search_api_key_env ≡ some c.search_api_key_env)

abbrev ListsStripped : SourceConfig → Type 0
ListsStripped c =
    (strip_string_lists c.urls ≡ some c.urls)
    × (strip_string_lists c.search_queries ≡ some c.search_queries)
    × (strip_string_lists c.search_include_domains ≡ some c.search_include_domains)
    × (strip_string_lists c.search_exclude_domains ≡ some c.search_exclude_domains)
    × (strip_string_lists c.crawl_allow_domains ≡ some c.crawl_allow_domains)

strip_texts-TextsStripped : (c d : SourceConfig) → strip_texts c ≡ some d → TextsStripped d
unfolding strip_texts
strip_texts-TextsStripped c d h =
    let (a1, e1, h1) = bind_some (strip_optional_text c.input_path) _ d h in
    let (a2, e2, h2) = bind_some (strip_optional_text c.retrieval_input_path) _ d h1 in
    let (a3, e3, h3) = bind_some (strip_optional_text c.task) _ d h2 in
    let (a4, e4, h4) = bind_some (strip_optional_text c.question) _ d h3 in
    let (a5, e5, h5) = bind_some (strip_required_text c.search_api_key_env) _ d h4 in
    subst TextsStripped (some_inj _ _ h5) (
      strip_optional_text_again c.input_path a1 e1,
      strip_optional_text_again c.retrieval_input_path a2 e2,
      strip_optional_text_again c.task a3 e3,
      strip_optional_text_again c.question a4 e4,
      strip_required_text_again c.search_api_key_env a5 e5,
    )

-- The lists' validators keep the texts.
strip_lists-ListsStripped :
    (c d : SourceConfig)
    → strip_lists c ≡ some d
    → TextsStripped c
    → TextsStripped d × ListsStripped d
unfolding strip_lists
strip_lists-ListsStripped c d h texts =
    let (a1, e1, h1) = bind_some (strip_string_lists c.urls) _ d h in
    let (a2, e2, h2) = bind_some (strip_string_lists c.search_queries) _ d h1 in
    let (a3, e3, h3) = bind_some (strip_string_lists c.search_include_domains) _ d h2 in
    let (a4, e4, h4) = bind_some (strip_string_lists c.search_exclude_domains) _ d h3 in
    let (a5, e5, h5) = bind_some (strip_string_lists c.crawl_allow_domains) _ d h4 in
    subst (λ x. TextsStripped x × ListsStripped x) (some_inj _ _ h5)
      (
        texts,
        (
          strip_string_lists_again c.urls a1 e1,
          strip_string_lists_again c.search_queries a2 e2,
          strip_string_lists_again c.search_include_domains a3 e3,
          strip_string_lists_again c.search_exclude_domains a4 e4,
          strip_string_lists_again c.crawl_allow_domains a5 e5,
        ),
      )

strip_texts_stripped : (c : SourceConfig) → TextsStripped c → strip_texts c ≡ some c
unfolding strip_texts
strip_texts_stripped c (e1, e2, e3, e4, e5) =
    then_some _ e1 (then_some _ e2 (then_some _ e3 (then_some _ e4 (then_some _ e5 refl))))

strip_lists_stripped : (c : SourceConfig) → ListsStripped c → strip_lists c ≡ some c
unfolding strip_lists
strip_lists_stripped c (e1, e2, e3, e4, e5) =
    then_some _ e1 (then_some _ e2 (then_some _ e3 (then_some _ e4 (then_some _ e5 refl))))

-- The validator's answer has a source path, URL, retrieval batch or search query, and URLs if it
-- crawls; and validating it again, as the store does when it reads the job back, changes nothing.
pub validate_source_config_again :
    (c d : SourceConfig)
    → validate_source_config c ≡ some d
    → HasSource d × (validate_source_config d ≡ some d)
unfolding validate_source_config
validate_source_config_again c d h =
    let (t, et, h1) = bind_some (strip_texts c) _ d h in
    let (l, el, h2) = bind_some (strip_lists t) _ d h1 in
    let (same, has) = require_source-HasSource l d h2 in
    let (texts, lists) = strip_lists-ListsStripped t l el (strip_texts-TextsStripped c t et) in
    subst (λ x. HasSource x × (validate_source_config x ≡ some x)) same
      (
        has,
        then_some _ (strip_texts_stripped l texts)
            (then_some _ (strip_lists_stripped l lists) (HasSource-require_source l has)),
      )
