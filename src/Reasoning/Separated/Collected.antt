-- ===== src/Reasoning/Separated/Collected.antt =====
-- What the sources, members and contexts that the loops collect say.
use mathlib.Core.List.Memᴰ
use mathlib.Core.Bool.{false≢true}
use nesy_reasoning_mcp.Prelude.{
  ◌≤◌, String, ◌≡◌, sym, ◌∙◌, ◌⊎◌, inl, inr, List, [], ◌∷◌, ◌++◌, All, All-append, Memᴰ, Dict, keys,
  Distinct, Bool-cases, if◌then◌else◌, ◌==◌, text_key, pair_key, list_key, same→eq, eq→same,
  contains, length, length-append, arith,
}
use nesy_reasoning_mcp.Schemas.{RelationRecord, ExclusiveGroupRecord}
use nesy_reasoning_mcp.Normalization.Meaning.{Valuation, Implies, Holds}
use nesy_reasoning_mcp.Reasoning.Separated.{
  MemberContexts, add_context, add_contexts, add_source, context_relations,
}

module _ (compatible : List RelationRecord) (group : ExclusiveGroupRecord) where
  -- The relations of the group's store and the context prove the implication.
  abbrev pub ImpliedIn : String → String → String → Type 0
  ImpliedIn context source member =
      (v : Valuation)
      → All (Holds v) (context_relations compatible group context)
      → Implies v source member

  -- A member with the contexts in which the source implies it, at least one.
  abbrev pub IsMember : String → String × List String → Type 0
  IsMember source (member, contexts) =
      Memᴰ member group.members
      × (1 ≤ length contexts)
      × All (λ context. ImpliedIn context source member) contexts

  abbrev pub AreMembers : String → MemberContexts → Type 0
  AreMembers source hits = All (IsMember source) hits × Distinct (keys hits)

  abbrev pub Implied : String → String → String → Type 0
  Implied context source member = Memᴰ member group.members × ImpliedIn context source member

  with_context :
      (context source member : String) (cs : List String)
      → Implied context source member
      → IsMember source (member, cs)
      → IsMember source (member, if contains cs context then cs else cs ++ (context ∷ []))
  with_context context source member cs (m, i) (n, l, h) = elim (Bool-cases (contains cs context)) [
    | inl e ↦ rw e (n, l, h)
    | inr e ↦ rw e (
      n,
      omega (arith, length-append cs (context ∷ [])),
      All-append (λ c. ImpliedIn c source member) cs (context ∷ []) h (i, tt),
    )
  ]

  keys-add_context :
      (context member a : String) (d : MemberContexts)
      → Memᴰ a (keys (add_context context member d))
      → (a ≡ member) ⊎ Memᴰ a (keys d)
  keys-add_context context member a [] m = Memᴰ.cases_cons m
  keys-add_context context member a ((j, cs) ∷ d) m = elim (Bool-cases (j == member)) [
    | inl e ↦ inr (rw e at m)
    | inr e ↦ elim (Memᴰ.cases_cons (rw e at m)) [
      | inl h ↦ inr (Memᴰ.head h)
      | inr h ↦ elim (keys-add_context context member a d h) [
        | inl q ↦ inl q
        | inr q ↦ inr (Memᴰ.tail q)
      ]
    ]
  ]

  add_context-AreMembers :
      (context source member : String) (d : MemberContexts)
      → Implied context source member
      → AreMembers source d
      → AreMembers source (add_context context member d)
  add_context-AreMembers context source member [] (m, i) h =
      (((m, omega arith, (i, tt)), tt), (Memᴰ.not-nil, tt))
  add_context-AreMembers context source member ((j, cs) ∷ d) p ((h, hs), (new, u)) =
      elim (Bool-cases (j == member)) [
        | inl e ↦
            rw e ((with_context context source j cs (rw (same→eq j member e) p) h, hs), (new, u))
        | inr e ↦
            let (ms, us) = add_context-AreMembers context source member d p (hs, u) in
            rw e (
              (h, ms),
              (
                λ m. elim (keys-add_context context member j d m) [
                  | inl q ↦ false≢true (sym e ∙ eq→same j member q)
                  | inr q ↦ new q
                ],
                us,
              ),
            )
      ]

  add_contexts-AreMembers :
      (context source : String) (members : List String) (d : MemberContexts)
      → All (Implied context source) members
      → AreMembers source d
      → AreMembers source (add_contexts context members d)
  add_contexts-AreMembers context source [] d h p = p
  add_contexts-AreMembers context source (member ∷ members) d (m, h) p =
      add_contexts-AreMembers context source members (add_context context member d) h
        (add_context-AreMembers context source member d m p)

  abbrev pub AreSources : Dict String MemberContexts → Type 0
  AreSources = All (λ (entry : String × MemberContexts). AreMembers entry.0 entry.1)

  pub add_source-AreSources :
      (context source : String) (members : List String) (d : Dict String MemberContexts)
      → All (Implied context source) members
      → AreSources d
      → AreSources (add_source context source members d)
  add_source-AreSources context source members [] h p =
      (add_contexts-AreMembers context source members [] h (tt, tt), tt)
  add_source-AreSources context source members ((j, hits) ∷ d) h (p, ps) =
      elim (Bool-cases (j == source)) [
        | inl e ↦
            rw e (add_contexts-AreMembers context j members hits (rw (same→eq j source e) h) p, ps)
        | inr e ↦ rw e (p, add_source-AreSources context source members d h ps)
      ]
