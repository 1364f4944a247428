-- ===== src/Policy/Choice.antt =====
-- What decides a tool call.
use local_mind.Base.{
  ℕ, ◌≤◌, ◌≡◌, ◌⊎◌, refl, ap, sym, subst, ◌∙◌, Bool, true, false, ◌&&◌, ◌||◌, List, [], ◌∷◌, Option,
  none, some, inl, inr, arith, fetchone, fetchone-none-All, select, All, Pairwise, sort_by,
  sort_desc_by-IsOrdered, All-sort_desc_by, All-sort_by, All-select, All-mono, All-of_mem, Memᴰ,
  mem-select, mem_of_select, mem-sort_by, mem-sort_desc_by, fetchone-mem, fetchone-some, All-mem,
  Bool-cases, Option-cases, Text, codes, eq_text,
}
use mathlib.Core.Option.{some-injective}
use local_mind.Policy.Rules.{
  Std, Arg, Context, check_builtin_policies, one_of, egress_tools, rate_limited, bulk_delete,
  egress_blocked, ssrf_blocked, write_blocked,
}
use local_mind.Policy.Enforced.{
  matches-applies, applies, Enforces, decide-Enforces, matches-actions, Decided,
}
use local_mind.Policy.Approvals.{Approval}
use local_mind.Policy.{
  Policy, PolicyResult, PolicyDecision, decision, ToolCall, is_of, load_workspace_policies, matches,
  decide, decide_by, evaluate_policies, evaluate,
}

or_third : (a b c d : Bool) → c ≡ true → a || (b || (c || d)) ≡ true
or_third true b c d h = refl
or_third false true c d h = refl
or_third false false c d h = rw h refl

egress-blocked :
    (tool_name : Text) (context : Context)
    → eq_text context.deployment_mode (codes "strict-local") ≡ true
    → one_of tool_name egress_tools ≡ true
    → egress_blocked tool_name context ≡ true
unfolding egress_blocked
egress-blocked tool_name context s e = rw (s, e) refl

-- The built-in rules look at the deployment mode only for the tools that EGRESS_TOOLS names.
check_builtin_policies-mode :
    (std : Std) (tool_name : Text) (tool_args : List (Text × Arg)) (context : Context) (mode : Text)
    → one_of tool_name egress_tools ≡ false
    → check_builtin_policies std tool_name tool_args (record context { deployment_mode = mode })
      ≡ check_builtin_policies std tool_name tool_args context
unfolding check_builtin_policies rate_limited bulk_delete egress_blocked write_blocked
check_builtin_policies-mode std tool_name tool_args context mode e = ground (arith, e)

-- In strict-local mode a tool that EGRESS_TOOLS names is denied, whatever the workspace's policies say, and no
-- approval is asked for. For each other tool the built-in rules are the same as in any other deployment mode,
-- so that the mode itself keeps none of them from the network.
pub evaluate-strict_local :
    (std : Std) (call : ToolCall) (policies : List Policy) (approvals : List Approval) (mode : Text)
    → eq_text call.context.deployment_mode (codes "strict-local") ≡ true
    → let elsewhere : Context = record call.context { deployment_mode = mode } in
      ((one_of call.tool_name egress_tools ≡ true)
        × (evaluate std call policies approvals
            ≡ (some (decision PolicyResult.deny none none), approvals)))
      ⊎ ((one_of call.tool_name egress_tools ≡ false)
          × (check_builtin_policies std call.tool_name call.tool_args elsewhere
              ≡ check_builtin_policies std call.tool_name call.tool_args call.context))
unfolding evaluate check_builtin_policies
evaluate-strict_local std call policies approvals mode strict =
    elim (Bool-cases (one_of call.tool_name egress_tools)) [
      | inl egress ↦
          let blocked = egress-blocked call.tool_name call.context strict egress in
          inl (
            egress,
            rw
                (or_third (rate_limited call.context) (bulk_delete call.tool_name call.context) _
                  (ssrf_blocked std call.tool_name call.tool_args
                    || write_blocked call.tool_name call.tool_args call.context)
                  blocked)
                refl,
          )
      | inr other ↦ inr (
        other,
        check_builtin_policies-mode std call.tool_name call.tool_args call.context mode other,
      )
    ]

module _ (std : Std) (call : ToolCall) (approvals : List Approval) where
  abbrev by_first : Option Policy → Option PolicyDecision × List Approval
  by_first none = (some (decision PolicyResult.allow none none), approvals)
  by_first (some p) = decide_by call p p.actions approvals

  evaluate_policies-first :
      (policies : List Policy)
      → evaluate_policies std call policies approvals
        ≡ by_first (fetchone (matches std call) policies)
  unfolding evaluate_policies
  evaluate_policies-first [] = refl
  evaluate_policies-first (p ∷ policies) = elim (Bool-cases (matches std call p)) [
    | inl t ↦ rw t refl
    | inr f ↦ rw f (evaluate_policies-first policies)
  ]

-- The first row that satisfies a condition, in a list that is in the order of a key, has the greatest key of
-- those that satisfy it.
first-greatest :
    (q : Policy → Bool) (policies : List Policy) (p : Policy)
    → Pairwise (λ a b. b.priority ≤ a.priority) policies
    → fetchone q policies ≡ some p
    → All (λ r. r.priority ≤ p.priority) (select q policies)
first-greatest q [] p order h = cc
first-greatest q (r ∷ policies) p order h = elim (Bool-cases (q r)) [
  | inl t ↦
      let same : r ≡ p = some-injective _ _ (sym (rw t refl) ∙ h) in
      rw t (
        subst
          (λ x. (r.priority ≤ x.priority) × All (λ y. y.priority ≤ x.priority) (select q policies))
          same (omega arith, All-select _ q policies order.0))
  | inr f ↦ rw f (first-greatest q policies p order.1 (sym (rw f refl) ∙ h))
]

loaded-IsOrdered :
    (workspace_id : ℕ) (policies : List Policy)
    → Pairwise (λ a b. b.priority ≤ a.priority) (load_workspace_policies workspace_id policies)
unfolding load_workspace_policies
loaded-IsOrdered workspace_id policies =
    sort_desc_by-IsOrdered {A = Policy} (λ p. p.priority)
      (sort_by (λ p. p.created_at) (select (λ p. is_of workspace_id p && p.enabled) policies))

module _ (std : Std) (call : ToolCall) (policies : List Policy) where
  abbrev own : Policy → Bool
  own p = is_of call.context.workspace_id p && p.enabled

  abbrev loaded : List Policy
  loaded = load_workspace_policies call.context.workspace_id policies

  -- A policy of the table that is the workspace's and enabled is loaded, and no other is.
  loaded_of : (P : Policy → Type 0) → All P loaded → All (λ q. (own q ≡ false) ⊎ P q) policies
  unfolding load_workspace_policies
  loaded_of P h =
      All-of_mem (λ q. (own q ≡ false) ⊎ P q) policies
        (λ q here. elim (Bool-cases (own q)) [
          | inr f ↦ inl f
          | inl t ↦ inr (
              All-mem P loaded h q (
                mem-sort_desc_by (λ p. p.priority) q
                  (sort_by (λ p. p.created_at) (select own policies))
                  (mem-sort_by (λ p. p.created_at) q (select own policies)
                    (mem-select own policies q here t))))
        ])

  mem_of_loaded : (p : Policy) → Memᴰ p loaded → Memᴰ p policies × (own p ≡ true)
  unfolding load_workspace_policies
  mem_of_loaded p m =
      let All_own : All (λ q. Memᴰ q policies × (own q ≡ true)) loaded =
        All-sort_desc_by (λ q. q.priority) _ _
          (All-sort_by (λ q. q.created_at) _ _
            (All-of_mem (λ q. Memᴰ q policies × (own q ≡ true)) (select own policies)
              (λ q h. mem_of_select own policies q h))) in
      All-mem _ loaded All_own p m

  none-applies :
      fetchone (matches std call) loaded ≡ none → All (λ q. applies std call q ≡ false) policies
  none-applies n =
      All-mono _ _ policies
        (λ q h. elim h [
          | inl f ↦ rw f refl
          | inr f ↦ let g = sym (matches-applies std call q) ∙ f in ground (arith, g)
        ])
        (loaded_of (λ q. matches std call q ≡ false)
          (fetchone-none-All (matches std call) loaded n))

  first-applies :
      (p : Policy)
      → fetchone (matches std call) loaded ≡ some p
      → All (λ q. (applies std call q ≡ false) ⊎ (q.priority ≤ p.priority)) policies
  first-applies p s =
      let Below : Policy → Type 0 = λ q. (matches std call q ≡ false) ⊎ (q.priority ≤ p.priority) in
      let chosen =
        first-greatest (matches std call) loaded p
          (loaded-IsOrdered call.context.workspace_id policies) s in
      let below : All Below loaded = All-of_mem Below loaded (λ q m.
        elim (Bool-cases (matches std call q)) [
          | inr f ↦ inl f
          | inl t ↦ inr (All-mem _ _ chosen q (mem-select (matches std call) loaded q m t))
        ]) in
      All-mono _ _ policies
        (λ q h. elim h [
          | inl f ↦ inl (rw f refl)
          | inr b ↦ elim b [
            | inl f ↦ let g = sym (matches-applies std call q) ∙ f in inl (ground (arith, g))
            | inr le ↦ inr le
          ]
        ])
        (loaded_of Below below)

-- Where a built-in rule fires, the tool is denied. Else an enabled policy of the workspace that is readable and
-- whose conditions hold decides, and none of those in the table has a higher priority: the answer is its deny,
-- dry run or allow, with its id, or, where it requires an approval, that with the id of a new pending row, which
-- expires after its minutes (an id that is taken raises). Where no such policy is in the table, the tool is
-- allowed. Only a required approval changes the table of approvals.
pub evaluate-exact :
    (std : Std) (call : ToolCall) (policies : List Policy) (approvals : List Approval)
    → Decided std call policies approvals (evaluate std call policies approvals)
unfolding evaluate
evaluate-exact std call policies approvals =
    let rows : List Policy = load_workspace_policies call.context.workspace_id policies in
    let first = evaluate_policies-first std call approvals rows in
    elim (Bool-cases (check_builtin_policies std call.tool_name call.tool_args call.context)) [
      | inl t ↦ inl (t, rw t refl)
      | inr f ↦ elim (Option-cases (fetchone (matches std call) rows)) [
        | inl n ↦ inr (
          f,
          inl (none-applies std call policies n, rw f (first ∙ ap (by_first std call approvals) n)),
        )
        | inr (p, s) ↦
            let fits = fetchone-some (matches std call) rows p s in
            let holds = sym (matches-applies std call p) ∙ fits in
            let (here, mine) =
              mem_of_loaded std call policies p (fetchone-mem (matches std call) rows p s) in
            let (action, known) = matches-actions std call p fits in
            let outcome : evaluate std call policies approvals ≡ decide call p action approvals =
              rw f (
                first
                ∙ ap (by_first std call approvals) s
                ∙ ap (λ a. decide_by call p a approvals) known) in
            inr (
              f,
              inr (
                p,
                here,
                rw (mine, holds) refl,
                first-applies std call policies p s,
                (
                  action,
                  known,
                  subst (Enforces call p action approvals) (sym outcome)
                      (decide-Enforces call p action approvals),
                ),
              ),
            )
      ]
    ]
