-- ===== src/Policy/Approvals/Timely.antt =====
-- Who decides late decides nothing, but for the time between the check and the write.
use local_mind.Base.{
  ℕ, ◌+◌, ◌≤◌, ◌<◌, ◌≡◌, ◌⊎◌, refl, ap, sym, subst, ◌∙◌, Bool, true, false, ◌&&◌, List, [], ◌∷◌,
  Option, none, some, inl, inr, arith, leb, ◌==◌, if◌then◌else◌, fetchone, exists, update, updated,
  Bool-cases, Option-cases, All, All-update, All-append, All-both, All-mono, Pairwise,
  Pairwise-update, Pairwise-snoc,
}
use mathlib.Core.Option.{some-injective}
use local_mind.Policy.Approvals.{
  Approval, ApprovalStatus, pending, approved, denied, expired, NewApproval, is_pending,
  with_approval_id, new_approval, create_approval, mark_expired, check_approval, verdict,
  write_decision, decide_if, decide_approval, expire_stale_approvals,
}
use local_mind.Policy.Approvals.Final.{
  Call, creates, checks, decides, expires, perform, run, check_approval-cases,
}

abbrev pub is_decided : ApprovalStatus → Bool
is_decided approved = true
is_decided denied = true
is_decided _ = false

module _ (delay : ℕ) where
  -- An approval that is decided was decided before it had expired for `delay`.
  abbrev pub Timely : Approval → Type 0
  Timely a =
      (is_decided a.status ≡ false)
      ⊎ ((t : ℕ) × (a.decided_at ≡ some t) × (t < a.expires_at + delay))

  -- A decision is written at most `delay` after it is checked.
  abbrev pub IsPrompt : ℕ × Call → Type 0
  IsPrompt (now, creates a approval_id) = Unit {0}
  IsPrompt (now, checks approval_id) = Unit {0}
  IsPrompt (now, decides approval_id decided_by approves reason later) = later ≤ now + delay
  IsPrompt (now, expires) = Unit {0}

  abbrev Distinct : List Approval → Type 0
  Distinct approvals = Pairwise (λ a b. (b.id == a.id) ≡ false) approvals

  abbrev Inv : List Approval → Type 0
  Inv approvals = All Timely approvals × Distinct approvals

  everywhere :
      (P : Approval → Type 0) (approvals : List Approval) → ((a : Approval) → P a) → All P approvals
  everywhere P [] h = tt
  everywhere P (a ∷ approvals) h = (h a, everywhere P approvals h)

  -- An update that keeps the ids, and after which each row that it touches is timely.
  update-Inv :
      (p : Approval → Bool) (f : Approval → Approval) (approvals : List Approval)
      → ((a : Approval) → (f a).id ≡ a.id)
      → All (λ a. p a ≡ true → Timely (f a)) approvals
      → Inv approvals
      → Inv (update p f approvals)
  update-Inv p f approvals same after (timely, distinct) = (
    All-update p f (λ a. Timely a × (p a ≡ true → Timely (f a))) Timely approvals
        (λ a h. elim (Bool-cases (p a)) [
          | inl t ↦ subst (λ b. Timely (if b then f a else a)) (sym t) (h.1 t)
          | inr n ↦ subst (λ b. Timely (if b then f a else a)) (sym n) h.0
        ])
        (All-both _ _ approvals timely after),
    Pairwise-update p f (λ a b. (b.id == a.id) ≡ false) approvals (λ a b e. rw (kept a, kept b) e)
        distinct,
  )
    where
      kept : (a : Approval) → (updated p f a).id ≡ a.id
      kept a = elim (Bool-cases (p a)) [ inl t ↦ rw t (same a) | inr n ↦ rw n refl ]

  mark_expired-Inv :
      (approval_id : ℕ) (approvals : List Approval)
      → Inv approvals
      → Inv (mark_expired approval_id approvals)
  unfolding mark_expired
  mark_expired-Inv approval_id approvals inv =
      update-Inv (with_approval_id approval_id) (λ a. record a { status = expired }) approvals
        (λ a. refl) (everywhere _ approvals (λ a t. inl refl)) inv

  check_approval-Inv :
      (approval_id now : ℕ) (approvals : List Approval)
      → Inv approvals
      → Inv (check_approval approval_id now approvals).1
  check_approval-Inv approval_id now approvals inv =
      elim (check_approval-cases approval_id now approvals) [
        | inl same ↦ subst Inv (sym same) inv
        | inr marked ↦ subst Inv (sym marked) (mark_expired-Inv approval_id approvals inv)
      ]

  -- A check that finds the approval pending finds a row that has not expired.
  check_approval-pending :
      (approval_id now : ℕ) (approvals : List Approval)
      → (check_approval approval_id now approvals).0 ≡ some pending
      → (a : Approval) × (fetchone (with_approval_id approval_id) approvals ≡ some a)
        × (now < a.expires_at)
        × ((check_approval approval_id now approvals).1 ≡ approvals)
  unfolding check_approval
  check_approval-pending approval_id now approvals h =
      elim (Option-cases (fetchone (with_approval_id approval_id) approvals)) [
        | inl n ↦
            let said : (check_approval approval_id now approvals).0 ≡ none =
              rw (n, check_approval) refl in
            cc
        | inr (a, e) ↦ elim (Bool-cases (is_pending a.status && leb a.expires_at now)) [
          | inl t ↦
              let said : (check_approval approval_id now approvals).0 ≡ some expired =
                rw (e, t, check_approval) refl in
              absurd (not_expired (some-injective _ _ (sym said ∙ h)))
          | inr f ↦
              let said : (check_approval approval_id now approvals).0 ≡ some a.status =
                rw (e, f, check_approval) refl in
              let waits : a.status ≡ pending = some-injective _ _ (sym said ∙ h) in
              let ready : is_pending a.status ≡ true = ap is_pending waits in
              (a, e, ground arith, rw (e, f, check_approval) refl)
        ]
      ]
    where
      not_expired : expired ≡ pending → ⊥
      not_expired e = cc

  -- Ids being distinct, what holds of the row that is found holds of each row of the id.
  found-All :
      (approval_id now : ℕ) (approvals : List Approval) (a : Approval)
      → Distinct approvals
      → fetchone (with_approval_id approval_id) approvals ≡ some a
      → now < a.expires_at
      → All (λ r. with_approval_id approval_id r ≡ true → now < r.expires_at) approvals
  found-All approval_id now [] a distinct h lt = tt
  found-All approval_id now (r ∷ approvals) a distinct h lt =
      elim (Bool-cases (with_approval_id approval_id r)) [
        | inl t ↦
            let same : r ≡ a = some-injective _ _ (sym (rw t refl) ∙ h) in
            let later : now < r.expires_at = subst (λ x. now < x.expires_at) (sym same) lt in
            ((λ _. later), All-mono _ _ approvals (λ s e i. absurd (ground arith)) distinct.0)
        | inr n ↦ (
          (λ t. absurd (ground arith)),
          found-All approval_id now approvals a distinct.1 (sym (rw n refl) ∙ h) lt,
        )
      ]

  decided-Timely :
      (approves : Bool) (decided_by reason now later : ℕ) (a : Approval)
      → later ≤ now + delay
      → now < a.expires_at
      → Timely (record a {
        status = verdict approves;
        decided_by = some decided_by;
        decided_at = some later;
        reason = some reason;
      })
  decided-Timely approves decided_by reason now later a le lt = inr (later, refl, omega arith)

  decide_approval-Inv :
      (approval_id decided_by reason now later : ℕ) (approves : Bool) (approvals : List Approval)
      → later ≤ now + delay
      → Inv approvals
      → Inv (decide_approval approval_id decided_by approves reason now later approvals).1
  unfolding decide_approval
  decide_approval-Inv approval_id decided_by reason now later approves approvals le inv =
      by_status (check_approval approval_id now approvals).0 refl
    where
      by_status :
          (status : Option ApprovalStatus)
          → (check_approval approval_id now approvals).0 ≡ status
          → Inv
              (decide_if status approval_id decided_by approves reason later
                (check_approval approval_id now approvals).1).1
      by_status none e = check_approval-Inv approval_id now approvals inv
      by_status (some approved) e = check_approval-Inv approval_id now approvals inv
      by_status (some denied) e = check_approval-Inv approval_id now approvals inv
      by_status (some expired) e = check_approval-Inv approval_id now approvals inv
      by_status (some pending) e =
          let (a, found, lt, same) = check_approval-pending approval_id now approvals e in
          subst (λ x. Inv (write_decision approval_id decided_by approves reason later x))
            (sym same)
            (update-Inv (with_approval_id approval_id) _ approvals (λ r. refl)
              (All-mono _ _ approvals
                (λ r k t. decided-Timely approves decided_by reason now later r le (k t))
                (found-All approval_id now approvals a inv.1 found lt))
              inv)

  expire_stale_approvals-Inv :
      (now : ℕ) (approvals : List Approval)
      → Inv approvals
      → Inv (expire_stale_approvals now approvals).1
  unfolding expire_stale_approvals
  expire_stale_approvals-Inv now approvals inv =
      update-Inv (λ a. is_pending a.status && leb a.expires_at now)
        (λ a. record a { status = expired }) approvals (λ a. refl)
        (everywhere _ approvals (λ a t. inl refl)) inv

  absent-All :
      (approval_id : ℕ) (approvals : List Approval)
      → exists (with_approval_id approval_id) approvals ≡ false
      → All (λ a. (approval_id == a.id) ≡ false) approvals
  absent-All approval_id [] h = tt
  absent-All approval_id (a ∷ approvals) h =
      (ground arith, absent-All approval_id approvals (ground arith))

  create_approval-Inv :
      (n : NewApproval) (approval_id now : ℕ) (approvals : List Approval)
      → Inv approvals
      → Inv (create_approval n approval_id now approvals).1
  unfolding create_approval
  create_approval-Inv n approval_id now approvals (timely, distinct) =
      elim (Bool-cases (exists (with_approval_id approval_id) approvals)) [
        | inl t ↦ rw t (timely, distinct)
        | inr f ↦
            let row = new_approval n approval_id now in
            rw f (
              All-append Timely approvals (row ∷ []) timely (inl refl, tt),
              Pairwise-snoc (λ a b. (b.id == a.id) ≡ false) approvals row distinct
                  (absent-All approval_id approvals f),
            )
      ]

  perform-Inv :
      (now : ℕ) (call : Call) (approvals : List Approval)
      → IsPrompt (now, call)
      → Inv approvals
      → Inv (perform now call approvals)
  perform-Inv now (creates n approval_id) approvals prompt inv =
      create_approval-Inv n approval_id now approvals inv
  perform-Inv now (checks approval_id) approvals prompt inv =
      check_approval-Inv approval_id now approvals inv
  perform-Inv now (decides approval_id decided_by approves reason later) approvals prompt inv =
      decide_approval-Inv approval_id decided_by reason now later approves approvals prompt inv
  perform-Inv now expires approvals prompt inv = expire_stale_approvals-Inv now approvals inv

  run-Inv :
      (calls : List (ℕ × Call)) (approvals : List Approval)
      → All IsPrompt calls
      → Inv approvals
      → Inv (run calls approvals)
  unfolding run
  run-Inv [] approvals prompt inv = inv
  run-Inv ((now, call) ∷ calls) approvals (p, prompt) inv =
      run-Inv calls (perform now call approvals) prompt (perform-Inv now call approvals p inv)

-- After any sequence of calls on an empty table, at any times, in which each decision is written at most
-- `delay` after its check read the clock, each approval that is approved or denied has the time of its decision,
-- which is before its expiry time plus that delay.
pub run-Timely :
    (delay : ℕ) (calls : List (ℕ × Call))
    → All (IsPrompt delay) calls
    → All (Timely delay) (run calls [])
run-Timely delay calls prompt = (run-Inv delay calls [] prompt (tt, tt)).0
