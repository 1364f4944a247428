-- ===== src/Policy/Approvals/Final.antt =====
-- A decision stands, and is made in time.
use local_mind.Base.{
  ℕ, ◌≡◌, ◌⊎◌, refl, ap, sym, subst, ◌∙◌, Bool, true, false, ◌&&◌, List, [], ◌∷◌, Option, none,
  some, inl, inr, arith, leb, ◌==◌, ==_iff, fetchone, fetchone-insert_hit, exists, update,
  Bool-cases, Option-cases,
}
use mathlib.Core.Option.{some-injective}
use local_mind.Policy.Approvals.{
  Approval, ApprovalStatus, pending, approved, denied, expired, NewApproval, is_pending,
  with_approval_id, new_approval, create_approval, mark_expired, check_approval, decide_if,
  decide_approval, expire_stale_approvals,
}

-- The calls of the program, each at a time. A decision is written with a `later` reading of the clock.
pub data Call : Type 0 where
  creates : NewApproval → (approval_id : ℕ) → Call
  checks : (approval_id : ℕ) → Call
  decides : (approval_id decided_by : ℕ) → (approves : Bool) → (reason later : ℕ) → Call
  expires : Call

abbrev pub perform : (now : ℕ) → Call → List Approval → List Approval
perform now (creates a approval_id) approvals = (create_approval a approval_id now approvals).1
perform now (checks approval_id) approvals = (check_approval approval_id now approvals).1
perform now (decides approval_id decided_by approves reason later) approvals =
    (decide_approval approval_id decided_by approves reason now later approvals).1
perform now expires approvals = (expire_stale_approvals now approvals).1

unfoldable pub run : List (ℕ × Call) → List Approval → List Approval
run [] approvals = approvals
run ((now, call) ∷ calls) approvals = run calls (perform now call approvals)

-- The table has this row under its id.
abbrev pub Stands : Approval → List Approval → Type 0
Stands a approvals = fetchone (with_approval_id a.id) approvals ≡ some a

-- An update that does not touch the row that a condition finds.
fetchone-update_miss :
    (p q : Approval → Bool) (f : Approval → Approval) (rows : List Approval) (a : Approval)
    → ((r : Approval) → q (f r) ≡ q r)
    → p a ≡ false
    → fetchone q rows ≡ some a
    → fetchone q (update p f rows) ≡ some a
fetchone-update_miss p q f [] a keep miss h = cc
fetchone-update_miss p q f (r ∷ rows) a keep miss h = elim (Bool-cases (q r)) [
  | inl t ↦
      let same : r ≡ a = some-injective _ _ (sym (rw t refl) ∙ h) in
      let spared : p r ≡ false = ap p same ∙ miss in rw (spared, t) (ap some same)
  | inr e ↦
      let rest = fetchone-update_miss p q f rows a keep miss (sym (rw e refl) ∙ h) in
      elim (Bool-cases (p r)) [
        | inl t ↦ let out : q (f r) ≡ false = keep r ∙ e in rw (t, out) rest
        | inr n ↦ rw (n, e) rest
      ]
]

-- A check returns the table as it was, or with the row marked.
pub check_approval-cases :
    (approval_id now : ℕ) (approvals : List Approval)
    → ((check_approval approval_id now approvals).1 ≡ approvals)
      ⊎ ((check_approval approval_id now approvals).1 ≡ mark_expired approval_id approvals)
unfolding check_approval
check_approval-cases approval_id now approvals =
    elim (Option-cases (fetchone (with_approval_id approval_id) approvals)) [
      | inl n ↦ inl (rw (n, check_approval) refl)
      | inr (b, e) ↦ elim (Bool-cases (is_pending b.status && leb b.expires_at now)) [
        | inl t ↦ inr (rw (e, t, check_approval) refl)
        | inr f ↦ inl (rw (e, f, check_approval) refl)
      ]
    ]

decide_if-settled :
    (status : ApprovalStatus) (approval_id decided_by reason now : ℕ) (approves : Bool)
    (approvals : List Approval)
    → is_pending status ≡ false
    → decide_if (some status) approval_id decided_by approves reason now approvals
      ≡ (false, approvals)
decide_if-settled pending approval_id decided_by reason now approves approvals e = cc
decide_if-settled approved approval_id decided_by reason now approves approvals e = refl
decide_if-settled denied approval_id decided_by reason now approves approvals e = refl
decide_if-settled expired approval_id decided_by reason now approves approvals e = refl

module _ (a : Approval) (settled : is_pending a.status ≡ false) where
  -- The statements on another id.
  update-Stands :
      (approval_id : ℕ) (f : Approval → Approval) (approvals : List Approval)
      → ((r : Approval) → (f r).id ≡ r.id)
      → (approval_id == a.id) ≡ false
      → Stands a approvals
      → Stands a (update (with_approval_id approval_id) f approvals)
  update-Stands approval_id f approvals same other h =
      fetchone-update_miss (with_approval_id approval_id) (with_approval_id a.id) f approvals a
        (λ r. ap (λ i. i == a.id) (same r)) (ground (arith, other)) h

  mark_expired-Stands :
      (approval_id : ℕ) (approvals : List Approval)
      → (approval_id == a.id) ≡ false
      → Stands a approvals
      → Stands a (mark_expired approval_id approvals)
  unfolding mark_expired
  mark_expired-Stands approval_id approvals other h =
      update-Stands approval_id _ approvals (λ r. refl) other h

  check_approval-other :
      (approval_id now : ℕ) (approvals : List Approval)
      → (approval_id == a.id) ≡ false
      → Stands a approvals
      → Stands a (check_approval approval_id now approvals).1
  check_approval-other approval_id now approvals other h =
      elim (check_approval-cases approval_id now approvals) [
        | inl same ↦ subst (Stands a) (sym same) h
        | inr marked ↦
            subst (Stands a) (sym marked) (mark_expired-Stands approval_id approvals other h)
      ]

  -- The check of a settled row itself.
  check_approval_self :
      (approval_id now : ℕ) (approvals : List Approval)
      → (approval_id == a.id) ≡ true
      → Stands a approvals
      → check_approval approval_id now approvals ≡ (some a.status, approvals)
  unfolding check_approval
  check_approval_self approval_id now approvals self h =
      let found : fetchone (with_approval_id approval_id) approvals ≡ some a =
        subst (λ i. fetchone (with_approval_id i) approvals ≡ some a)
          (sym ((==_iff approval_id a.id).0 self)) h in
      rw (found, settled, check_approval) refl

  check_approval-Stands :
      (approval_id now : ℕ) (approvals : List Approval)
      → Stands a approvals
      → Stands a (check_approval approval_id now approvals).1
  check_approval-Stands approval_id now approvals h = elim (Bool-cases (approval_id == a.id)) [
    | inl self ↦
        subst (λ r. Stands a r.1) (sym (check_approval_self approval_id now approvals self h)) h
    | inr other ↦ check_approval-other approval_id now approvals other h
  ]

  decide_if-Stands :
      (status : Option ApprovalStatus) (approval_id decided_by reason now : ℕ) (approves : Bool)
      (approvals : List Approval)
      → (approval_id == a.id) ≡ false
      → Stands a approvals
      → Stands a (decide_if status approval_id decided_by approves reason now approvals).1
  decide_if-Stands none approval_id decided_by reason now approves approvals other h = h
  decide_if-Stands (some pending) approval_id decided_by reason now approves approvals other h =
      update-Stands approval_id _ approvals (λ r. refl) other h
  decide_if-Stands (some approved) approval_id decided_by reason now approves approvals other h = h
  decide_if-Stands (some denied) approval_id decided_by reason now approves approvals other h = h
  decide_if-Stands (some expired) approval_id decided_by reason now approves approvals other h = h

  decide_approval-Stands :
      (approval_id decided_by reason now later : ℕ) (approves : Bool) (approvals : List Approval)
      → Stands a approvals
      → Stands a (decide_approval approval_id decided_by approves reason now later approvals).1
  unfolding decide_approval
  decide_approval-Stands approval_id decided_by reason now later approves approvals h =
      let After : Option ApprovalStatus × List Approval → Type 0 =
        λ r. Stands a (decide_if r.0 approval_id decided_by approves reason later r.1).1 in
      elim (Bool-cases (approval_id == a.id)) [
        | inl self ↦ subst After (sym (check_approval_self approval_id now approvals self h)) (
            subst (λ r. Stands a r.1)
              (sym (
                decide_if-settled a.status approval_id decided_by reason later approves approvals
                  settled))
              h)
        | inr other ↦
            decide_if-Stands (check_approval approval_id now approvals).0 approval_id decided_by
              reason later approves (check_approval approval_id now approvals).1 other
              (check_approval-other approval_id now approvals other h)
      ]

  expire_stale_approvals-Stands :
      (now : ℕ) (approvals : List Approval)
      → Stands a approvals
      → Stands a (expire_stale_approvals now approvals).1
  unfolding expire_stale_approvals
  expire_stale_approvals-Stands now approvals h =
      fetchone-update_miss (λ r. is_pending r.status && leb r.expires_at now)
        (with_approval_id a.id) _ approvals a (λ r. refl) (rw settled refl) h

  create_approval-Stands :
      (n : NewApproval) (approval_id now : ℕ) (approvals : List Approval)
      → Stands a approvals
      → Stands a (create_approval n approval_id now approvals).1
  unfolding create_approval
  create_approval-Stands n approval_id now approvals h =
      elim (Bool-cases (exists (with_approval_id approval_id) approvals)) [
        | inl t ↦ rw t h
        | inr f ↦ rw f (
            fetchone-insert_hit (with_approval_id a.id) (new_approval n approval_id now) a approvals
              h)
      ]

  perform-Stands :
      (now : ℕ) (call : Call) (approvals : List Approval)
      → Stands a approvals
      → Stands a (perform now call approvals)
  perform-Stands now (creates n approval_id) approvals h =
      create_approval-Stands n approval_id now approvals h
  perform-Stands now (checks approval_id) approvals h =
      check_approval-Stands approval_id now approvals h
  perform-Stands now (decides approval_id decided_by approves reason later) approvals h =
      decide_approval-Stands approval_id decided_by reason now later approves approvals h
  perform-Stands now expires approvals h = expire_stale_approvals-Stands now approvals h

-- Once an approval is approved, denied or expired, its row is the same after any sequence of calls, at any
-- times: no later decision, check or expiry changes it.
pub run-Stands :
    (calls : List (ℕ × Call)) (approvals : List Approval) (a : Approval)
    → is_pending a.status ≡ false
    → fetchone (with_approval_id a.id) approvals ≡ some a
    → fetchone (with_approval_id a.id) (run calls approvals) ≡ some a
unfolding run
run-Stands [] approvals a settled h = h
run-Stands ((now, call) ∷ calls) approvals a settled h =
    run-Stands calls (perform now call approvals) a settled
      (perform-Stands a settled now call approvals h)
