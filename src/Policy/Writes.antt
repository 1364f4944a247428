-- ===== src/Policy/Writes.antt =====
-- What the rule on file writes lets through.
use local_mind.Base.{
  ◌<◌, ◌≡◌, refl, ap, sym, subst, ◌∙◌, Bool, true, false, ◌&&◌, ◌||◌, List, [], ◌∷◌, ◌++◌, arith,
  ◌==◌, ==_refl, if◌then◌else◌, Text, codes, eq_text, starts_with,
}
use local_mind.Policy.Rules.{
  Std, Arg, Context, check_builtin_policies, extract_path, is_outside, is_within, norm_path,
  rate_limited, bulk_delete, egress_blocked, ssrf_blocked, write_blocked,
}

starts_with-append : (s t : Text) → starts_with (s ++ t) s ≡ true
starts_with-append [] [] = refl
starts_with-append [] (c ∷ t) = refl
starts_with-append (c ∷ s) t = rw (==_refl c) (starts_with-append s t)

norm_path-append : (s t : Text) → norm_path (s ++ t) ≡ norm_path s ++ norm_path t
norm_path-append [] t = refl
norm_path-append (c ∷ s) t = ap (λ xs. (if c == 92 then 47 else c) ∷ xs) (norm_path-append s t)

-- Where a path begins with the job's directory, it is not outside.
inside :
    (job_id rest : Text)
    → norm_path job_id ≡ job_id
    → is_outside job_id (codes "/jobs/" ++ (job_id ++ rest)) ≡ false
inside job_id rest plain =
    let normal = norm_path-append job_id rest ∙ ap (λ x. x ++ norm_path rest) plain in
    let here : is_within (codes "/jobs/" ++ job_id) (codes "/jobs/" ++ (job_id ++ norm_path rest))
        ≡ true =
      rw (starts_with-append job_id (norm_path rest)) refl in
    let there : is_within (codes "/jobs/" ++ job_id)
          (norm_path (codes "/jobs/" ++ (job_id ++ rest)))
        ≡ true =
      subst (λ x. is_within (codes "/jobs/" ++ job_id) (codes "/jobs/" ++ x) ≡ true) (sym normal)
        here in
    rw (there, is_outside) refl

and_false : (b : Bool) → b && false ≡ false
and_false true = refl
and_false false = refl

none_of :
    (a b c d e : Bool)
    → a ≡ false
    → b ≡ false
    → c ≡ false
    → d ≡ false
    → e ≡ false
    → a || (b || (c || (d || e))) ≡ false
none_of a b c d e ha hb hc hd he = rw (ha, hb, hc, hd, he) refl

rate_limited_no : (context : Context) → context.tool_call_count < 100 → rate_limited context ≡ false
unfolding rate_limited
rate_limited_no context few = ground arith

-- A file tool may write anywhere that a path through the job's directory leads: whatever follows
-- "/jobs/<id>/../", no built-in rule fires.
pub check_builtin_policies-traversal :
    (std : Std) (context : Context) (target : Text)
    → norm_path context.job_id ≡ context.job_id
    → context.tool_call_count < 100
    → let path = codes "/jobs/" ++ (context.job_id ++ (codes "/../" ++ target)) in
      check_builtin_policies std (codes "write_file") ((codes "path", Arg.text path) ∷ []) context
      ≡ false
unfolding check_builtin_policies bulk_delete egress_blocked ssrf_blocked write_blocked extract_path
check_builtin_policies-traversal std context target plain few =
    let tool = codes "write_file" in
    let path = codes "/jobs/" ++ (context.job_id ++ (codes "/../" ++ target)) in
    let args : List (Text × Arg) = (codes "path", Arg.text path) ∷ [] in
    none_of (rate_limited context) (bulk_delete tool context) (egress_blocked tool context)
      (ssrf_blocked std tool args) (write_blocked tool args context) (rate_limited_no context few)
      refl (and_false (eq_text context.deployment_mode (codes "strict-local"))) refl
      (inside context.job_id (codes "/../" ++ target) plain)
