-- ===== src/Messages/Delivery.antt =====
-- What receive returns, and what becomes of a broadcast.
use local_mind.Base.{
  ℕ, ◌≤◌, ◌≡◌, ◌⊎◌, ◌↔◌, refl, ap, sym, subst, ◌∙◌, Bool, true, false, List, [], ◌∷◌, ◌++◌, Option,
  none, some, inl, inr, arith, ◌==◌, ==_iff, ==_refl, select, exists, exists_of_mem, sort_by,
  sort_by-IsOrdered, mem-sort_by, mem_of_sort_by, mem-select, mem_of_select, Bool-cases, Pairwise,
  Memᴰ, is_some_of, is_none, All,
}
use mathlib.Core.Option.{some-injective}
use local_mind.Delegation.{Delegation, get_tree_root, get_parent, get_depth}
use local_mind.Messages.{
  AgentMessage, Send, is_pending, has_id, new_message, send, get_tree_roots_for_job, wanted,
  deliver, receive, receive_between,
}
use local_mind.Messages.Once.{Call}
use local_mind.Messages.Spared.{spares, after_calls, mem-after_calls}
use local_mind.Messages.Roots.{climb-get_tree_root}

-- A message that a job is to receive: it is pending, comes from another job, and is sent to this one
-- or, where the job takes broadcasts, to one of its trees.
abbrev pub Due : (job_id : ℕ) → (include_broadcasts : Bool) → List ℕ → AgentMessage → Type 0
Due job_id include_broadcasts tree_roots m =
    (is_pending m.status ≡ true)
    × ((m.from_job_id == job_id) ≡ false)
    × ((m.to_job_id ≡ some job_id)
        ⊎ ((include_broadcasts ≡ true) × (m.to_job_id ≡ none) × Memᴰ m.tree_root_job_id tree_roots))

is_some_of_iff : (o : Option ℕ) (x : ℕ) → (is_some_of o x ≡ true) ↔ (o ≡ some x)
is_some_of_iff none x = (λ h. cc, λ h. cc)
is_some_of_iff (some y) x =
    (λ h. ap some (ground (arith, ==_iff y x)), λ h. (==_iff y x).1 (some-injective _ _ h))

mem_of_exists : (x : ℕ) (xs : List ℕ) → exists (λ y. y == x) xs ≡ true → Memᴰ x xs
mem_of_exists x [] h = cc
mem_of_exists x (y ∷ ys) h = elim (Bool-cases (y == x)) [
  | inl t ↦ Memᴰ.head (sym ((==_iff y x).0 t))
  | inr f ↦ Memᴰ.tail (mem_of_exists x ys (ground arith))
]

is_none_iff : (o : Option ℕ) → (is_none o ≡ true) ↔ (o ≡ none)
is_none_iff none = (λ h. refl, λ h. refl)
is_none_iff (some y) = (λ h. cc, λ h. cc)

module _ (job_id : ℕ) (delegations : List Delegation) (messages : List AgentMessage)
    (m : AgentMessage) where
  wanted-Due :
      (include_broadcasts : Bool)
      → wanted job_id include_broadcasts delegations messages m ≡ true
      → Due job_id include_broadcasts (get_tree_roots_for_job job_id delegations messages) m
  unfolding wanted get_tree_roots_for_job
  wanted-Due false h =
      (ground arith, ground arith, inl ((is_some_of_iff m.to_job_id job_id).0 (ground arith)))
  wanted-Due true h = (
    ground arith,
    ground arith,
    elim (Bool-cases (is_some_of m.to_job_id job_id)) [
      | inl t ↦ inl ((is_some_of_iff m.to_job_id job_id).0 t)
      | inr f ↦ inr (
        refl,
        (is_none_iff m.to_job_id).0 (ground arith),
        mem_of_exists m.tree_root_job_id (get_tree_roots_for_job job_id delegations messages)
            (ground arith),
      )
    ],
  )

  Due-wanted :
      (include_broadcasts : Bool)
      → Due job_id include_broadcasts (get_tree_roots_for_job job_id delegations messages) m
      → wanted job_id include_broadcasts delegations messages m ≡ true
  unfolding wanted get_tree_roots_for_job
  Due-wanted false (waits, other, inl t) =
      let to_it = (is_some_of_iff m.to_job_id job_id).1 t in ground arith
  Due-wanted false (waits, other, inr (never, all, here)) = cc
  Due-wanted true (waits, other, inl t) =
      let to_it = (is_some_of_iff m.to_job_id job_id).1 t in ground (arith, to_it)
  Due-wanted true (waits, other, inr (included, all, here)) =
      let to_all = (is_none_iff m.to_job_id).1 all in
      let in_tree =
        exists_of_mem (λ y. y == m.tree_root_job_id)
          (get_tree_roots_for_job job_id delegations messages) m.tree_root_job_id here
          (==_refl m.tree_root_job_id) in
      ground (arith, to_all, in_tree)

pub mem-append_last : {A : Type 0} {x : A} (xs : List A) → Memᴰ x (xs ++ x ∷ [])
mem-append_last [] = Memᴰ.head refl
mem-append_last (y ∷ ys) = Memᴰ.tail (mem-append_last ys)

deliver-same : (received messages : List AgentMessage) → (deliver received messages).0 ≡ received
unfolding deliver
deliver-same [] messages = refl
deliver-same (m ∷ received) messages = refl

-- What is received has the message just if it is due, and is in order.
abbrev pub Returns :
    (job_id : ℕ)
    → (include_broadcasts : Bool) → List Delegation
    → List AgentMessage
    → AgentMessage
    → List AgentMessage
    → Type 0
Returns job_id include_broadcasts delegations messages m received =
    (Memᴰ m received ↔ (
      Memᴰ m messages
      × Due job_id include_broadcasts (get_tree_roots_for_job job_id delegations messages) m))
    × Pairwise (λ a b. a.created_at ≤ b.created_at) received

-- receive returns a message exactly when it is in the table, pending, from another job, and either sent
-- to this job or, where broadcasts are included, sent to all in one of the trees that
-- get_tree_roots_for_job finds for it; and it returns them in the order in which they were sent.
pub receive-exact :
    (job_id : ℕ) (include_broadcasts : Bool) (delegations : List Delegation)
    (messages : List AgentMessage) (m : AgentMessage)
    → Returns job_id include_broadcasts delegations messages m
        (receive job_id include_broadcasts delegations messages).0
unfolding receive receive_between
receive-exact job_id include_broadcasts delegations messages m =
    let key : AgentMessage → ℕ = λ m. m.created_at in
    let p = wanted job_id include_broadcasts delegations messages in
    let chosen = select p messages in
    let same = deliver-same (sort_by key chosen) messages in
    subst (Returns job_id include_broadcasts delegations messages m) (sym same) (
      (
        λ h.
            let (here, fits) = mem_of_select p messages m (mem_of_sort_by key m chosen h) in
            (here, wanted-Due job_id delegations messages m include_broadcasts fits),
        λ (here, due). mem-sort_by key m chosen (
            mem-select p messages m here
              (Due-wanted job_id delegations messages m include_broadcasts due)),
      ),
      sort_by-IsOrdered key chosen,
    )

-- What is received was selected before anybody else wrote.
receive_between-receive :
    (job_id : ℕ) (include_broadcasts : Bool) (delegations : List Delegation)
    (between : List AgentMessage → List AgentMessage) (messages : List AgentMessage)
    → (receive_between job_id include_broadcasts delegations between messages).0
      ≡ (receive job_id include_broadcasts delegations messages).0
unfolding receive receive_between
receive_between-receive job_id include_broadcasts delegations between messages =
    let received : List AgentMessage =
      sort_by (λ m. m.created_at)
        (select (wanted job_id include_broadcasts delegations messages) messages) in
    deliver-same received (between messages) ∙ sym (deliver-same received messages)

-- Where one job's receive comes whole between the SELECT and the UPDATE of another's, a message that is in the
-- table and due to both is received by both.
pub receive_between-both :
    (job_id other_id : ℕ) (delegations : List Delegation) (messages : List AgentMessage)
    (m : AgentMessage)
    → Memᴰ m messages
    → Due job_id true (get_tree_roots_for_job job_id delegations messages) m
    → Due other_id true (get_tree_roots_for_job other_id delegations messages) m
    → let received = receive other_id true delegations messages in
      let between : List AgentMessage → List AgentMessage =
        λ ms. (receive other_id true delegations ms).1 in
      Memᴰ m received.0 × Memᴰ m (receive_between job_id true delegations between messages).0
receive_between-both job_id other_id delegations messages m here due due' = (
  (receive-exact other_id true delegations messages m).0.1 (here, due'),
  subst (Memᴰ m) (sym (receive_between-receive job_id true delegations _ messages))
      ((receive-exact job_id true delegations messages m).0.1 (here, due)),
)

-- A broadcast that another job sends with a new id, in the tree whose root the delegation engine finds for a job
-- at most 50 deep, is among what that job receives, broadcasts included, after any further calls that send or
-- answer, mark other messages as read, or clean up at most an hour after the broadcast; where no job receives in
-- between.
pub send-receive :
    (s : Send) (msg_id now job_id depth : ℕ) (delegations : List Delegation)
    (messages : List AgentMessage) (calls : List Call)
    → exists (has_id msg_id) messages ≡ false
    → s.to_job_id ≡ none
    → (s.from_job_id == job_id) ≡ false
    → get_tree_root job_id delegations ≡ some s.tree_root_job_id
    → get_parent s.tree_root_job_id delegations ≡ none
    → get_depth job_id delegations ≡ some depth
    → depth ≤ 50
    → All (λ call. spares (new_message s msg_id now) call ≡ true) calls
    → let later = after_calls calls (send s msg_id now messages).1 in
      Memᴰ (new_message s msg_id now) (receive job_id true delegations later).0
unfolding send new_message get_tree_roots_for_job
send-receive s msg_id now job_id depth delegations messages calls fresh all other found top deep
      near spared =
    let m : AgentMessage = new_message s msg_id now in
    let after : List AgentMessage = (send s msg_id now messages).1 in
    let sent : after ≡ messages ++ new_message s msg_id now ∷ [] = rw (fresh, send) refl in
    let here : Memᴰ m after = subst (Memᴰ m) (sym sent) (mem-append_last messages) in
    let root =
      climb-get_tree_root job_id s.tree_root_job_id depth delegations found top deep near in
    (receive-exact job_id true delegations (after_calls calls after) m).0.1 (
      mem-after_calls m calls after spared here,
      (refl, other, inr (refl, all, Memᴰ.head (sym root))),
    )
