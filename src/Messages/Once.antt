-- ===== src/Messages/Once.antt =====
-- By whole calls, no message is received twice.
use local_mind.Base.{
  ℕ, ◌+◌, ◌≤◌, ◌≡◌, ◌⊎◌, refl, subst, Bool, true, false, ◌&&◌, List, [], ◌∷◌, inl, inr, arith, ◌==◌,
  if◌then◌else◌, select, rowcount, update, insert, exists, sort_by, Bool-cases, Option-cases,
  fetchone, ==_iff, rowcount-insert, exists-insert, All-of_mem, exists_of_mem, mem-sort_by,
  mem-select, ==_refl, rowcount-sort_by, All,
}
use local_mind.Delegation.{Delegation}
use local_mind.Messages.{
  AgentMessage, delivered, Send, is_pending, has_id, is_stale, new_message, send, send_response,
  answer_to, get_tree_roots_for_job, wanted, mark_delivered, deliver, receive, receive_between,
  mark_read, cleanup_expired,
}

-- The calls of the program. The messages of send_request are those of send.
pub data Call : Type 0 where
  sends : Send → (msg_id now : ℕ) → Call
  responds : (request_message_id from_job_id body_json msg_id now : ℕ) → Call
  receives : (job_id : ℕ) → (include_broadcasts : Bool) → List Delegation → Call
  reads : (message_id now : ℕ) → Call
  cleans_up : (now : ℕ) → Call

-- What a call receives, and the table after it.
abbrev pub perform : Call → List AgentMessage → List AgentMessage × List AgentMessage
perform (sends s msg_id now) messages = ([], (send s msg_id now messages).1)
perform (responds request_message_id from_job_id body_json msg_id now) messages =
    ([], (send_response request_message_id from_job_id body_json msg_id now messages).1)
perform (receives job_id include_broadcasts delegations) messages =
    receive job_id include_broadcasts delegations messages
perform (reads message_id now) messages = ([], mark_read message_id now messages)
perform (cleans_up now) messages = ([], (cleanup_expired now messages).1)

-- How often the message is received in the course of the calls.
unfoldable pub receptions : (message_id : ℕ) → List Call → List AgentMessage → ℕ
receptions message_id [] messages = 0
receptions message_id (call ∷ calls) messages =
    let (received, after) = perform call messages in
    rowcount (has_id message_id) received + receptions message_id calls after

abbrev is_chance : ℕ → AgentMessage → Bool
is_chance message_id m = is_pending m.status && has_id message_id m

-- How often the message can be received still: as often as it stands there pending, and once when it
-- is not sent yet.
abbrev pub chances : (message_id : ℕ) → List AgentMessage → ℕ
chances message_id messages =
    if exists (has_id message_id) messages then rowcount (is_chance message_id) messages else 1

-- An update that keeps the ids and makes nothing pending.
module _ (p : AgentMessage → Bool) (f : AgentMessage → AgentMessage) (message_id : ℕ)
    (same_id : (m : AgentMessage) → has_id message_id (f m) ≡ has_id message_id m)
    (not_pending : (m : AgentMessage) → is_pending (f m).status ≡ false) where
  exists-update :
      (messages : List AgentMessage)
      → exists (has_id message_id) (update p f messages) ≡ exists (has_id message_id) messages
  exists-update [] = refl
  exists-update (m ∷ ms) = ground (arith, same_id m, exists-update ms)

  -- The messages that are taken and those that remain are no more than were there.
  taken-update :
      (q : AgentMessage → Bool) (messages : List AgentMessage)
      → All (λ m. (q m ≡ false) ⊎ ((p m ≡ true) × (is_pending m.status ≡ true))) messages
      → rowcount (has_id message_id) (select q messages)
          + rowcount (is_chance message_id) (update p f messages)
        ≤ rowcount (is_chance message_id) messages
  taken-update q [] h = omega arith
  taken-update q (m ∷ ms) (here, rest) = elim here [
    | inl skipped ↦ ground (arith, same_id m, not_pending m, skipped, taken-update q ms rest)
    | inr (t, waiting) ↦
        ground (arith, same_id m, not_pending m, t, waiting, taken-update q ms rest)
  ]

none_taken :
    (p : AgentMessage → Bool) (messages : List AgentMessage)
    → All (λ m. (false ≡ false) ⊎ ((p m ≡ true) × (is_pending m.status ≡ true))) messages
none_taken p [] = tt
none_taken p (m ∷ ms) = (inl refl, none_taken p ms)

no_chance :
    (message_id : ℕ) (messages : List AgentMessage)
    → exists (has_id message_id) messages ≡ false
    → (rowcount (is_chance message_id) messages ≡ 0) × (rowcount (has_id message_id) messages ≡ 0)
no_chance message_id [] h = (refl, refl)
no_chance message_id (m ∷ ms) h = ground (arith, no_chance message_id ms)

-- An update of this kind does not add a chance.
chances-update :
    (p : AgentMessage → Bool) (f : AgentMessage → AgentMessage) (message_id : ℕ)
    (messages : List AgentMessage)
    → ((m : AgentMessage) → has_id message_id (f m) ≡ has_id message_id m)
    → ((m : AgentMessage) → is_pending (f m).status ≡ false)
    → chances message_id (update p f messages) ≤ chances message_id messages
chances-update p f message_id messages same_id not_pending =
    let exist = exists-update p f message_id same_id not_pending messages in
    let fewer =
      taken-update p f message_id same_id not_pending (λ m. false) messages
        (none_taken p messages) in
    ground (arith, exist, fewer)

is_chance_le :
    (message_id : ℕ) (messages : List AgentMessage)
    → rowcount (is_chance message_id) messages ≤ rowcount (has_id message_id) messages
is_chance_le message_id [] = omega arith
is_chance_le message_id (m ∷ ms) = ground (arith, is_chance_le message_id ms)

chances-insert :
    (message_id : ℕ) (m : AgentMessage) (messages : List AgentMessage)
    → exists (has_id m.id) messages ≡ false
    → chances message_id (insert m messages) ≤ chances message_id messages
chances-insert message_id m messages absent = elim (Bool-cases (m.id == message_id)) [
  | inl t ↦
      let missing : exists (has_id message_id) messages ≡ false =
        subst (λ i. exists (has_id i) messages ≡ false) ((==_iff m.id message_id).0 t) absent in
      let (none_open, no_row) = no_chance message_id messages missing in
      let one = rowcount-insert (is_chance message_id) m messages in
      let seen = exists-insert (has_id message_id) m messages in
      ground (arith, missing, none_open, one, seen, t)
  | inr f ↦
      let one = rowcount-insert (is_chance message_id) m messages in
      let seen = exists-insert (has_id message_id) m messages in ground (arith, one, seen, f)
]

chances-send :
    (s : Send) (message_id msg_id now : ℕ) (messages : List AgentMessage)
    → chances message_id (send s msg_id now messages).1 ≤ chances message_id messages
unfolding send new_message
chances-send s message_id msg_id now messages =
    elim (Bool-cases (exists (has_id msg_id) messages)) [
      | inl t ↦ rw (t, send) (omega arith)
      | inr f ↦ rw (f, send) (chances-insert message_id (new_message s msg_id now) messages f)
    ]

chances-send_response :
    (message_id request_message_id from_job_id body_json msg_id now : ℕ)
    (messages : List AgentMessage)
    → chances message_id
        (send_response request_message_id from_job_id body_json msg_id now messages).1
      ≤ chances message_id messages
unfolding send_response
chances-send_response message_id request_message_id from_job_id body_json msg_id now messages =
    elim (Option-cases (fetchone (has_id request_message_id) messages)) [
      | inl n ↦ rw (n, send_response) (omega arith)
      | inr (original, e) ↦
          rw (e, send_response)
            (chances-send (answer_to original request_message_id from_job_id body_json) message_id
              msg_id now messages)
    ]

-- Whatever receive selects is pending.
wanted-is_pending :
    (job_id : ℕ) (include_broadcasts : Bool) (delegations : List Delegation)
    (messages : List AgentMessage) (m : AgentMessage)
    → wanted job_id include_broadcasts delegations messages m ≡ true
    → is_pending m.status ≡ true
unfolding wanted get_tree_roots_for_job
wanted-is_pending job_id include_broadcasts delegations messages m h = ground arith

deliver-chances :
    (message_id : ℕ) (received messages : List AgentMessage)
    → rowcount (has_id message_id) received + chances message_id (mark_delivered received messages)
      ≤ chances message_id messages
    → rowcount (has_id message_id) (deliver received messages).0
        + chances message_id (deliver received messages).1
      ≤ chances message_id messages
unfolding deliver
deliver-chances message_id [] messages h = omega arith
deliver-chances message_id (m ∷ received) messages h = h

mark_delivered-chances :
    (message_id : ℕ) (q : AgentMessage → Bool) (messages : List AgentMessage)
    → ((m : AgentMessage) → q m ≡ true → is_pending m.status ≡ true)
    → let received = sort_by (λ m. m.created_at) (select q messages) in
      rowcount (has_id message_id) received + chances message_id (mark_delivered received messages)
      ≤ chances message_id messages
unfolding mark_delivered
mark_delivered-chances message_id q messages q_pending =
    let received = sort_by (λ m. m.created_at) (select q messages) in
    let marked : AgentMessage → Bool = λ m. exists (has_id m.id) received in
    let f : AgentMessage → AgentMessage = λ m. record m { status = delivered } in
    let covered =
      All-of_mem (λ m. (q m ≡ false) ⊎ ((marked m ≡ true) × (is_pending m.status ≡ true))) messages
        (λ m here. elim (Bool-cases (q m)) [
          | inl t ↦ inr (
            exists_of_mem (has_id m.id) received m
                (mem-sort_by (λ m. m.created_at) m (select q messages)
                  (mem-select q messages m here t))
                (==_refl m.id),
            q_pending m t,
          )
          | inr e ↦ inl e
        ]) in
    let exist = exists-update marked f message_id (λ m. refl) (λ m. refl) messages in
    let fewer = taken-update marked f message_id (λ m. refl) (λ m. refl) q messages covered in
    let same = rowcount-sort_by (λ m. m.created_at) (has_id message_id) (select q messages) in
    ground (arith, exist, fewer, same, no_chance message_id messages)

receives_none : {a b : ℕ} → a ≤ b → 0 + a ≤ b
receives_none h = omega arith

chances-perform :
    (message_id : ℕ) (call : Call) (messages : List AgentMessage)
    → rowcount (has_id message_id) (perform call messages).0
        + chances message_id (perform call messages).1
      ≤ chances message_id messages
unfolding receive receive_between mark_read cleanup_expired
chances-perform message_id (sends s msg_id now) messages =
    receives_none (chances-send s message_id msg_id now messages)
chances-perform message_id (responds request_message_id from_job_id body_json msg_id now) messages =
    receives_none (
      chances-send_response message_id request_message_id from_job_id body_json msg_id now messages)
chances-perform message_id (receives job_id include_broadcasts delegations) messages =
    deliver-chances message_id _ messages (
      mark_delivered-chances message_id (wanted job_id include_broadcasts delegations messages)
        messages (wanted-is_pending job_id include_broadcasts delegations messages))
chances-perform message_id (reads read_id now) messages =
    receives_none (chances-update (has_id read_id) _ message_id messages (λ m. refl) (λ m. refl))
chances-perform message_id (cleans_up now) messages =
    receives_none (chances-update (is_stale now) _ message_id messages (λ m. refl) (λ m. refl))

receptions-chances :
    (message_id : ℕ) (calls : List Call) (messages : List AgentMessage)
    → receptions message_id calls messages ≤ chances message_id messages
unfolding receptions
receptions-chances message_id [] messages = omega arith
receptions-chances message_id (call ∷ calls) messages =
    let now = chances-perform message_id call messages in
    let later = receptions-chances message_id calls (perform call messages).1 in
    omega (arith, now, later)

-- When the calls of the jobs, which send, answer, receive, read and clean up, follow each other, each one whole,
-- in any order and at any times, a message whose id stands in the table at most once is received at most once
-- from then on, by all jobs together: a broadcast reaches one job, and not the tree.
pub receptions_once :
    (message_id : ℕ) (calls : List Call) (messages : List AgentMessage)
    → rowcount (has_id message_id) messages ≤ 1
    → receptions message_id calls messages ≤ 1
receptions_once message_id calls messages h =
    let bound = receptions-chances message_id calls messages in
    let fewer = is_chance_le message_id messages in ground (arith, bound, fewer)
