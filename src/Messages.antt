-- ===== src/Messages.antt =====
-- backend/swarm/messaging.py, with the AgentMessage of backend/swarm/models.py: the messages between
-- the jobs of a tree, over agent_messages, with the tree in job_delegation. A body is its JSON text.
-- A method takes the clock's reading and the uuid that it draws; the polls of get_response take the
-- tables that they see until the time is over, since other processes write between them.
pub mod Once
pub mod Spared
pub mod Delivery
pub mod Roots
pub mod Answers
mod Tests
use local_mind.Base.{
  ℕ, zero, suc, ◌+◌, ◌*◌, Bool, true, false, not, ◌&&◌, ◌||◌, List, [], ◌∷◌, Option, none, some,
  Result, ok, err, map, ltb, ◌==◌, is_some_of, is_none, if◌then◌else◌, select, fetchone, rowcount,
  update, insert, exists, sort_by,
}
use local_mind.Delegation.{Delegation, is_child}

-- backend/config.py, in microseconds
abbrev pub swarm_message_ttl : ℕ
swarm_message_ttl = 3600 * 1000000

pub data MessageStatus : Type 0 where
  pending delivered read expired : MessageStatus

abbrev pub is_pending : MessageStatus → Bool
is_pending pending = true
is_pending _ = false

abbrev pub is_delivered : MessageStatus → Bool
is_delivered delivered = true
is_delivered _ = false

pub data MessageType : Type 0 where
  data_message request response signal : MessageType

abbrev pub is_response : MessageType → Bool
is_response response = true
is_response _ = false

pub record AgentMessage : Type 0 where
  pub id : ℕ
  pub tree_root_job_id : ℕ
  pub from_job_id : ℕ
  pub to_job_id : Option ℕ
  pub message_type : MessageType
  pub subject : Option ℕ
  pub body_json : ℕ
  pub status : MessageStatus
  pub created_at : ℕ
  pub read_at : Option ℕ

-- The arguments of send.
pub record Send : Type 0 where
  pub tree_root_job_id : ℕ
  pub from_job_id : ℕ
  pub body_json : ℕ
  pub to_job_id : Option ℕ
  pub message_type : MessageType
  pub subject : Option ℕ

abbrev pub has_id : ℕ → AgentMessage → Bool
has_id message_id m = m.id == message_id

unfoldable pub new_message : Send → (msg_id now : ℕ) → AgentMessage
new_message s msg_id now = record {
  id = msg_id;
  tree_root_job_id = s.tree_root_job_id;
  from_job_id = s.from_job_id;
  to_job_id = s.to_job_id;
  message_type = s.message_type;
  subject = s.subject;
  body_json = s.body_json;
  status = pending;
  created_at = now;
  read_at = none;
}

-- `id` is the PRIMARY KEY.
unfoldable pub send :
    Send → (msg_id now : ℕ) → List AgentMessage → Option AgentMessage × List AgentMessage
send s msg_id now messages =
    if exists (has_id msg_id) messages
    then (none, messages)
    else (some (new_message s msg_id now), insert (new_message s msg_id now) messages)

-- The loop of _get_tree_roots_for_job, with its cap on the steps.
unfoldable pub climb : (steps : ℕ) → (current : ℕ) → List Delegation → ℕ
climb zero current delegations = current
climb (suc steps) current delegations = elim (fetchone (is_child current) delegations) [
  | none ↦ current
  | some r ↦ climb steps r.parent_job_id delegations
]

abbrev pub safety_cap : ℕ
safety_cap = 50

-- `from_job_id = ? OR to_job_id = ?`
abbrev pub takes_part : (job_id : ℕ) → AgentMessage → Bool
takes_part job_id m = m.from_job_id == job_id || is_some_of m.to_job_id job_id

-- As a list, of which only the elements matter.
unfoldable pub get_tree_roots_for_job : (job_id : ℕ) → List Delegation → List AgentMessage → List ℕ
get_tree_roots_for_job job_id delegations messages =
    climb safety_cap job_id delegations
    ∷ map (λ m. m.tree_root_job_id) (select (takes_part job_id) messages)

-- `status = 'pending' AND to_job_id = ? AND from_job_id != ?`
abbrev pub direct : (job_id : ℕ) → AgentMessage → Bool
direct job_id m =
    is_pending m.status && is_some_of m.to_job_id job_id && not (m.from_job_id == job_id)

-- `to_job_id IS NULL AND tree_root_job_id IN (…)`
abbrev pub broadcast_in : List ℕ → AgentMessage → Bool
broadcast_in tree_roots m =
    is_none m.to_job_id && exists (λ root. root == m.tree_root_job_id) tree_roots

-- The condition of the first SELECT.
abbrev pub addressed : (tree_roots : List ℕ) → (job_id : ℕ) → AgentMessage → Bool
addressed tree_roots job_id m =
    is_pending m.status
    && not (m.from_job_id == job_id)
    && (is_some_of m.to_job_id job_id || broadcast_in tree_roots m)

-- The condition that receive selects by.
unfoldable pub wanted :
    (job_id : ℕ)
    → (include_broadcasts : Bool) → List Delegation
    → List AgentMessage
    → AgentMessage
    → Bool
wanted job_id include_broadcasts delegations messages m =
    let tree_roots = get_tree_roots_for_job job_id delegations messages in
    if include_broadcasts
    then elim tree_roots [ [] ↦ direct job_id m | root ∷ roots ↦ addressed (root ∷ roots) job_id m ]
    else direct job_id m

unfoldable pub mark_delivered :
    (received : List AgentMessage) → List AgentMessage → List AgentMessage
mark_delivered received messages =
    update (λ m. exists (has_id m.id) received) (λ m. record m { status = delivered }) messages

-- The messages, and the table with them marked.
unfoldable pub deliver :
    List AgentMessage → List AgentMessage → List AgentMessage × List AgentMessage
deliver [] messages = ([], messages)
deliver (m ∷ received) messages = (m ∷ received, mark_delivered (m ∷ received) messages)

-- `between` is what others write after the SELECT, before the UPDATE.
unfoldable pub receive_between :
    (job_id : ℕ)
    → (include_broadcasts : Bool) → List Delegation
    → (between : List AgentMessage → List AgentMessage) → List AgentMessage
    → List AgentMessage × List AgentMessage
receive_between job_id include_broadcasts delegations between messages =
    deliver
      (sort_by (λ m. m.created_at)
        (select (wanted job_id include_broadcasts delegations messages) messages))
      (between messages)

-- With nobody in between.
unfoldable pub receive :
    (job_id : ℕ)
    → (include_broadcasts : Bool) → List Delegation
    → List AgentMessage
    → List AgentMessage × List AgentMessage
unfolding receive_between
receive job_id include_broadcasts delegations messages =
    receive_between job_id include_broadcasts delegations (λ ms. ms) messages

unfoldable pub mark_read : (message_id now : ℕ) → List AgentMessage → List AgentMessage
mark_read message_id now messages =
    update (has_id message_id) (λ m. record m { status = read; read_at = some now }) messages

unfoldable pub send_request :
    (tree_root_job_id from_job_id to_job_id subject body_json : ℕ)
    → (msg_id now : ℕ) → List AgentMessage
    → Option AgentMessage × List AgentMessage
send_request tree_root_job_id from_job_id to_job_id subject body_json msg_id now messages =
    send
      (record {
        tree_root_job_id = tree_root_job_id;
        from_job_id = from_job_id;
        body_json = body_json;
        to_job_id = some to_job_id;
        message_type = request;
        subject = some subject;
      })
      msg_id now messages

-- `message_type = 'response' AND subject = ?`
abbrev pub answers : (request_message_id : ℕ) → AgentMessage → Bool
answers request_message_id m = is_response m.message_type && is_some_of m.subject request_message_id

-- One look at the table for each poll; none is the timeout.
unfoldable pub get_response :
    (request_message_id : ℕ) → (polls : List (List AgentMessage)) → Option AgentMessage
get_response request_message_id [] = none
get_response request_message_id (messages ∷ polls) =
    elim (fetchone (answers request_message_id) messages) [
      | some m ↦ some m
      | none ↦ get_response request_message_id polls
    ]

-- The answer goes to the sender of the request, in its tree.
unfoldable pub answer_to : AgentMessage → (request_message_id from_job_id body_json : ℕ) → Send
answer_to original request_message_id from_job_id body_json = record {
  tree_root_job_id = original.tree_root_job_id;
  from_job_id = from_job_id;
  body_json = body_json;
  to_job_id = some original.from_job_id;
  message_type = response;
  subject = some request_message_id;
}

pub data ResponseError : Type 0 where
  not_found integrity_error : ResponseError

abbrev pub or_error : Option AgentMessage → Result ResponseError AgentMessage
or_error none = err integrity_error
or_error (some m) = ok m

unfoldable pub send_response :
    (request_message_id from_job_id body_json : ℕ)
    → (msg_id now : ℕ) → List AgentMessage
    → Result ResponseError AgentMessage × List AgentMessage
send_response request_message_id from_job_id body_json msg_id now messages =
    elim (fetchone (has_id request_message_id) messages) [
      | none ↦ (err not_found, messages)
      | some original ↦
          let sent =
            send (answer_to original request_message_id from_job_id body_json) msg_id now
              messages in
          (or_error sent.0, sent.1)
    ]

unfoldable pub get_messages_for_tree :
    (tree_root_job_id : ℕ) → List AgentMessage → List AgentMessage
get_messages_for_tree tree_root_job_id messages =
    sort_by (λ m. m.created_at) (select (λ m. m.tree_root_job_id == tree_root_job_id) messages)

-- `status IN ('pending', 'delivered') AND created_at < ?`, the time less the time to live.
abbrev pub is_stale : (now : ℕ) → AgentMessage → Bool
is_stale now m =
    (is_pending m.status || is_delivered m.status) && ltb (m.created_at + swarm_message_ttl) now

unfoldable pub cleanup_expired : (now : ℕ) → List AgentMessage → ℕ × List AgentMessage
cleanup_expired now messages = (
  rowcount (is_stale now) messages,
  update (is_stale now) (λ m. record m { status = expired }) messages,
)
