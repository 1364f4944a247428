-- ===== src/Messages/Tests.antt =====
-- Runs of the message bus, and its theorems at concrete inputs.
use local_mind.Base.{ℕ, ◌≡◌, ◌≤◌, refl, true, false, List, [], ◌∷◌, none, some, inr, arith, Memᴰ}
use local_mind.Delegation.{Delegation, active, walk, walk_up, get_tree_root, get_parent, get_depth}
use local_mind.Messages.{
  AgentMessage, Send, data_message, request, new_message, send, climb, safety_cap,
  get_tree_roots_for_job, wanted, mark_delivered, deliver, receive, receive_between, mark_read,
  send_request, get_response, answer_to, send_response, get_messages_for_tree, cleanup_expired,
}
use local_mind.Messages.Once
use local_mind.Messages.Once.{sends, receives, cleans_up, Call, receptions}
use local_mind.Messages.Delivery
use local_mind.Messages.Spared.{after_calls}
use local_mind.Messages.Roots
use local_mind.Messages.Answers
use local_mind.Messages.Answers.{Answered}

program : Unit {0}
unfolding walk walk_up get_tree_root get_parent get_depth new_message send climb
    get_tree_roots_for_job wanted mark_delivered deliver receive receive_between after_calls
    mark_read send_request get_response answer_to send_response get_messages_for_tree
    cleanup_expired receptions
program = tt

abbrev child : (parent_job_id child_job_id : ℕ) → Delegation
child parent_job_id child_job_id = record {
  id = child_job_id;
  parent_job_id = parent_job_id;
  child_job_id = child_job_id;
  delegation_type = 0;
  context_json = none;
  status = active;
  created_at = 0;
  completed_at = none;
}

-- Job 1 with the children 2 and 3, and the child 4 of 3.
abbrev tree : List Delegation
tree = child 1 2 ∷ child 1 3 ∷ child 3 4 ∷ []

abbrev to_all : Send
to_all = record {
  tree_root_job_id = 1;
  from_job_id = 2;
  body_json = 7;
  to_job_id = none;
  message_type = data_message;
  subject = none;
}

abbrev question : List AgentMessage
question = (send_request 1 1 2 70 7 20 100 []).1

a_broadcast_is_for_one :
    ((receive 4 true tree (send to_all 10 100 []).1).0 ≡ new_message to_all 10 100 ∷ [])
    × ((receive 3 true tree (receive 4 true tree (send to_all 10 100 []).1).1).0 ≡ [])
unfolding program
a_broadcast_is_for_one = (refl, refl)

cleaned : (cleanup_expired 3600000101 (send to_all 10 100 []).1).0 ≡ 1
unfolding program
cleaned = refl

abbrev calls : List Call
calls = sends to_all 10 100 ∷ receives 4 true tree ∷ receives 3 true tree ∷ cleans_up 200 ∷ []

receptions_once_example : receptions 10 calls [] ≤ 1
receptions_once_example = Once.receptions_once 10 calls [] (omega arith)

receive-exact_example :
    let received = (receive 4 true tree (send to_all 10 100 []).1).0 in
    Delivery.Returns 4 true tree (send to_all 10 100 []).1 (new_message to_all 10 100) received
unfolding program
receive-exact_example =
    Delivery.receive-exact 4 true tree (send to_all 10 100 []).1 (new_message to_all 10 100)

-- Another message and a cleanup come in between.
abbrev others : List Call
others = sends (record to_all { from_job_id = 3 }) 11 105 ∷ cleans_up 200 ∷ []

send-receive_example :
    Memᴰ
      (new_message to_all 10 100)
      (receive 4 true tree (after_calls others (send to_all 10 100 []).1)).0
unfolding program
send-receive_example =
    Delivery.send-receive to_all 10 100 4 2 tree [] others refl refl refl refl refl refl
      (omega arith) (refl, (refl, tt))

receive_between-both_example :
    let sent = (send to_all 10 100 []).1 in
    let between : List AgentMessage → List AgentMessage = λ ms. (receive 3 true tree ms).1 in
    Memᴰ (new_message to_all 10 100) (receive 3 true tree sent).0
    × Memᴰ (new_message to_all 10 100) (receive_between 4 true tree between sent).0
unfolding program
receive_between-both_example =
    Delivery.receive_between-both 4 3 tree (send to_all 10 100 []).1 (new_message to_all 10 100)
      (Memᴰ.head refl) (refl, refl, inr (refl, refl, Memᴰ.head refl))
      (refl, refl, inr (refl, refl, Memᴰ.head refl))

climb-get_tree_root_example : climb safety_cap 4 tree ≡ 1
unfolding program
climb-get_tree_root_example = Roots.climb-get_tree_root 4 1 2 tree refl refl refl (omega arith)

send_response-get_response_example :
    Answered 20 2
      (new_message
        (record {
          tree_root_job_id = 1;
          from_job_id = 1;
          body_json = 7;
          to_job_id = some 2;
          message_type = request;
          subject = some 70;
        })
        20
        100)
      (question ∷ [])
      []
      false
      tree
      (send_response 20 2 8 30 110 question)
unfolding program
send_response-get_response_example =
    Answers.send_response-get_response 20 2 8 30 110 _ question (question ∷ []) [] false tree refl
      refl refl (refl, tt)
