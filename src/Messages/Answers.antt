-- ===== src/Messages/Answers.antt =====
-- A request and its response.
use local_mind.Base.{
  ℕ, ◌≡◌, ◌⊎◌, refl, sym, subst, ◌∙◌, Bool, true, false, List, [], ◌∷◌, ◌++◌, none, some, inl, inr,
  Result, Bool-cases, ok, ◌==◌, ==_refl, fetchone, fetchone-insert, insert, exists, All, Memᴰ,
}
use local_mind.Delegation.{Delegation}
use local_mind.Messages.{
  AgentMessage, ResponseError, has_id, new_message, send, receive, answers, get_response, answer_to,
  send_response,
}
use local_mind.Messages.Delivery.{receive-exact, mem-append_last}

-- Polls that see no response are followed by others.
get_response-later :
    (request_message_id : ℕ) (quiet polls : List (List AgentMessage))
    → All (λ seen. fetchone (answers request_message_id) seen ≡ none) quiet
    → get_response request_message_id (quiet ++ polls) ≡ get_response request_message_id polls
unfolding get_response
get_response-later request_message_id [] polls h = refl
get_response-later request_message_id (seen ∷ quiet) polls (e, h) =
    rw (e, get_response) (get_response-later request_message_id quiet polls h)

-- The outcome of a response, of which `original` is the request.
abbrev pub Answered :
    (request_message_id from_job_id : ℕ)
    → (original : AgentMessage) → (quiet polls : List (List AgentMessage))
    → (include_broadcasts : Bool) → List Delegation
    → Result ResponseError AgentMessage × List AgentMessage
    → Type 0
Answered request_message_id from_job_id original quiet polls include_broadcasts delegations
      (result, after) =
    (m : AgentMessage) × (result ≡ ok m)
    × (get_response request_message_id (quiet ++ after ∷ polls) ≡ some m)
    × (m.to_job_id ≡ some original.from_job_id)
    × (m.tree_root_job_id ≡ original.tree_root_job_id)
    × (((from_job_id == original.from_job_id) ≡ true)
        ⊎ Memᴰ m (receive original.from_job_id include_broadcasts delegations after).0)

-- A response with a new id to a request that is in the table and has none yet is sent, by whatever job: in the
-- tree of the request, to its sender. get_response, whose earlier polls saw none, returns it at the poll that reads
-- the table right after the send, if that comes before the timeout; and if another job than the sender of the
-- request sent it, the sender of the request also receives it from that table.
pub send_response-get_response :
    (request_message_id from_job_id body_json msg_id now : ℕ) (original : AgentMessage)
    (messages : List AgentMessage) (quiet polls : List (List AgentMessage))
    (include_broadcasts : Bool) (delegations : List Delegation)
    → fetchone (has_id request_message_id) messages ≡ some original
    → exists (has_id msg_id) messages ≡ false
    → fetchone (answers request_message_id) messages ≡ none
    → All (λ seen. fetchone (answers request_message_id) seen ≡ none) quiet
    → Answered request_message_id from_job_id original quiet polls include_broadcasts delegations
        (send_response request_message_id from_job_id body_json msg_id now messages)
unfolding send_response get_response send new_message answer_to
send_response-get_response request_message_id from_job_id body_json msg_id now original messages
      quiet polls include_broadcasts delegations asked fresh unanswered silent =
    let m : AgentMessage =
      new_message (answer_to original request_message_id from_job_id body_json) msg_id now in
    let after : List AgentMessage = insert m messages in
    let same : send_response request_message_id from_job_id body_json msg_id now messages
        ≡ (ok m, after) =
      rw (asked, fresh, send_response, send) refl in
    let seen : fetchone (answers request_message_id) after ≡ some m =
      fetchone-insert (answers request_message_id) m messages unanswered
        (==_refl request_message_id) in
    let found : get_response request_message_id (quiet ++ after ∷ polls) ≡ some m =
      get_response-later request_message_id quiet (after ∷ polls) silent
      ∙ rw (seen, get_response) refl in
    let Reaches : Type 0 =
      ((from_job_id == original.from_job_id) ≡ true)
      ⊎ Memᴰ m (receive original.from_job_id include_broadcasts delegations after).0 in
    let reaches : Reaches = elim (Bool-cases (from_job_id == original.from_job_id)) [
      | inl own ↦ inl own
      | inr other ↦ inr (
          (receive-exact original.from_job_id include_broadcasts delegations after m).0.1
            (mem-append_last messages, (refl, other, inl refl)))
    ] in
    subst
      (Answered request_message_id from_job_id original quiet polls include_broadcasts delegations)
      (sym same) (m, refl, found, refl, refl, reaches)
