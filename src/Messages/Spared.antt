-- ===== src/Messages/Spared.antt =====
-- The calls that leave a message in the table as it is.
use local_mind.Base.{
  leb, ◌==◌, ◌+◌, ℕ, ◌≡◌, ap, sym, ◌∙◌, Bool, true, false, List, [], ◌∷◌, inl, inr, arith, exists,
  Bool-cases, Memᴰ, not, All, update, fetchone, Option-cases,
}
use mathlib.Core.List.Memᴰ.{append_left}
use local_mind.Messages.{
  AgentMessage, Send, has_id, new_message, send, is_stale, send_response, answer_to, mark_read,
  cleanup_expired,
}
use local_mind.Messages.Once.{Call, sends, responds, receives, reads, cleans_up, perform}

-- A call that leaves the message as it is, whatever else is in the table: nobody receives, it is not marked
-- read, and no cleanup comes later than an hour after it was sent.
abbrev pub spares : AgentMessage → Call → Bool
spares m (sends s msg_id now) = true
spares m (responds request_message_id from_job_id body_json msg_id now) = true
spares m (receives job_id include_broadcasts delegations) = false
spares m (reads message_id now) = not (message_id == m.id)
spares m (cleans_up now) = leb now (m.created_at + 3600000000)

unfoldable pub after_calls : List Call → List AgentMessage → List AgentMessage
after_calls [] messages = messages
after_calls (call ∷ calls) messages = after_calls calls (perform call messages).1

mem-update_miss :
    (p : AgentMessage → Bool) (f : AgentMessage → AgentMessage) (m : AgentMessage)
    (messages : List AgentMessage)
    → p m ≡ false
    → Memᴰ m messages
    → Memᴰ m (update p f messages)
mem-update_miss p f m [] miss here = elim here [ ]
mem-update_miss p f m (n ∷ messages) miss (Memᴰ.head e) =
    let spared : p n ≡ false = ap p (sym e) ∙ miss in Memᴰ.head (rw spared e)
mem-update_miss p f m (n ∷ messages) miss (Memᴰ.tail here) =
    Memᴰ.tail (mem-update_miss p f m messages miss here)

mem-send :
    (m : AgentMessage) (s : Send) (msg_id now : ℕ) (messages : List AgentMessage)
    → Memᴰ m messages
    → Memᴰ m (send s msg_id now messages).1
unfolding send
mem-send m s msg_id now messages here = elim (Bool-cases (exists (has_id msg_id) messages)) [
  | inl t ↦ rw (t, send) here
  | inr f ↦ rw (f, send) (append_left (new_message s msg_id now ∷ []) here)
]

mem-perform :
    (m : AgentMessage) (call : Call) (messages : List AgentMessage)
    → spares m call ≡ true
    → Memᴰ m messages
    → Memᴰ m (perform call messages).1
unfolding send_response mark_read cleanup_expired
mem-perform m (sends s msg_id now) messages spared here = mem-send m s msg_id now messages here
mem-perform m (responds request_message_id from_job_id body_json msg_id now) messages spared here =
    elim (Option-cases (fetchone (has_id request_message_id) messages)) [
      | inl n ↦ rw (n, send_response) here
      | inr (original, e) ↦
          rw (e, send_response)
            (mem-send m (answer_to original request_message_id from_job_id body_json) msg_id now
              messages here)
    ]
mem-perform m (receives job_id include_broadcasts delegations) messages spared here = cc
mem-perform m (reads message_id now) messages spared here =
    mem-update_miss (has_id message_id) _ m messages (ground (arith, spared)) here
mem-perform m (cleans_up now) messages spared here =
    mem-update_miss (is_stale now) _ m messages (ground (arith, spared)) here

pub mem-after_calls :
    (m : AgentMessage) (calls : List Call) (messages : List AgentMessage)
    → All (λ call. spares m call ≡ true) calls
    → Memᴰ m messages
    → Memᴰ m (after_calls calls messages)
unfolding after_calls
mem-after_calls m [] messages spared here = here
mem-after_calls m (call ∷ calls) messages (s, spared) here =
    mem-after_calls m calls (perform call messages).1 spared (mem-perform m call messages s here)
