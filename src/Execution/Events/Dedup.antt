-- ===== src/Execution/Events/Dedup.antt =====
-- Each event of a source is recorded once, in any sequence of calls.
use local_mind.Base.{
  ℕ, ◌+◌, ◌≤◌, ◌≡◌, refl, Bool, true, false, ◌&&◌, ◌||◌, List, [], ◌∷◌, some, inl, inr, arith, ◌==◌,
  is_none, not, if◌then◌else◌, update, insert, exists, Bool-cases,
}
use local_mind.Execution.Events.{
  Event, same_event, collides, new_event, record_event, mark_processed,
}

pub data Call : Type 0 where
  records : (event_id source source_event_id workspace_id : ℕ) → (known_workspace : Bool) → Call
  marks : (event_id result_json now : ℕ) → Call

unfoldable pub step : Call → List Event → List Event
unfolding record_event
step (records id source key workspace known) events =
    (record_event id source key workspace known events).1
step (marks id result now) events = mark_processed id result now events

-- Whether the call records the event `key` of `source`, and returns an id for it.
unfoldable pub accepts : (source key : ℕ) → Call → List Event → Bool
unfolding record_event
accepts source key (records id s k workspace known) events =
    (s == source && k == key) && not (is_none (record_event id s k workspace known events).0)
accepts source key (marks id result now) events = false

abbrev count : Bool → ℕ
count true = 1
count false = 0

-- The table after a sequence of calls, and how many of them returned an id for the event.
unfoldable pub run : List Call → List Event → List Event
unfolding step
run [] events = events
run (c ∷ calls) events = run calls (step c events)

unfoldable pub accepted : (source key : ℕ) → List Call → List Event → ℕ
unfolding accepts step
accepted source key [] events = 0
accepted source key (c ∷ calls) events =
    let later = accepted source key calls (step c events) in
    if accepts source key c events then later + 1 else later

module _ (source key : ℕ) where
  abbrev known_event : List Event → Bool
  known_event events = exists (same_event source key) events

  known_event-update :
      (p : Event → Bool) (f : Event → Event) (events : List Event)
      → ((e : Event) → same_event source key (f e) ≡ same_event source key e)
      → known_event (update p f events) ≡ known_event events
  known_event-update p f [] h = refl
  known_event-update p f (e ∷ events) h = ground (arith, h e, known_event-update p f events h)

  known_event-insert :
      (r : Event) (events : List Event)
      → known_event (insert r events) ≡ known_event events || same_event source key r
  known_event-insert r [] = ground arith
  known_event-insert r (e ∷ events) = ground (arith, known_event-insert r events)

  -- A row of the same event collides.
  collides-known_event :
      (id s k : ℕ) (events : List Event)
      → exists (collides id s k) events ≡ false
      → (s == source && k == key) ≡ true
      → known_event events ≡ false
  collides-known_event id s k [] h same = refl
  collides-known_event id s k (e ∷ events) h same =
      ground (arith, collides-known_event id s k events)

  record_event-count :
      (id s k workspace : ℕ) (known : Bool) (events : List Event)
      → count (accepts source key (records id s k workspace known) events)
          + count (known_event events)
        ≡ count (known_event (record_event id s k workspace known events).1)
  unfolding accepts record_event
  record_event-count id s k workspace false events =
      elim (Bool-cases (exists (collides id s k) events)) [
        | inl t ↦ rw t (ground arith)
        | inr f ↦ rw f (ground arith)
      ]
  record_event-count id s k workspace true events =
      elim (Bool-cases (exists (collides id s k) events)) [
        | inl t ↦ rw t (ground arith)
        | inr f ↦ rw f (
            rw (known_event-insert (new_event id s k workspace) events)
              (ground (arith, collides-known_event id s k events f)))
      ]

  step-count :
      (c : Call) (events : List Event)
      → count (accepts source key c events) + count (known_event events)
        ≡ count (known_event (step c events))
  unfolding accepts step mark_processed
  step-count (marks id result now) events =
      let same =
        known_event-update (λ e. e.id == id)
          (λ e. record e { processed_at = some now; result_json = some result }) events
          (λ e. refl) in
      rw same (omega arith)
  step-count (records id s k workspace known) events =
      record_event-count id s k workspace known events

  accepted-count :
      (calls : List Call) (events : List Event)
      → accepted source key calls events + count (known_event events)
        ≡ count (known_event (run calls events))
  unfolding accepted run
  accepted-count [] events = omega arith
  accepted-count (c ∷ calls) events =
      ground (arith, step-count c events, accepted-count calls (step c events))

  -- In any sequence of calls on the empty table, record_event returns an id at most once for an
  -- event of a source, and does so exactly if the table holds that event in the end; every later
  -- delivery gets None.
  pub accepted_once :
      (calls : List Call)
      → (accepted source key calls [] ≤ 1)
        × (accepted source key calls []
            ≡ (if exists (same_event source key) (run calls []) then 1 else 0))
  accepted_once calls =
      let h = accepted-count calls [] in
      elim (Bool-cases (known_event (run calls []))) [
        | inl t ↦ ground (arith, h)
        | inr f ↦ ground (arith, h)
      ]
