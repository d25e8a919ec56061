-- ===== src/Rest/Events.antt =====
-- The events of the control server: the channel of ten, its senders, and the requests that read it,
-- any number of them at a time and without a lock.
pub mod Order
pub mod Steps
use mathlib.Core.Path.{subst}
use v6space.Base.{
  ℕ, suc, ◌+◌, ◌≤◌, ◌<◌, ◌≡◌, refl, sym, ap, ◌∙◌, inl, inr, Bool, true, false, Option, none, some,
  List, [], ◌∷◌, ◌++◌, append_assoc, length, length-append, ltb, if◌then◌else◌, arith, Bool-cases,
}

-- ServerEvent, with the number of its kind.
pub record ServerEvent : Type 0 where
  pub event : ℕ
  pub payload : List ℕ

-- How far a request is with an event that it has received: with the event in hand, with its lines
-- written, or with the number read that it adds one to.
pub data Progress : Type 0 where
  received : ServerEvent → Progress
  written : Progress
  loaded : ℕ → Progress

-- serverEvents, serverEventNextId and updateTimer with whether it has fired, and the requests that
-- are busy with an event.
pub record Events : Type 0 where
  pub queue : List ServerEvent
  pub next_id : ℕ
  pub timer : Option Bool
  pub requests : List Progress

abbrev pub capacity : ℕ
capacity = 10

abbrev pub init : Events
init = record { queue = []; next_id = 0; timer = none; requests = [] }

-- A send to the channel, `none` while it is full.
unfoldable pub send : ServerEvent → Events → Option Events
send e s =
    if ltb (length s.queue) capacity then some (record s { queue = s.queue ++ e ∷ [] }) else none

-- The send when the peers have changed, which is given up on a full channel.
abbrev pub or_dropped : Events → Option Events → Events
or_dropped s none = s
or_dropped s (some t) = t

unfoldable pub offer : ServerEvent → Events → Events
offer e s = or_dropped s (send e s)

-- The receive of a request's loop; `none` ends the loop.
abbrev pub received_from : Events → List ServerEvent → Option Events
received_from s [] = none
received_from s (e ∷ es) = some (record s { queue = es; requests = received e ∷ s.requests })

unfoldable pub receive_next : Events → Option Events
receive_next s = received_from s s.queue

-- A step of a request: the line that it writes, what it is left with, and serverEventNextId.
pub record Advanced : Type 0 where
  pub line : List (ℕ × ServerEvent)
  pub left : List Progress
  pub next_id : ℕ

-- The rest of the loop's round: the number and the event are written, and the number is read, and
-- written with one added.
unfoldable pub advance : Progress → ℕ → Advanced
advance (received e) n = record { line = (n, e) ∷ []; left = written ∷ []; next_id = n }
advance written n = record { line = []; left = loaded n ∷ []; next_id = n }
advance (loaded m) n = record { line = []; left = []; next_id = m + 1 }

-- The timer at the end of getApiSseHandler: whether sendSseUpdate starts.
unfoldable pub after_loop : Events → Events × Bool
after_loop s = elim s.timer [
  | none ↦ (record s { timer = some false }, false)
  | some fired ↦ if fired then (record s { timer = some false }, true) else (s, false)
]

-- The states of the server, with the lines that were written, in their order, and the events that
-- went into the channel.
pub data Reach : Events → List (ℕ × ServerEvent) → List ServerEvent → Type 0 where
  start : Reach init [] []
  sends :
      {s t : Events} {out : List (ℕ × ServerEvent)} {taken : List ServerEvent} (e : ServerEvent)
      → Reach s out taken
      → send e s ≡ some t
      → Reach t out (taken ++ e ∷ [])
  drops :
      {s : Events} {out : List (ℕ × ServerEvent)} {taken : List ServerEvent} (e : ServerEvent)
      → Reach s out taken
      → send e s ≡ none
      → Reach (offer e s) out taken
  receives :
      {s t : Events} {out : List (ℕ × ServerEvent)} {taken : List ServerEvent}
      → Reach s out taken
      → receive_next s ≡ some t
      → Reach t out taken
  advances :
      {s : Events} {out : List (ℕ × ServerEvent)} {taken : List ServerEvent}
      (before : List Progress) (r : Progress) (after : List Progress)
      → Reach s out taken
      → s.requests ≡ before ++ r ∷ after
      → Reach
          (record s {
            requests = before ++ ((advance r s.next_id).left ++ after);
            next_id = (advance r s.next_id).next_id;
          })
          (out ++ (advance r s.next_id).line)
          taken
  ends :
      {s : Events} {out : List (ℕ × ServerEvent)} {taken : List ServerEvent}
      → Reach s out taken
      → receive_next s ≡ none
      → Reach (after_loop s).0 out taken
