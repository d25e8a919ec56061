-- ===== src/Rest/Events/Order.antt =====
-- What the requests that read the events write, in every interleaving of their steps and the senders'.
use mathlib.Core.Path.{subst}
use v6space.Base.{
  ℕ, ◌+◌, ◌≤◌, ◌<◌, ◌≡◌, refl, sym, ap, ◌∙◌, inl, inr, Bool, true, false, Option, none, some, List,
  [], ◌∷◌, ◌++◌, append_assoc, length, length-append, ltb, arith, Bool-cases, All,
}
use v6space.Rest.Events.{
  ServerEvent, Progress, received, Events, capacity, send, or_dropped, offer, received_from,
  receive_next, advance, after_loop, Reach, start, sends, drops, receives, advances, ends,
}
use v6space.Rest.Events.Steps.{
  total, total-append, one_if, count, count_lines, count_in_hand, IsNumbered, adds_one, IsBelow,
  Bounded, advance-Bounded, advance-count,
}

-- What holds of a state, of the lines and of the events that were taken in.
abbrev Inv : (ServerEvent → Bool) → Events → List (ℕ × ServerEvent) → List ServerEvent → Type 0
Inv test s out taken =
    (got : List ServerEvent) × (top : ℕ) × (taken ≡ got ++ s.queue)
    × (length s.queue ≤ capacity)
    × (count test got ≡ count_lines test out + count_in_hand test s.requests)
    × Bounded s.next_id s.requests out top

send-some :
    (e : ServerEvent) (s t : Events)
    → send e s ≡ some t
    → (length s.queue < capacity) × (record s { queue = s.queue ++ e ∷ [] } ≡ t)
unfolding send
send-some e s t h = elim (Bool-cases (ltb (length s.queue) capacity)) [
  | inl free ↦ (ground (arith, free), cc (rw (send, free) at h))
  | inr full ↦ absurd (cc (rw (send, full) at h))
]

receive_next-some :
    (s t : Events)
    → receive_next s ≡ some t
    → (e : ServerEvent) × (es : List ServerEvent) × (s.queue ≡ e ∷ es)
      × (record s { queue = es; requests = received e ∷ s.requests } ≡ t)
unfolding receive_next
receive_next-some s t h = go s.queue refl h
  where
    go :
        (q : List ServerEvent)
        → s.queue ≡ q
        → received_from s q ≡ some t
        → (e : ServerEvent) × (es : List ServerEvent) × (s.queue ≡ e ∷ es)
          × (record s { queue = es; requests = received e ∷ s.requests } ≡ t)
    go [] same k = absurd (cc k)
    go (e ∷ es) same k = (e, es, same, cc k)

module _ (test : ServerEvent → Bool) where
  Inv-sends :
      (e : ServerEvent) (s t : Events) (out : List (ℕ × ServerEvent)) (taken : List ServerEvent)
      → Inv test s out taken
      → send e s ≡ some t
      → Inv test t out (taken ++ e ∷ [])
  Inv-sends e s t out taken (got, top, all, small, same, bounded) h =
      let (free, made) = send-some e s t h in
      subst (λ x. Inv test x out (taken ++ e ∷ [])) made
        (
          got,
          top,
          ap (λ l. l ++ e ∷ []) all ∙ append_assoc got s.queue (e ∷ []),
          omega (arith, length-append s.queue (e ∷ []), free),
          same,
          bounded,
        )

  Inv-receives :
      (s t : Events) (out : List (ℕ × ServerEvent)) (taken : List ServerEvent)
      → Inv test s out taken
      → receive_next s ≡ some t
      → Inv test t out taken
  Inv-receives s t out taken (got, top, all, small, same, (low, below, made_up, numbered)) h =
      let (e, es, queue, made) = receive_next-some s t h in
      let size : length (e ∷ es) ≤ capacity = subst (λ q. length q ≤ capacity) queue small in
      subst (λ x. Inv test x out taken) made
        (
          got ++ e ∷ [],
          top,
          all ∙ ap (λ q. got ++ q) queue ∙ sym (append_assoc got (e ∷ []) es),
          omega (arith, size),
          omega (arith, same, total-append (λ x. one_if (test x)) got (e ∷ [])),
          (low, (tt, below), omega (arith, made_up), numbered),
        )

  Inv-advances :
      (s : Events) (out : List (ℕ × ServerEvent)) (taken : List ServerEvent)
      (before : List Progress) (r : Progress) (after : List Progress)
      → Inv test s out taken
      → s.requests ≡ before ++ r ∷ after
      → Inv test
          (record s {
            requests = before ++ ((advance r s.next_id).left ++ after);
            next_id = (advance r s.next_id).next_id;
          })
          (out ++ (advance r s.next_id).line)
          taken
  Inv-advances s out taken before r after (got, top, all, small, same, bounded) e =
      let (new, kept) =
        advance-Bounded before r after s.next_id out top
          (subst (λ rs. Bounded s.next_id rs out top) e bounded) in
      (
        got,
        new,
        all,
        small,
        same
            ∙ ap (λ rs. count_lines test out + count_in_hand test rs) e
            ∙ sym (advance-count test before r after s.next_id out),
        kept,
      )

after_loop-same :
    (s : Events)
    → ((after_loop s).0.queue ≡ s.queue)
      × ((after_loop s).0.next_id ≡ s.next_id)
      × ((after_loop s).0.requests ≡ s.requests)
unfolding after_loop
after_loop-same s = go s.timer refl
  where
    go :
        (o : Option Bool)
        → s.timer ≡ o
        → ((after_loop s).0.queue ≡ s.queue)
          × ((after_loop s).0.next_id ≡ s.next_id)
          × ((after_loop s).0.requests ≡ s.requests)
    go none e = (rw (after_loop, e) refl, rw (after_loop, e) refl, rw (after_loop, e) refl)
    go (some true) e = (rw (after_loop, e) refl, rw (after_loop, e) refl, rw (after_loop, e) refl)
    go (some false) e = (rw (after_loop, e) refl, rw (after_loop, e) refl, rw (after_loop, e) refl)

Reach-Inv :
    (test : ServerEvent → Bool) {s : Events} {out : List (ℕ × ServerEvent)}
    {taken : List ServerEvent}
    → Reach s out taken
    → Inv test s out taken
unfolding offer
Reach-Inv test start = ([], 0, refl, omega arith, refl, (omega arith, tt, omega arith, tt))
Reach-Inv test (sends {s} {t} {out} {taken} e r h) =
    Inv-sends test e s t out taken (Reach-Inv test r) h
Reach-Inv test (drops {s} {out} {taken} e r h) =
    subst (λ x. Inv test x out taken) (sym (ap (or_dropped s) h)) (Reach-Inv test r)
Reach-Inv test (receives {s} {t} {out} {taken} r h) =
    Inv-receives test s t out taken (Reach-Inv test r) h
Reach-Inv test (advances {s} {out} {taken} before p after r h) =
    Inv-advances test s out taken before p after (Reach-Inv test r) h
Reach-Inv test (ends {s} {out} {taken} r h) =
    let (got, top, all, small, same, (low, below, made_up, numbered)) = Reach-Inv test r in
    let (queue, number, busy) = after_loop-same s in
    (
      got,
      top,
      all ∙ ap (λ q. got ++ q) (sym queue),
      subst (λ q. length q ≤ capacity) (sym queue) small,
      same ∙ ap (λ rs. count_lines test out + count_in_hand test rs) (sym busy),
      (
        subst (λ n. n ≤ top) (sym number) low,
        subst (All (IsBelow top)) (sym busy) below,
        subst (λ rs. top + total adds_one rs ≤ length out) (sym busy) made_up,
        numbered,
      ),
    )

-- Whatever the senders and any number of requests do, in any order of their steps: the events that
-- were received are the first of those that went into the channel, in their order, and the channel
-- holds the others, ten at most; by any test of events, as many were received as stand in the lines
-- and in the hands of requests together, so that none is lost or written twice; and the number of
-- each line is at most the number of lines before it.
pub events_in_order :
    (test : ServerEvent → Bool) {s : Events} {out : List (ℕ × ServerEvent)}
    {taken : List ServerEvent}
    → Reach s out taken
    → (got : List ServerEvent) × (taken ≡ got ++ s.queue)
      × (length s.queue ≤ capacity)
      × (count test got ≡ count_lines test out + count_in_hand test s.requests)
      × IsNumbered 0 out
events_in_order test r =
    let (got, top, all, small, same, bounded) = Reach-Inv test r in
    (got, all, small, same, bounded.3)
