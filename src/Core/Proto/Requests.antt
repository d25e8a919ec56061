-- ===== src/Core/Proto/Requests.antt =====
-- The requests that wait for an answer: sending, answering and expiring one.
use v6space.Base.{
  ℕ, ◌+◌, ◌≡◌, refl, ap, ◌∙◌, inl, inr, true, false, none, some, List, [], ◌∷◌, ◌==◌, if◌then◌else◌,
  bytes_Eq, bytes_eq, bytes_eq_refl, lookup, insert, erase, lookup-insert, lookup-erase,
  Option-cases, arith,
}
use v6space.Core.Proto.{
  ReqInfo, Kind, self, peers, dht, Pending, ProtoHandler, answers, stops_timer, starts_timer, table,
  set_table, send_debug, request_type, forget, send_request, expire, handle_response,
}

pub table-set_table : (k : Kind) (t : Pending) (h : ProtoHandler) → table k (set_table k t h) ≡ t
table-set_table self t h = refl
table-set_table peers t h = refl
table-set_table dht t h = refl

table-send_request :
    (k : Kind) (key : List ℕ) (call : ℕ) (h : ProtoHandler)
    → table k (send_request k key call h).0
      ≡ insert key (record { callback = call; serial = h.next_serial }) (forget key (table k h)).0
unfolding send_request
table-send_request self key call h = refl
table-send_request peers key call h = refl
table-send_request dht key call h = refl

-- A request waits under its node's key.
pub lookup-send_request :
    (k : Kind) (key : List ℕ) (call : ℕ) (h : ProtoHandler)
    → lookup key (table k (send_request k key call h).0)
      ≡ some (record { callback = call; serial = h.next_serial })
lookup-send_request k key call h =
    rw (table-send_request k key call h, lookup-insert, bytes_eq_refl key) refl

-- Other nodes' requests stay.
lookup-forget :
    (key other : List ℕ) (t : Pending)
    → bytes_eq key other ≡ false
    → lookup other (forget key t).0 ≡ lookup other t
unfolding forget
lookup-forget key other t ne = elim (Option-cases (lookup key t)) [
  | inl e ↦ rw (forget, e) refl
  | inr (info, e) ↦ rw (forget, e, lookup-erase key other t, ne) refl
]

-- The handler's step where a request waits, and where none does.
pub response_answers :
    (k : Kind) (key bs : List ℕ) (info : ReqInfo) (h : ProtoHandler)
    → lookup key (table k h) ≡ some info
    → handle_response k key bs h ≡ (
      set_table k (erase key (table k h)) h,
      stops_timer info.serial ∷ answers info.callback bs ∷ [],
    )
unfolding handle_response
response_answers k key bs info h e = rw (handle_response, e) refl

response_ignored :
    (k : Kind) (key bs : List ℕ) (h : ProtoHandler)
    → lookup key (table k h) ≡ none
    → handle_response k key bs h ≡ (h, [])
unfolding handle_response
response_ignored k key bs h e = rw (handle_response, e) refl

erase_gone :
    (k : Kind) (key : List ℕ) (h : ProtoHandler)
    → lookup key (table k (set_table k (erase key (table k h)) h)) ≡ none
erase_gone k key h =
    ap (lookup key) (table-set_table k (erase key (table k h)) h)
    ∙ rw (lookup-erase key key (table k h), bytes_eq_refl key) refl

-- A request of any kind and its answers: the first answer from the node stops the timer and goes to
-- the callback, a second one does nothing, and another node's request of that kind stays as it was.
pub handle_response-send_request :
    (k : Kind) (key other bs bs' : List ℕ) (call : ℕ) (h : ProtoHandler)
    → bytes_eq key other ≡ false
    → let asked = (send_request k key call h).0 in
      let answered = handle_response k key bs asked in
      (answered.1 ≡ stops_timer h.next_serial ∷ answers call bs ∷ [])
      × (handle_response k key bs' answered.0 ≡ (answered.0, []))
      × (lookup other (table k answered.0) ≡ lookup other (table k h))
handle_response-send_request k key other bs bs' call h ne =
    let asked = (send_request k key call h).0 in
    let t = table k asked in
    let first = response_answers k key bs _ asked (lookup-send_request k key call h) in
    (
      ap (λ r. r.1) first,
      response_ignored k key bs' _
          (ap (λ r. lookup key (table k r.0)) first ∙ erase_gone k key asked),
      ap (λ r. lookup other (table k r.0)) first
          ∙ ap (lookup other) (table-set_table k (erase key t) asked)
          ∙ rw (lookup-erase key other t, ne) refl
          ∙ ap (lookup other) (table-send_request k key call h)
          ∙ rw (lookup-insert key other, ne) (lookup-forget key other (table k h) ne),
    )

next_serial-send_request :
    (k : Kind) (key : List ℕ) (call : ℕ) (h : ProtoHandler)
    → (send_request k key call h).0.next_serial ≡ h.next_serial + 1
unfolding send_request
next_serial-send_request k key call h = refl

actions-send_request :
    (k : Kind) (key : List ℕ) (call : ℕ) (info : ReqInfo) (h : ProtoHandler)
    → lookup key (table k h) ≡ some info
    → (send_request k key call h).1
      ≡ stops_timer info.serial
        ∷ starts_timer h.next_serial
        ∷ send_debug key (request_type k) []
        ∷ []
unfolding send_request forget
actions-send_request k key call info h e = rw (forget, e) refl

expire_if :
    (k : Kind) (key : List ℕ) (serial : ℕ) (info : ReqInfo) (h : ProtoHandler)
    → lookup key (table k h) ≡ some info
    → expire k key serial h
      ≡ (if info.serial == serial then set_table k (erase key (table k h)) h else h)
unfolding expire
expire_if k key serial info h e = rw (expire, e) refl

-- A request that a newer one to the same node replaces: the newer one stops the older timer; if
-- that fires all the same, it changes nothing; and the newer one's own timer ends the waiting, so
-- that an answer after it does nothing.
pub expire-send_request :
    (k : Kind) (key bs : List ℕ) (call call' : ℕ) (h : ProtoHandler)
    → let older = (send_request k key call h).0 in
      let newer = send_request k key call' older in
      let expired = expire k key (h.next_serial + 1) newer.0 in
      (newer.1
        ≡ stops_timer h.next_serial
          ∷ starts_timer (h.next_serial + 1)
          ∷ send_debug key (request_type k) []
          ∷ [])
      × (expire k key h.next_serial newer.0 ≡ newer.0)
      × (handle_response k key bs expired ≡ (expired, []))
expire-send_request k key bs call call' h =
    let older = (send_request k key call h).0 in
    let newer = (send_request k key call' older).0 in
    let next = next_serial-send_request k key call h in
    let there : lookup key (table k newer)
        ≡ some (record { callback = call'; serial = h.next_serial + 1 }) =
      lookup-send_request k key call' older
      ∙ ap (λ n. some (record { callback = call'; serial = n })) next in
    let other : (h.next_serial + 1) == h.next_serial ≡ false = ground arith in
    let own : (h.next_serial + 1) == (h.next_serial + 1) ≡ true = ground arith in
    (
      actions-send_request k key call' _ older (lookup-send_request k key call h)
          ∙ ap
              (λ n.
                stops_timer h.next_serial
                ∷ starts_timer n
                ∷ send_debug key (request_type k) []
                ∷ [])
              next,
      rw (expire_if k key h.next_serial _ newer there, other) refl,
      response_ignored k key bs _
          (rw (expire_if k key (h.next_serial + 1) _ newer there, own) (erase_gone k key newer)),
    )
