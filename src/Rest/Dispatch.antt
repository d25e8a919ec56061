-- ===== src/Rest/Dispatch.antt =====
-- Which handler a request reaches.
use v6space.Base.{
  ℕ, ◌≤◌, ◌≡◌, ◌↔◌, sym, ap, ◌∙◌, ◌⊎◌, inl, inr, true, false, Option, none, some, List, [], ◌∷◌,
  length, All, arith, Bool-cases, Option-cases,
}
use v6space.Rest.{
  ApiHandler, RestServer, handler_less, place, sort_handlers, serve, Request, fits, find_handler,
  Webauth, runs, same_host, authorized, answer_with, handle_request, no_hook, not_started, refused,
  not_waited, passed,
}

abbrev pub IsIn : ApiHandler → List ApiHandler → Type 0
IsIn h [] = ⊥
IsIn h (g ∷ gs) = (g ≡ h) ⊎ IsIn h gs

abbrev LongerThan : ApiHandler → List ApiHandler → Type 0
LongerThan h hs = All (λ g. length h.pattern ≤ length g.pattern) hs

-- Sorted by the length of the pattern.
abbrev Ordered : List ApiHandler → Type 0
Ordered [] = Unit
Ordered (h ∷ hs) = LongerThan h hs × Ordered hs

handler_less_cases :
    (a b : ApiHandler)
    → ((handler_less a b ≡ true) × (length a.pattern ≤ length b.pattern))
      ⊎ ((handler_less a b ≡ false) × (length b.pattern ≤ length a.pattern))
unfolding handler_less
handler_less_cases a b = ground arith

LongerThan-trans :
    (h g : ApiHandler) (gs : List ApiHandler)
    → length h.pattern ≤ length g.pattern
    → LongerThan g gs
    → LongerThan h gs
LongerThan-trans h g [] e a = tt
LongerThan-trans h g (x ∷ xs) e a = (omega (arith, e, a.0), LongerThan-trans h g xs e a.1)

place-LongerThan :
    (g h : ApiHandler) (gs : List ApiHandler)
    → length g.pattern ≤ length h.pattern
    → LongerThan g gs
    → LongerThan g (place h gs)
unfolding place
place-LongerThan g h [] e a = (e, tt)
place-LongerThan g h (x ∷ xs) e a = elim (Bool-cases (handler_less x h)) [
  | inl less ↦ rw (place, less) (a.0, place-LongerThan g h xs e a.1)
  | inr more ↦ rw (place, more) (e, a)
]

place-Ordered : (h : ApiHandler) (gs : List ApiHandler) → Ordered gs → Ordered (place h gs)
unfolding place
place-Ordered h [] o = (tt, tt)
place-Ordered h (g ∷ gs) o = elim (handler_less_cases g h) [
  | inl (less, e) ↦ rw (place, less) (place-LongerThan g h gs e o.0, place-Ordered h gs o.1)
  | inr (more, e) ↦ rw (place, more) ((e, LongerThan-trans h g gs e o.0), o)
]

sort_handlers-Ordered : (hs : List ApiHandler) → Ordered (sort_handlers hs)
unfolding sort_handlers
sort_handlers-Ordered [] = tt
sort_handlers-Ordered (h ∷ hs) = place-Ordered h (sort_handlers hs) (sort_handlers-Ordered hs)

place_iff : (x h : ApiHandler) (gs : List ApiHandler) → IsIn x (place h gs) ↔ IsIn x (h ∷ gs)
unfolding place
place_iff x h [] = (λ m. m, λ m. m)
place_iff x h (g ∷ gs) = elim (Bool-cases (handler_less g h)) [
  | inl less ↦ rw (place, less) (ground (arith, place_iff x h gs))
  | inr more ↦ rw (place, more) (λ m. m, λ m. m)
]

sort_handlers_iff : (x : ApiHandler) (hs : List ApiHandler) → IsIn x (sort_handlers hs) ↔ IsIn x hs
unfolding sort_handlers
sort_handlers_iff x [] = (λ m. m, λ m. m)
sort_handlers_iff x (h ∷ hs) =
    ground (arith, place_iff x h (sort_handlers hs), sort_handlers_iff x hs)

longest :
    (g h : ApiHandler) (gs : List ApiHandler)
    → LongerThan g gs
    → IsIn h gs
    → length g.pattern ≤ length h.pattern
longest g h [] a m = absurd m
longest g h (x ∷ xs) a (inl e) = omega (arith, a.0, ap (λ y. length y.pattern) e)
longest g h (x ∷ xs) a (inr m) = longest g h xs a.1 m

find_handler-some :
    (method path : List ℕ) (h : ApiHandler) (hs : List ApiHandler)
    → find_handler method path hs ≡ some h
    → IsIn h hs × (fits h method path ≡ true)
unfolding find_handler
find_handler-some method path h [] e = absurd (cc e)
find_handler-some method path h (g ∷ gs) e = elim (Option-cases (find_handler method path gs)) [
  | inr (x, f) ↦
      let same : x ≡ h = cc (rw (find_handler, f) at e) in
      let (m, good) = find_handler-some method path h gs (f ∙ ap some same) in (inr m, good)
  | inl f ↦ elim (Bool-cases (fits g method path)) [
    | inl good ↦
        let same : g ≡ h = cc (rw (find_handler, f, good) at e) in
        (inl same, ap (λ y. fits y method path) (sym same) ∙ good)
    | inr bad ↦ absurd (cc (rw (find_handler, f, bad) at e))
  ]
]

find_handler-none :
    (method path : List ℕ) (h : ApiHandler) (hs : List ApiHandler)
    → find_handler method path hs ≡ none
    → IsIn h hs
    → fits h method path ≡ false
unfolding find_handler
find_handler-none method path h [] e m = absurd m
find_handler-none method path h (g ∷ gs) e m = elim (Option-cases (find_handler method path gs)) [
  | inr (x, f) ↦ absurd (cc (rw (find_handler, f) at e))
  | inl f ↦ elim (Bool-cases (fits g method path)) [
    | inl good ↦ absurd (cc (rw (find_handler, f, good) at e))
    | inr bad ↦ elim m [
      | inl same ↦ ap (λ y. fits y method path) (sym same) ∙ bad
      | inr later ↦ find_handler-none method path h gs f later
    ]
  ]
]

longest_found :
    (method path : List ℕ) (h g : ApiHandler) (hs : List ApiHandler)
    → Ordered hs
    → find_handler method path hs ≡ some h
    → IsIn g hs
    → fits g method path ≡ true
    → length g.pattern ≤ length h.pattern
unfolding find_handler
longest_found method path h g [] o e m good = absurd m
longest_found method path h g (x ∷ xs) o e m good =
    elim (Option-cases (find_handler method path xs)) [
      | inr (y, f) ↦
          let same : y ≡ h = cc (rw (find_handler, f) at e) in
          let found = f ∙ ap some same in
          elim m [
            | inl here ↦ omega (
              arith,
              longest x h xs o.0 (find_handler-some method path h xs found).0,
              ap (λ z. length z.pattern) here,
            )
            | inr later ↦ longest_found method path h g xs o.1 found later good
          ]
      | inl f ↦ elim m [
        | inr later ↦ absurd (cc (find_handler-none method path g xs f later, good))
        | inl here ↦
            let fit : fits x method path ≡ true = ap (λ z. fits z method path) here ∙ good in
            let same : x ≡ h = cc (rw (find_handler, f, fit) at e) in
            let sizes : length x.pattern ≡ length h.pattern = ap (λ z. length z.pattern) same in
            let ours : length x.pattern ≡ length g.pattern = ap (λ z. length z.pattern) here in
            omega (arith, sizes, ours)
      ]
    ]

answer_with-runs :
    (auth : Webauth) (o : Option ApiHandler) (h : ApiHandler)
    → answer_with auth o ≡ runs h
    → o ≡ some h
unfolding authorized
answer_with-runs auth none h e = absurd (cc e)
answer_with-runs no_hook (some x) h e = cc e
answer_with-runs not_started (some x) h e = absurd (cc e)
answer_with-runs refused (some x) h e = absurd (cc e)
answer_with-runs not_waited (some x) h e = absurd (cc e)
answer_with-runs passed (some x) h e = cc e

-- A handler that the serving server runs for a request is one of those that were added, for the
-- request's method and a pattern that the path starts with; the request comes from the server's own
-- host; and no other added handler that fits the request has a longer pattern.
pub handle_request-longest :
    (auth : Webauth) (a : RestServer) (r : Request) (h g : ApiHandler)
    → handle_request auth (serve a) r ≡ runs h
    → IsIn g a.handlers
    → fits g r.method r.path ≡ true
    → IsIn h a.handlers
      × (fits h r.method r.path ≡ true)
      × (same_host r.client r.server ≡ true)
      × (length g.pattern ≤ length h.pattern)
unfolding handle_request serve
handle_request-longest auth a r h g e m good = elim (Bool-cases (same_host r.client r.server)) [
  | inr far ↦ absurd (cc (rw (handle_request, far) at e))
  | inl near ↦
      let found : find_handler r.method r.path (sort_handlers a.handlers) ≡ some h =
        answer_with-runs auth (find_handler r.method r.path (sort_handlers a.handlers)) h
          (rw (handle_request, near) at e) in
      let (here, fit) = find_handler-some r.method r.path h (sort_handlers a.handlers) found in
      (
        (sort_handlers_iff h a.handlers).0 here,
        fit,
        near,
        longest_found r.method r.path h g (sort_handlers a.handlers)
            (sort_handlers-Ordered a.handlers) found ((sort_handlers_iff g a.handlers).1 m) good,
      )
]
