-- ===== src/Rest/Handlers.antt =====
-- What AddHandler keeps of the table of handlers and of the routes.
use v6space.Base.{
  ℕ, ◌≡◌, refl, ◌⊎◌, inl, inr, true, false, ◌&&◌, some, List, [], ◌∷◌, ◌++◌, bytes_eq, bytes_eq_iff,
  All, All-append, arith, Bool-cases, Option-cases,
}
use mathlib.Core.Path.{subst}
use v6space.Rest.{
  ApiHandler, path_of, RestServer, has_handler, has_pattern, add_handler, add_handlers,
}

-- No two handlers have the same method and the same pattern.
abbrev pub AreDistinct : List ApiHandler → Type 0
AreDistinct [] = Unit
AreDistinct (h ∷ hs) = (has_handler h.method h.pattern hs ≡ false) × AreDistinct hs

abbrev pub IsRouted : List ℕ → List (List ℕ) → Type 0
IsRouted path [] = ⊥
IsRouted path (r ∷ rs) = (r ≡ path) ⊎ IsRouted path rs

-- The handlers are distinct, and each has a route.
abbrev pub Inv : RestServer → Type 0
Inv a = AreDistinct a.handlers × All (λ h. IsRouted (path_of h.pattern) a.routes) a.handlers

has_handler-append :
    (h g : ApiHandler) (hs : List ApiHandler)
    → has_handler g.method g.pattern hs ≡ false
    → (bytes_eq h.method g.method && bytes_eq h.pattern g.pattern) ≡ false
    → has_handler g.method g.pattern (hs ++ h ∷ []) ≡ false
unfolding has_handler
has_handler-append h g [] none_there differs = rw differs refl
has_handler-append h g (x ∷ hs) none_there differs =
    ground (arith, none_there, has_handler-append h g hs (ground (arith, none_there)) differs)

same_sym :
    (h g : ApiHandler)
    → (bytes_eq h.method g.method && bytes_eq h.pattern g.pattern) ≡ false
    → (bytes_eq g.method h.method && bytes_eq g.pattern h.pattern) ≡ false
same_sym h g e = ground (
  arith,
  e,
  bytes_eq_iff h.method g.method,
  bytes_eq_iff h.pattern g.pattern,
  bytes_eq_iff g.method h.method,
  bytes_eq_iff g.pattern h.pattern,
)

append-AreDistinct :
    (h : ApiHandler) (hs : List ApiHandler)
    → AreDistinct hs
    → has_handler h.method h.pattern hs ≡ false
    → AreDistinct (hs ++ h ∷ [])
unfolding has_handler
append-AreDistinct h [] d e = (refl, tt)
append-AreDistinct h (g ∷ hs) d e = (
  has_handler-append h g hs d.0 (same_sym g h (ground (arith, e))),
  append-AreDistinct h hs d.1 (ground (arith, e)),
)

IsRouted-append :
    (path : List ℕ) (rs qs : List (List ℕ)) → IsRouted path rs → IsRouted path (rs ++ qs)
IsRouted-append path [] qs m = absurd m
IsRouted-append path (r ∷ rs) qs (inl e) = inl e
IsRouted-append path (r ∷ rs) qs (inr m) = inr (IsRouted-append path rs qs m)

IsRouted-last : (path : List ℕ) (rs : List (List ℕ)) → IsRouted path (rs ++ path ∷ [])
IsRouted-last path [] = inl refl
IsRouted-last path (r ∷ rs) = inr (IsRouted-last path rs)

more_routes :
    (rs : List (List ℕ)) (path : List ℕ) (hs : List ApiHandler)
    → All (λ h. IsRouted (path_of h.pattern) rs) hs
    → All (λ h. IsRouted (path_of h.pattern) (rs ++ path ∷ [])) hs
more_routes rs path [] a = tt
more_routes rs path (h ∷ hs) a =
    (IsRouted-append (path_of h.pattern) rs (path ∷ []) a.0, more_routes rs path hs a.1)

has_pattern-IsRouted :
    (pattern : List ℕ) (rs : List (List ℕ)) (hs : List ApiHandler)
    → has_pattern pattern hs ≡ true
    → All (λ h. IsRouted (path_of h.pattern) rs) hs
    → IsRouted (path_of pattern) rs
unfolding has_pattern
has_pattern-IsRouted pattern rs [] e a = absurd (cc e)
has_pattern-IsRouted pattern rs (h ∷ hs) e a = elim (Bool-cases (bytes_eq h.pattern pattern)) [
  | inl same ↦ subst (λ p. IsRouted (path_of p) rs) ((bytes_eq_iff h.pattern pattern).0 same) a.0
  | inr other ↦ has_pattern-IsRouted pattern rs hs (rw (has_pattern, other) at e) a.1
]

add_handler-Inv : (h : ApiHandler) (a b : RestServer) → Inv a → add_handler h a ≡ some b → Inv b
unfolding add_handler
add_handler-Inv h a b i e = elim (Bool-cases (has_handler h.method h.pattern a.handlers)) [
  | inl there ↦ absurd (cc (rw (add_handler, there) at e))
  | inr fresh ↦ elim (Bool-cases (has_pattern h.pattern a.handlers)) [
    | inl known ↦
        let made : record { handlers = a.handlers ++ h ∷ []; routes = a.routes } ≡ b =
          cc (rw (add_handler, fresh, known) at e) in
        subst Inv made (
          append-AreDistinct h a.handlers i.0 fresh,
          All-append (λ x. IsRouted (path_of x.pattern) a.routes) a.handlers (h ∷ []) i.1
              (has_pattern-IsRouted h.pattern a.routes a.handlers known i.1, tt),
        )
    | inr new ↦
        let routes = a.routes ++ path_of h.pattern ∷ [] in
        let made : record { handlers = a.handlers ++ h ∷ []; routes = routes } ≡ b =
          cc (rw (add_handler, fresh, new) at e) in
        subst Inv made (
          append-AreDistinct h a.handlers i.0 fresh,
          All-append (λ x. IsRouted (path_of x.pattern) routes) a.handlers (h ∷ [])
              (more_routes a.routes (path_of h.pattern) a.handlers i.1)
              (IsRouted-last (path_of h.pattern) a.routes, tt),
        )
  ]
]

-- However many handlers are added to a server, one after the other, in any order and with
-- repetitions: if at first no two handlers had the same method and pattern and every handler had a
-- route, the same holds at the end.
pub add_handlers-Inv : (hs : List ApiHandler) (a : RestServer) → Inv a → Inv (add_handlers hs a)
unfolding add_handlers
add_handlers-Inv [] a i = i
add_handlers-Inv (h ∷ hs) a i = elim (Option-cases (add_handler h a)) [
  | inl e ↦ rw (add_handlers, e) (add_handlers-Inv hs a i)
  | inr (b, e) ↦ rw (add_handlers, e) (add_handlers-Inv hs b (add_handler-Inv h a b i e))
]
