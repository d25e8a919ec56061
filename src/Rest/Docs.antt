-- ===== src/Rest/Docs.antt =====
-- The documentation page of the control server: getApiHandler of src/restapi/rest_server.go.
use v6space.Base.{
  ℕ, ◌≡◌, refl, sym, ap, ◌∙◌, Bool, true, false, ◌||◌, ◌&&◌, Option, none, some, List, [], ◌∷◌, map,
  if◌then◌else◌, lookup, insert, lookup-insert, bytes_Eq, bytes_eq, bytes_eq_iff, Bool-cases, inl,
  inr,
}
use v6space.Core.Net.{is_some}
use v6space.Cmd.Mesh.{lower}
use v6space.Rest.{ApiHandler}
use v6space.Rest.Peers.Options.{or_assoc, or_swap, or_false}

-- The documented methods of a pattern, with their descriptions.
abbrev pub Methods : Type 0
Methods = List (List ℕ × List ℕ)

abbrev pub methods_or_empty : Option Methods → Methods
methods_or_empty none = []
methods_or_empty (some ms) = ms

-- One round of the loop: the maps of the pattern and of the method are made where they are missing.
unfoldable pub add_path :
    (ℕ → List ℕ) → ApiHandler → List (List ℕ × Methods) → List (List ℕ × Methods)
add_path desc h paths =
    insert h.pattern
      (insert (map lower h.method) (desc h.handler) (methods_or_empty (lookup h.pattern paths)))
      paths

unfoldable pub paths_of :
    (ℕ → List ℕ) → List ApiHandler → List (List ℕ × Methods) → List (List ℕ × Methods)
paths_of desc [] paths = paths
paths_of desc (h ∷ hs) paths = paths_of desc hs (add_path desc h paths)

-- getApiHandler without the table format, over whether the document can be marshalled: the status
-- and the paths of the document.
unfoldable pub get_api : Bool → (ℕ → List ℕ) → List ApiHandler → ℕ × List (List ℕ × Methods)
get_api marshals desc hs = if marshals then (200, paths_of desc hs []) else (500, [])

-- Whether a pattern is documented for a method in lower case.
abbrev pub is_documented : List ℕ → List ℕ → List (List ℕ × Methods) → Bool
is_documented pattern method paths =
    is_some (lookup method (methods_or_empty (lookup pattern paths)))

-- Whether a handler has the pattern, and the method but for the case.
abbrev pub has_lower : List ℕ → List ℕ → List ApiHandler → Bool
has_lower pattern method [] = false
has_lower pattern method (h ∷ hs) =
    (bytes_eq h.pattern pattern && bytes_eq (map lower h.method) method)
    || has_lower pattern method hs

is_some-insert :
    (k j v : List ℕ) (m : Methods)
    → is_some (lookup j (insert k v m)) ≡ (bytes_eq k j || is_some (lookup j m))
is_some-insert k j v m = ap is_some (lookup-insert k j v m) ∙ go (bytes_eq k j)
  where
    go : (b : Bool) → is_some (if b then some v else lookup j m) ≡ (b || is_some (lookup j m))
    go true = refl
    go false = refl

is_documented-add_path :
    (desc : ℕ → List ℕ) (h : ApiHandler) (pattern method : List ℕ) (paths : List (List ℕ × Methods))
    → is_documented pattern method (add_path desc h paths) ≡ (
        (bytes_eq h.pattern pattern && bytes_eq (map lower h.method) method)
        || is_documented pattern method paths)
unfolding add_path
is_documented-add_path desc h pattern method paths =
    let ms = methods_or_empty (lookup h.pattern paths) in
    let added = insert (map lower h.method) (desc h.handler) ms in
    ap (λ o. is_some (lookup method (methods_or_empty o)))
      (lookup-insert h.pattern pattern added paths)
    ∙ elim (Bool-cases (bytes_eq h.pattern pattern)) [
      | inl e ↦
          let same : h.pattern ≡ pattern = (bytes_eq_iff h.pattern pattern).0 e in
          rw e (
            is_some-insert (map lower h.method) method (desc h.handler) ms
            ∙ ap (λ p. bytes_eq (map lower h.method) method || is_documented p method paths) same)
      | inr e ↦ rw e refl
    ]

is_documented-paths_of :
    (desc : ℕ → List ℕ) (hs : List ApiHandler) (pattern method : List ℕ)
    (paths : List (List ℕ × Methods))
    → is_documented pattern method (paths_of desc hs paths)
      ≡ (has_lower pattern method hs || is_documented pattern method paths)
unfolding paths_of
is_documented-paths_of desc [] pattern method paths = refl
is_documented-paths_of desc (h ∷ hs) pattern method paths =
    let here = bytes_eq h.pattern pattern && bytes_eq (map lower h.method) method in
    is_documented-paths_of desc hs pattern method (add_path desc h paths)
    ∙ ap (λ b. has_lower pattern method hs || b)
        (is_documented-add_path desc h pattern method paths)
    ∙ or_swap (has_lower pattern method hs) here (is_documented pattern method paths)
    ∙ sym (or_assoc here (has_lower pattern method hs) (is_documented pattern method paths))

-- The documentation page has exactly the patterns and methods of the handlers, the methods in
-- lower case.
pub get_api_lem :
    (desc : ℕ → List ℕ) (hs : List ApiHandler) (pattern method : List ℕ)
    → ((get_api true desc hs).0 ≡ 200)
      × (is_documented pattern method (get_api true desc hs).1 ≡ has_lower pattern method hs)
unfolding get_api lookup
get_api_lem desc hs pattern method = (
  refl,
  is_documented-paths_of desc hs pattern method [] ∙ or_false (has_lower pattern method hs),
)
