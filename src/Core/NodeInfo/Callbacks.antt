-- ===== src/Core/NodeInfo/Callbacks.antt =====
-- The callbacks of the node information.
use v6space.Base.{
  ℕ, ◌-◌, ◌≡◌, refl, sym, ◌∙◌, inl, inr, false, Option, none, some, List, [], ◌∷◌, ltb,
  if◌then◌else◌, bytes_Eq, bytes_eq, bytes_eq_iff, bytes_eq_refl, lookup, insert, erase,
  lookup-insert, lookup-erase, Bool-cases,
}
use v6space.Core.NodeInfo.{
  Callback, Nodeinfo, send, calls, drop_stale, cleanup, add_callback, run_callback, send_req,
  type_session_proto, type_proto_node_info_request,
}

-- A request with a callback, and its answer: the request is sent, the first answer from that node
-- goes to the callback, once; a second answer goes nowhere, and other nodes' callbacks stay.
pub request_answered :
    (now : ℕ) (key other info info' : List ℕ) (call : ℕ) (m : Nodeinfo)
    → bytes_eq key other ≡ false
    → let asked = send_req now key (some call) m in
      let answered = run_callback key info asked.0 in
      (asked.1 ≡ send key (type_session_proto ∷ type_proto_node_info_request ∷ []) ∷ [])
      × (answered.1 ≡ calls call info ∷ [])
      × ((run_callback key info' answered.0).1 ≡ [])
      × (lookup other answered.0.callbacks ≡ lookup other m.callbacks)
unfolding send_req add_callback run_callback
request_answered now key other info info' call m ne =
    let c : Callback = record { call = call; created = now } in
    let there : lookup key (insert key c m.callbacks) ≡ some c =
      rw (lookup-insert key key c m.callbacks, bytes_eq_refl key) refl in
    let gone : lookup key (erase key (insert key c m.callbacks)) ≡ none =
      rw (lookup-erase key key (insert key c m.callbacks), bytes_eq_refl key) refl in
    let kept : lookup other (erase key (insert key c m.callbacks)) ≡ lookup other m.callbacks =
      rw
        (
          lookup-erase key other (insert key c m.callbacks),
          ne,
          lookup-insert key other c m.callbacks,
          ne,
        )
        refl in
    (
      refl,
      rw (run_callback, there) refl,
      rw (run_callback, there, gone) refl,
      rw (run_callback, there) kept,
    )

-- A key stands once in the map.
abbrev pub IsKeyed : List (List ℕ × Callback) → Type 0
IsKeyed [] = Unit
IsKeyed ((k, c) ∷ m) = (lookup k m ≡ none) × IsKeyed m

-- What a clean-up leaves of one entry.
unfoldable pub young_only : ℕ → Option Callback → Option Callback
young_only now none = none
young_only now (some c) = if ltb 60 (now - c.created) then none else some c

drop_stale_lem :
    (now : ℕ) (key : List ℕ) (m : List (List ℕ × Callback))
    → IsKeyed m
    → lookup key (drop_stale now m) ≡ young_only now (lookup key m)
unfolding lookup drop_stale young_only
drop_stale_lem now key [] w = refl
drop_stale_lem now key ((k, d) ∷ m) (fresh, w) =
    let ih = drop_stale_lem now key m w in
    elim (Bool-cases (bytes_eq k key)) [
      | inl e ↦
          let same : key ≡ k = sym ((bytes_eq_iff k key).0 e) in
          let absent : lookup key m ≡ none = rw (same) fresh in
          let empty : lookup key (drop_stale now m) ≡ none = ih ∙ rw (young_only, absent) refl in
          elim (Bool-cases (ltb 60 (now - d.created))) [
            | inl old ↦ rw (drop_stale, old, lookup, e, young_only, old, empty) refl
            | inr young ↦ rw (drop_stale, young, lookup, e, young_only, young) refl
          ]
      | inr e ↦ elim (Bool-cases (ltb 60 (now - d.created))) [
        | inl old ↦ rw (drop_stale, old, lookup, e) ih
        | inr young ↦ rw (drop_stale, young, lookup, e) ih
      ]
    ]

-- In a map where a key stands once, the clean-up keeps a node's callback where it is at most a
-- minute old, and else the node has none after it.
pub cleanup_cases :
    (now : ℕ) (key : List ℕ) (m : Nodeinfo)
    → IsKeyed m.callbacks
    → lookup key (cleanup now m).callbacks ≡ young_only now (lookup key m.callbacks)
unfolding cleanup
cleanup_cases now key m w = drop_stale_lem now key m.callbacks w
