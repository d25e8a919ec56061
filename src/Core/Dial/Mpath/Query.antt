-- ===== src/Core/Dial/Mpath/Query.antt =====
-- A multipath URL with a query, as one with pinned keys.
use v6space.Base.{
  ℕ, ◌≡◌, refl, ap, ◌∙◌, Bool, true, false, Option, none, some, List, [], ◌∷◌, ◌++◌, if◌then◌else◌,
  codes, ◌==◌, split_by, split_by-join_by, Lacks, All-append, lookup,
}
use v6space.Core.Net.{is_some}
use v6space.Core.Dial.{LinkInfo, info_Eq, link_info_for, tcp_name}
use v6space.Core.Dial.Mpath.{
  hosts_of, System, resolved_target, remote_targets, some_targets, source_on, no_targets, conn_to,
  conn_for,
}

-- `mpath://host?query`.
abbrev pub query_url : List ℕ → List ℕ → List ℕ
query_url host query = codes "mpath://" ++ (host ++ b'?' ∷ query)

query_url-hosts :
    (host query : List ℕ)
    → Lacks b'/' host
    → Lacks b'/' query
    → hosts_of (query_url host query) ≡ some ((host ++ b'?' ∷ query) ∷ [])
unfolding hosts_of split_by
query_url-hosts host query h q =
    let rest = host ++ b'?' ∷ query in
    let whole : split_by b'/' rest ≡ (rest, []) =
      split_by-join_by b'/' rest []
        (All-append (λ c. (c == b'/') ≡ false) host (b'?' ∷ query) h (refl, q)) tt refl in
    rw (hosts_of, whole) refl

remote_targets-none :
    (sys : System) (links : List (LinkInfo × Option ℕ)) (sintf host : List ℕ)
    → sys.resolve host ≡ none
    → remote_targets sys links sintf (host ∷ []) ≡ []
unfolding remote_targets
remote_targets-none sys links sintf host e =
    rw (remote_targets, e)
      (go (is_some (lookup (link_info_for tcp_name sintf (sys.target_text none)) links)))
  where
    go : (b : Bool) → (if b then [] else resolved_target sintf none []) ≡ []
    go true = refl
    go false = refl

-- Let the query of a multipath URL have no slash. Then the query is taken for a part of the only
-- host's name, and if no such name resolves, there is no target and nothing is dialled, also where
-- the host itself resolves.
pub conn_for-query :
    (sys : System) (links : List (LinkInfo × Option ℕ)) (host query sintf : List ℕ)
    → Lacks b'/' host
    → Lacks b'/' query
    → sys.resolve (host ++ b'?' ∷ query) ≡ none
    → conn_for sys links (query_url host query) sintf ≡ no_targets
unfolding conn_for
conn_for-query sys links host query sintf h q e =
    ap (conn_to sys links sintf) (query_url-hosts host query h q)
    ∙ ap (some_targets (λ name dst. source_on dst (sys.interface_by_name name)) sintf)
        (remote_targets-none sys links sintf (host ++ b'?' ∷ query) e)
