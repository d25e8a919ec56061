-- ===== src/Core/Link.antt =====
-- src/core/link.go: the handler of one connection and the table of links that the handlers share.
-- A connection is a number. What its reads, writes and deadlines do is a parameter, Wire. Each
-- phony.Block on the table is one step, and handlers interleave between the steps.
pub mod Handshake
pub mod Handlers
use v6space.Base.{
  ℕ, Bool, true, false, not, ◌&&◌, ◌||◌, Option, none, some, List, [], ◌∷◌, length, ◌==◌,
  if◌then◌else◌, bytes_eq, Eq, nat_Eq, lookup, insert, erase,
}
use v6space.Core.Version.{Metadata, decode, check, meta_length}

pub record LinkOptions : Type 0 where
  pub pinned_keys : List (List ℕ)
  pub priority : ℕ

-- link, without its connection and its table; `info` numbers the linkInfo that is the table's key.
pub record Link : Type 0 where
  pub options : LinkOptions
  pub info : ℕ
  pub incoming : Bool
  pub force : Bool

-- The connection's behaviour in a handshake: whether the two deadlines were set, the bytes that
-- were written, if that is no error, and what was read, if that is no error.
pub record Wire : Type 0 where
  pub deadline_set : Bool
  pub written : Option ℕ
  pub received : Option (List ℕ)
  pub deadline_cleared : Bool

pub data Fault : Type 0 where
  no_deadline write_failed incomplete_send read_failed not_cleared : Fault
  not_decoded incompatible not_pinned not_allowed : Fault

pub data Verdict : Type 0 where
  rejected : Fault → Verdict
  accepted : List ℕ → Verdict

-- Whether a key stands in a set of keys.
unfoldable pub member : List ℕ → List (List ℕ) → Bool
member key [] = false
member key (k ∷ keys) = bytes_eq k key || member key keys

abbrev pub is_empty {ℓ} : {A : Type ℓ} → List A → Bool
is_empty [] = true
is_empty (x ∷ xs) = false

-- The checks on what the other node sent, against its options and the allowed keys.
unfoldable pub admit : List (List ℕ) → Link → Metadata → Verdict
admit allowed l meta =
    if not (check meta)
    then rejected incompatible
    else if not (is_empty l.options.pinned_keys) && not (member meta.key l.options.pinned_keys)
    then rejected not_pinned
    else if l.incoming && not l.force && not (is_empty allowed || member meta.key allowed)
    then rejected not_allowed
    else accepted meta.key

unfoldable pub read_meta : List (List ℕ) → Link → List ℕ → Verdict
read_meta allowed l bs = elim (decode bs) [
  | none ↦ rejected not_decoded
  | some meta ↦ admit allowed l meta
]

-- The handshake, from the first deadline to the last check.
unfoldable pub handshake : List (List ℕ) → Link → Wire → Verdict
handshake allowed l w = if not w.deadline_set then rejected no_deadline else elim w.written [
  | none ↦ rejected write_failed
  | some n ↦ if not (n == meta_length) then rejected incomplete_send else elim w.received [
    | none ↦ rejected read_failed
    | some bs ↦ if not w.deadline_cleared then rejected not_cleared else read_meta allowed l bs
  ]
]

-- Where a handler is: before its first look at the table, after it found no entry, between marking
-- the link and the verdict, while the link runs, and after its last deferred call.
pub data Phase : Type 0 where
  opened unmarked shaking linked closed : Phase

-- `_links`, with `none` for nil, and the handlers' phases.
pub record Links : Type 0 where
  pub entries : List (ℕ × Option ℕ)
  pub phase : ℕ → Phase

abbrev pub set_phase : ℕ → Phase → (ℕ → Phase) → ℕ → Phase
set_phase i p f j = if i == j then p else f j

abbrev pub init : Links
init = record { entries = []; phase = λ i. opened }

-- isConnectedTo.
unfoldable pub is_connected_to : ℕ → Links → Bool
is_connected_to info s = elim (lookup info s.entries) [ none ↦ false | some v ↦ true ]

module _ (links : ℕ → Link) where
  -- `if intf.links.isConnectedTo(intf.info) { return nil }`.
  unfoldable pub look : ℕ → Links → Links
  look i s =
      let next = if is_connected_to (links i).info s then closed else unmarked in
      record s { phase = set_phase i next s.phase }

  -- `_links[intf.info] = nil`.
  unfoldable pub mark : ℕ → Links → Links
  mark i s = record {
    entries = insert (links i).info none s.entries;
    phase = set_phase i shaking s.phase;
  }

  -- The deferred delete and Close.
  unfoldable pub leave : ℕ → Links → Links
  leave i s = record {
    entries = erase (links i).info s.entries;
    phase = set_phase i closed s.phase;
  }

  -- `_links[intf.info] = intf`.
  unfoldable pub register : ℕ → Links → Links
  register i s = record {
    entries = insert (links i).info (some i) s.entries;
    phase = set_phase i linked s.phase;
  }

  -- The verdict's consequence.
  unfoldable pub conclude : Verdict → ℕ → Links → Links
  conclude (rejected f) i s = leave i s
  conclude (accepted key) i s = register i s
