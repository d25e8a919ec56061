-- ===== src/Cmd/GenKeys.antt =====
-- cmd/genkeys/main.go: the search for a better key. The pairs that ed25519 generates are given
-- as a list; printing is left out.
pub mod Best
use v6space.Base.{
  ℕ, zero, suc, Bool, true, false, ◌||◌, Option, none, some, List, [], ◌∷◌, length, replicate, ◌==◌,
  ltb, if◌then◌else◌,
}
use v6space.Core.Address.{key_size}

-- isBetter, over the bytes of both keys; `newPub[idx]` past the end is not reached for keys of
-- one length.
unfoldable pub is_better : List ℕ → List ℕ → Bool
is_better [] new_pub = false
is_better (o ∷ old_pub) [] = false
is_better (o ∷ old_pub) (n ∷ new_pub) =
    if ltb n o then true else if ltb o n then false else is_better old_pub new_pub

-- main: the best key so far, over the keys that arrive.
unfoldable pub best_of : List ℕ → List (List ℕ) → List ℕ
best_of current [] = current
best_of current (pub_key ∷ keys) =
    best_of (if is_better current pub_key || length current == 0 then pub_key else current) keys

-- doKeys: the keys that one worker sends, over the keys that it generates.
unfoldable pub do_keys : List ℕ → List (List ℕ) → List (List ℕ)
do_keys best_key [] = []
do_keys best_key (pub_key ∷ generated) =
    let next = do_keys pub_key generated in
    let same = do_keys best_key generated in
    if is_better best_key pub_key then pub_key ∷ next else same

abbrev pub worst_key : List ℕ
worst_key = replicate key_size 0xff
