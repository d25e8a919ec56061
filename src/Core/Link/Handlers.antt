-- ===== src/Core/Link/Handlers.antt =====
-- The handlers of all connections, interleaved, over the shared table of links.
use v6space.Base.{
  ℕ, ◌≡◌, ◌≢◌, refl, sym, ap, ◌∙◌, ◌⊎◌, inl, inr, true, false, Option, none, some, List, ◌==◌,
  ==_iff, if◌then◌else◌, nat_Eq, lookup, insert, erase, lookup-insert, lookup-erase, arith,
  Bool-cases, Option-cases,
}
use mathlib.Core.Path.{subst}
use v6space.Core.Link.{
  Link, Wire, Verdict, rejected, accepted, handshake, Phase, opened, unmarked, shaking, linked,
  closed, Links, set_phase, init, is_connected_to, look, mark, leave, register, conclude,
}

module _ (links : ℕ → Link) (allowed : List (List ℕ)) where
  -- One step of some handler.
  pub data Step : Links → Links → Type 0 where
    looks : (i : ℕ) (s : Links) → s.phase i ≡ opened → Step s (look links i s)
    marks : (i : ℕ) (s : Links) → s.phase i ≡ unmarked → Step s (mark links i s)
    shakes :
        (i : ℕ) (s : Links) (w : Wire)
        → s.phase i ≡ shaking
        → Step s (conclude links (handshake allowed (links i) w) i s)
    ends : (i : ℕ) (s : Links) → s.phase i ≡ linked → Step s (leave links i s)

  pub data Reach : Links → Type 0 where
    start : Reach init
    next : (s t : Links) → Reach s → Step s t → Reach t

  -- An entry's value says which handler holds it: nil one between marking and the verdict, a link
  -- its own handler, which runs it.
  abbrev pub IsHeld : Links → ℕ → Option ℕ → Type 0
  IsHeld s info none = (i : ℕ) × ((links i).info ≡ info) × (s.phase i ≡ shaking)
  IsHeld s info (some i) = ((links i).info ≡ info) × (s.phase i ≡ linked)

  abbrev Inv : Links → Type 0
  Inv s = (info : ℕ) (v : Option ℕ) → lookup info s.entries ≡ some v → IsHeld s info v

  phase_kept :
      (i j : ℕ) (p q r : Phase) (s : ℕ → Phase) → s i ≡ p → s j ≡ q → p ≢ q → set_phase i r s j ≡ q
  phase_kept i j p q r s hi hj ne = elim (Bool-cases (i == j)) [
    | inl e ↦ absurd (ne (sym hi ∙ ap s ((==_iff i j).0 e) ∙ hj))
    | inr e ↦ rw e hj
  ]

  phase_set : (i : ℕ) (p : Phase) (s : ℕ → Phase) → set_phase i p s i ≡ p
  phase_set i p s = let e : i == i ≡ true = ground arith in rw e refl

  -- A step that leaves the entries alone, of a handler that holds none.
  quiet :
      (i : ℕ) (p r : Phase) (s : Links)
      → s.phase i ≡ p
      → p ≢ shaking
      → p ≢ linked
      → Inv s
      → Inv (record s { phase = set_phase i r s.phase })
  quiet i p r s hi ns nl inv info none e =
      let (j, own, hj) = inv info none e in (j, own, phase_kept i j p shaking r s.phase hi hj ns)
  quiet i p r s hi ns nl inv info (some j) e =
      let (own, hj) = inv info (some j) e in (own, phase_kept i j p linked r s.phase hi hj nl)

  other_phase :
      (i info j : ℕ) (r : Phase) (f : ℕ → Phase)
      → ((links i).info == info) ≡ false
      → (links j).info ≡ info
      → set_phase i r f j ≡ f j
  other_phase i info j r f ne own = elim (Bool-cases (i == j)) [
    | inl e ↦
        let same : (links i).info ≡ info = ap (λ n. (links n).info) ((==_iff i j).0 e) ∙ own in
        absurd (cc (ne, (==_iff (links i).info info).1 same))
    | inr e ↦ rw e refl
  ]

  -- A handler's step does not touch what other keys' entries say.
  other-IsHeld :
      (i info : ℕ) (r : Phase) (s : Links) (entries : List (ℕ × Option ℕ)) (v : Option ℕ)
      → ((links i).info == info) ≡ false
      → IsHeld s info v
      → IsHeld (record { entries = entries; phase = set_phase i r s.phase }) info v
  other-IsHeld i info r s entries none ne (j, own, hj) =
      (j, own, other_phase i info j r s.phase ne own ∙ hj)
  other-IsHeld i info r s entries (some j) ne (own, hj) =
      (own, other_phase i info j r s.phase ne own ∙ hj)

  put-Inv :
      (i : ℕ) (r : Phase) (v : Option ℕ) (s : Links)
      → IsHeld
          (record { entries = insert (links i).info v s.entries; phase = set_phase i r s.phase })
          (links i).info
          v
      → Inv s
      → Inv (record { entries = insert (links i).info v s.entries; phase = set_phase i r s.phase })
  put-Inv i r v s held inv info u e =
      let after : Links = record {
        entries = insert (links i).info v s.entries;
        phase = set_phase i r s.phase;
      } in
      let looked = sym (lookup-insert (links i).info info v s.entries) ∙ e in
      elim (Bool-cases ((links i).info == info)) [
        | inl same ↦
            let at : (links i).info ≡ info = (==_iff (links i).info info).0 same in
            let now : v ≡ u =
              cc (ap (λ t. if t then some v else lookup info s.entries) (sym same) ∙ looked) in
            subst (λ n. IsHeld after n u) at (subst (IsHeld after (links i).info) now held)
        | inr ne ↦
            other-IsHeld i info r s (insert (links i).info v s.entries) u ne
              (inv info u (ap (λ t. if t then some v else lookup info s.entries) (sym ne) ∙ looked))
      ]

  delete-Inv : (i : ℕ) (s : Links) → Inv s → Inv (leave links i s)
  unfolding leave
  delete-Inv i s inv info u e =
      let looked = sym (lookup-erase (links i).info info s.entries) ∙ e in
      elim (Bool-cases ((links i).info == info)) [
        | inl same ↦
            absurd (cc (ap (λ t. if t then none else lookup info s.entries) (sym same) ∙ looked))
        | inr ne ↦
            other-IsHeld i info closed s (erase (links i).info s.entries) u ne
              (inv info u (ap (λ t. if t then none else lookup info s.entries) (sym ne) ∙ looked))
      ]

  conclude-Inv : (v : Verdict) (i : ℕ) (s : Links) → Inv s → Inv (conclude links v i s)
  unfolding conclude register
  conclude-Inv (rejected f) i s inv = delete-Inv i s inv
  conclude-Inv (accepted key) i s inv =
      put-Inv i linked (some i) s (refl, phase_set i linked s.phase) inv

  Step-Inv : (s t : Links) → Step s t → Inv s → Inv t
  unfolding look mark
  Step-Inv s t (looks i s' h) inv =
      quiet i opened _ s h (λ e. absurd (cc e)) (λ e. absurd (cc e)) inv
  Step-Inv s t (marks i s' h) inv =
      put-Inv i shaking none s (i, refl, phase_set i shaking s.phase) inv
  Step-Inv s t (shakes i s' w h) inv = conclude-Inv (handshake allowed (links i) w) i s inv
  Step-Inv s t (ends i s' h) inv = delete-Inv i s inv

  -- In every reachable state an entry of the table is held by a running handler with that link
  -- information: a nil by one that is between marking and its verdict, a link by the handler that
  -- runs it.
  pub entry-IsHeld :
      (s : Links) (info : ℕ) (v : Option ℕ)
      → Reach s
      → lookup info s.entries ≡ some v
      → IsHeld s info v
  unfolding lookup
  entry-IsHeld s info v r = reach-Inv s r info v
    where
      reach-Inv : (s : Links) → Reach s → Inv s
      reach-Inv s start = λ info v e. absurd (cc e)
      reach-Inv s (next s' t r step) = Step-Inv s' s step (reach-Inv s' r)

  -- When every handler has ended, the table has no entries.
  pub all_ended :
      (s : Links) (info : ℕ)
      → Reach s
      → ((i : ℕ) → (s.phase i ≡ opened) ⊎ (s.phase i ≡ closed))
      → lookup info s.entries ≡ none
  all_ended s info r ended = elim (Option-cases (lookup info s.entries)) [
    | inl e ↦ e
    | inr (v, e) ↦ absurd (idle v (entry-IsHeld s info v r e))
  ]
    where
      idle : (v : Option ℕ) → IsHeld s info v → ⊥
      idle none (i, own, h) = elim (ended i) [
        | inl e ↦ absurd (cc (e, h))
        | inr e ↦ absurd (cc (e, h))
      ]
      idle (some i) (own, h) = elim (ended i) [
        | inl e ↦ absurd (cc (e, h))
        | inr e ↦ absurd (cc (e, h))
      ]

  -- Two connections with the same link information, whose handshakes are both accepted, can both
  -- become links: a state is reachable in which both run, since both may look at the table before
  -- either marks its link there.
  pub double_link :
      (i j : ℕ) (w v : Wire) (key key' : List ℕ)
      → i ≢ j
      → (links i).info ≡ (links j).info
      → handshake allowed (links i) w ≡ accepted key
      → handshake allowed (links j) v ≡ accepted key'
      → (s : Links) × Reach s × (s.phase i ≡ linked) × (s.phase j ≡ linked)
  unfolding look mark register conclude is_connected_to lookup
  double_link i j w v key key' ne same hw hv =
      let ii : i == i ≡ true = ground arith in
      let jj : j == j ≡ true = ground arith in
      let ij : i == j ≡ false = ground (arith, ne) in
      let ji : j == i ≡ false = ground (arith, ne) in
      let s1 = look links i init in
      let s2 = look links j s1 in
      let s3 = mark links i s2 in
      let s4 = mark links j s3 in
      let s5 = conclude links (handshake allowed (links i) w) i s4 in
      let s6 = conclude links (handshake allowed (links j) v) j s5 in
      let r2 = next s1 s2 (next init s1 start (looks i init refl)) (looks j s1 (rw ij refl)) in
      let r3 = next s2 s3 r2 (marks i s2 (rw (ji, ii) refl)) in
      let r4 = next s3 s4 r3 (marks j s3 (rw (ij, jj) refl)) in
      let r5 = next s4 s5 r4 (shakes i s4 w (rw (ji, ii) refl)) in
      let r6 = next s5 s6 r5 (shakes j s5 v (rw (hw, ij, jj) refl)) in
      (s6, r6, rw (hv, hw, ji, ii) refl, rw (hv, jj) refl)
