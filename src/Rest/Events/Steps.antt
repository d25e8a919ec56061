-- ===== src/Rest/Events/Steps.antt =====
-- What a step of a request changes in the number of events in hand and in the numbers of the lines.
use v6space.Base.{
  ℕ, suc, ◌+◌, ◌≤◌, ◌≡◌, Bool, true, false, List, [], ◌∷◌, ◌++◌, length, length-append, arith, All,
  All-append, append-nil,
}
use v6space.Rest.Events.{ServerEvent, Progress, received, written, loaded, advance}

abbrev pub total : {A : Type 0} → (A → ℕ) → List A → ℕ
total f [] = 0
total f (x ∷ xs) = f x + total f xs

pub total-append :
    {A : Type 0} (f : A → ℕ) (xs ys : List A) → total f (xs ++ ys) ≡ total f xs + total f ys
total-append f [] ys = omega arith
total-append f (x ∷ xs) ys = omega (arith, total-append f xs ys)

abbrev pub one_if : Bool → ℕ
one_if true = 1
one_if false = 0

-- How many of the events pass a test, among the received ones, the lines and the requests.
abbrev pub count : (ServerEvent → Bool) → List ServerEvent → ℕ
count test es = total (λ e. one_if (test e)) es

abbrev pub count_lines : (ServerEvent → Bool) → List (ℕ × ServerEvent) → ℕ
count_lines test out = total (λ l. one_if (test l.1)) out

abbrev in_hand : (ServerEvent → Bool) → Progress → ℕ
in_hand test (received e) = one_if (test e)
in_hand test written = 0
in_hand test (loaded n) = 0

abbrev pub count_in_hand : (ServerEvent → Bool) → List Progress → ℕ
count_in_hand test rs = total (in_hand test) rs

-- The number of each line is at most the number of the lines before it.
abbrev pub IsNumbered : ℕ → List (ℕ × ServerEvent) → Type 0
IsNumbered k [] = Unit
IsNumbered k ((n, e) ∷ out) = (n ≤ k) × IsNumbered (suc k) out

IsNumbered-append :
    (k n : ℕ) (e : ServerEvent) (out : List (ℕ × ServerEvent))
    → IsNumbered k out
    → n ≤ k + length out
    → IsNumbered k (out ++ (n, e) ∷ [])
IsNumbered-append k n e [] h small = (omega (arith, small), tt)
IsNumbered-append k n e ((m, x) ∷ out) h small =
    (h.0, IsNumbered-append (suc k) n e out h.1 (omega (arith, small)))

-- A request that still has to add its one.
abbrev pub adds_one : Progress → ℕ
adds_one (received e) = 0
adds_one written = 1
adds_one (loaded n) = 1

abbrev pub IsBelow : ℕ → Progress → Type 0
IsBelow top (received e) = Unit
IsBelow top written = Unit
IsBelow top (loaded n) = n ≤ top

IsBelow-suc : (top : ℕ) (r : Progress) → IsBelow top r → IsBelow (top + 1) r
IsBelow-suc top (received e) h = tt
IsBelow-suc top written h = tt
IsBelow-suc top (loaded n) h = omega (arith, h)

All-IsBelow-suc : (top : ℕ) (rs : List Progress) → All (IsBelow top) rs → All (IsBelow (top + 1)) rs
All-IsBelow-suc top [] h = tt
All-IsBelow-suc top (r ∷ rs) h = (IsBelow-suc top r h.0, All-IsBelow-suc top rs h.1)

All-split : (P : Progress → Type 0) (xs ys : List Progress) → All P (xs ++ ys) → All P xs × All P ys
All-split P [] ys h = (tt, h)
All-split P (x ∷ xs) ys h = let (l, r) = All-split P xs ys h.1 in ((h.0, l), r)

-- The numbers: none is above `top`, and the lines make up for `top` and for what is still added.
abbrev pub Bounded : ℕ → List Progress → List (ℕ × ServerEvent) → ℕ → Type 0
Bounded next requests out top =
    (next ≤ top)
    × All (IsBelow top) requests
    × (top + total adds_one requests ≤ length out)
    × IsNumbered 0 out

abbrev no_lines : List (ℕ × ServerEvent)
no_lines = []

pub advance-Bounded :
    (before : List Progress) (r : Progress) (after : List Progress) (next : ℕ)
    (out : List (ℕ × ServerEvent)) (top : ℕ)
    → Bounded next (before ++ r ∷ after) out top
    → (new : ℕ) × Bounded
        (advance r next).next_id
        (before ++ ((advance r next).left ++ after))
        (out ++ (advance r next).line)
        new
unfolding advance
advance-Bounded before (received e) after next out top (low, below, made_up, numbered) =
    let (l, r) = All-split (IsBelow top) before (received e ∷ after) below in
    (
      top,
      (
        low,
        All-append (IsBelow top) before (written ∷ after) l (tt, r.1),
        omega (
          arith,
          made_up,
          total-append adds_one before (received e ∷ after),
          total-append adds_one before (written ∷ after),
          length-append out ((next, e) ∷ []),
        ),
        IsNumbered-append 0 next e out numbered (omega (arith, low, made_up)),
      ),
    )
advance-Bounded before written after next out top (low, below, made_up, numbered) =
    let (l, r) = All-split (IsBelow top) before (written ∷ after) below in
    (
      top,
      (
        low,
        All-append (IsBelow top) before (loaded next ∷ after) l (low, r.1),
        omega (
          arith,
          made_up,
          total-append adds_one before (written ∷ after),
          total-append adds_one before (loaded next ∷ after),
          length-append out no_lines,
        ),
        rw (append-nil out) numbered,
      ),
    )
advance-Bounded before (loaded m) after next out top (low, below, made_up, numbered) =
    let (l, r) = All-split (IsBelow top) before (loaded m ∷ after) below in
    let small : m ≤ top = r.0 in
    (
      top + 1,
      (
        omega (arith, small),
        All-append (IsBelow (top + 1)) before after (All-IsBelow-suc top before l)
            (All-IsBelow-suc top after r.1),
        omega (
          arith,
          made_up,
          total-append adds_one before (loaded m ∷ after),
          total-append adds_one before after,
          length-append out no_lines,
        ),
        rw (append-nil out) numbered,
      ),
    )

-- A step of a request moves its event from the hand to the lines.
pub advance-count :
    (test : ServerEvent → Bool) (before : List Progress) (r : Progress) (after : List Progress)
    (next : ℕ) (out : List (ℕ × ServerEvent))
    → count_lines test (out ++ (advance r next).line)
        + count_in_hand test (before ++ ((advance r next).left ++ after))
      ≡ count_lines test out + count_in_hand test (before ++ r ∷ after)
unfolding advance
advance-count test before (received e) after next out = omega (
  arith,
  total-append (λ l. one_if (test l.1)) out ((next, e) ∷ []),
  total-append (in_hand test) before (received e ∷ after),
  total-append (in_hand test) before (written ∷ after),
)
advance-count test before written after next out = omega (
  arith,
  total-append (λ l. one_if (test l.1)) out no_lines,
  total-append (in_hand test) before (written ∷ after),
  total-append (in_hand test) before (loaded next ∷ after),
)
advance-count test before (loaded m) after next out = omega (
  arith,
  total-append (λ l. one_if (test l.1)) out no_lines,
  total-append (in_hand test) before (loaded m ∷ after),
  total-append (in_hand test) before after,
)
