-- ===== src/Gateway/Poller/Logs.antt =====
-- The logs of the four events, sorted, are the chain's events in their order.
use based_ai.Prelude.{
  ℕ, zero, suc, ◌+◌, ◌≤◌, ◌≡◌, refl, ap, sym, true, false, String, List, [], ◌∷◌, ◌++◌, arith, inl,
  inr, select, contains, All, Bool-cases,
}
use based_ai.Prelude.Lists.{All-append, All-select, All-map}
use mathlib.Core.List.{append_assoc}
use based_ai.Prelude.Eq.{◌==◌, string_eq}
use text.Mathlib.TextEquality.{eq_iff}
use based_ai.Prelude.Text.{Str}
use based_ai.Prelude.Sort.{sorted, insert}
use based_ai.Gateway.{Event}
use based_ai.Gateway.Poller.{event_le, event_names}

-- A chain, as it is at one time: each block's hash, and the registry's events in it.
pub record Chain : Type 0 where
  pub hash : ℕ → Str
  pub events : ℕ → List Event

-- The events of a number of blocks from `b` on.
unfoldable pub range : Chain → ℕ → ℕ → List Event
range c b zero = []
range c b (suc k) = c.events b ++ range c (b + 1) k

-- The event comes strictly before all of these.
abbrev pub Precedes : Event → List Event → Type 0
Precedes x = All (λ y. event_le y x ≡ false)

abbrev pub Ascending : List Event → Type 0
Ascending [] = Unit
Ascending (x ∷ l) = Precedes x l × Ascending l

-- A chain's events carry their block's number, are of the four kinds, and have ascending indices.
pub record IsChain (c : Chain) : Type 0 where
  pub tagged : (n : ℕ) → All (λ e. e.block_number ≡ n) (c.events n)
  pub named : (n : ℕ) → All (λ e. contains e.name event_names ≡ true) (c.events n)
  pub ordered : (n : ℕ) → Ascending (c.events n)

-- An event that precedes the others stands first once they are sorted, wherever it was put.
insert-first : (x : Event) (l : List Event) → Precedes x l → insert event_le x l ≡ x ∷ l
unfolding insert event_le
insert-first x [] h = refl
insert-first x (y ∷ l) (p, h) = ground arith

Precedes-insert :
    (x a : Event) (l : List Event)
    → event_le a x ≡ false
    → Precedes x l
    → Precedes x (insert event_le a l)
unfolding insert
Precedes-insert x a [] p h = (p, tt)
Precedes-insert x a (y ∷ l) p (q, h) = elim (Bool-cases (event_le a y)) [
  | inl e ↦ rw e (p, (q, h))
  | inr e ↦ rw e (q, Precedes-insert x a l p h)
]

Precedes-sorted : (x : Event) (l : List Event) → Precedes x l → Precedes x (sorted event_le l)
unfolding sorted
Precedes-sorted x [] h = tt
Precedes-sorted x (y ∷ l) (p, h) = Precedes-insert x y (sorted event_le l) p (Precedes-sorted x l h)

sorted-first :
    (x : Event) (a b : List Event)
    → Precedes x (a ++ b)
    → sorted event_le (a ++ x ∷ b) ≡ x ∷ sorted event_le (a ++ b)
unfolding sorted insert
sorted-first x [] b h = insert-first x (sorted event_le b) (Precedes-sorted x b h)
sorted-first x (y ∷ a) b (p, h) = rw (sorted-first x a b h) (rw p refl)

-- The events of one name after those of another, for each name.
unfoldable pub by_name : List String → List Event → List Event
by_name [] l = []
by_name (n ∷ names) l = select (λ e. e.name == n) l ++ by_name names l

-- The names are distinct.
abbrev AreDistinct : List String → Type 0
AreDistinct [] = Unit
AreDistinct (n ∷ names) = (contains n names ≡ false) × AreDistinct names

by_name-other :
    (names : List String) (x : Event) (l : List Event)
    → contains x.name names ≡ false
    → by_name names (x ∷ l) ≡ by_name names l
unfolding by_name
by_name-other [] x l h = refl
by_name-other (n ∷ names) x l h =
    ground (arith, by_name-other names x l, eq_iff x.name n, eq_iff n x.name)

-- The event stands once among the groups, with the groups of the later events around it.
by_name-cons :
    (names : List String) (x : Event) (l : List Event)
    → AreDistinct names
    → contains x.name names ≡ true
    → (a : List Event) × (b : List Event) × (by_name names (x ∷ l) ≡ a ++ x ∷ b)
      × (by_name names l ≡ a ++ b)
unfolding by_name
by_name-cons [] x l d h = cc
by_name-cons (n ∷ names) x l (d, ds) h = elim (Bool-cases (x.name == n)) [
  | inl same ↦
      let e = (eq_iff x.name n).0 same in
      let absent : contains x.name names ≡ false = rw e d in
      (
        [],
        select (λ e. e.name == n) l ++ by_name names l,
        rw (same, by_name-other names x l absent),
        refl,
      )
  | inr differs ↦
      let later : contains x.name names ≡ true = ground (arith, eq_iff x.name n, eq_iff n x.name) in
      let (a, b, split, rest) = by_name-cons names x l ds later in
      (
        select (λ e. e.name == n) l ++ a,
        b,
        rw (differs, split) (sym (append_assoc (select (λ e. e.name == n) l) a (x ∷ b))),
        rw rest (sym (append_assoc (select (λ e. e.name == n) l) a b)),
      )
]

Precedes-by_name :
    (names : List String) (x : Event) (l : List Event) → Precedes x l → Precedes x (by_name names l)
unfolding by_name
Precedes-by_name [] x l h = tt
Precedes-by_name (n ∷ names) x l h =
    All-append (λ y. event_le y x ≡ false) (select (λ e. e.name == n) l) (by_name names l)
      (All-select (λ y. event_le y x ≡ false) (λ e. e.name == n) l h) (Precedes-by_name names x l h)

by_name-empty : (names : List String) → by_name names [] ≡ []
unfolding by_name
by_name-empty [] = refl
by_name-empty (n ∷ names) = by_name-empty names

-- Sorting the groups gives the ascending events back.
sorted-by_name :
    (names : List String) (l : List Event)
    → AreDistinct names
    → All (λ e. contains e.name names ≡ true) l
    → Ascending l
    → sorted event_le (by_name names l) ≡ l
unfolding sorted
sorted-by_name names [] d h asc = rw (by_name-empty names) refl
sorted-by_name names (x ∷ l) d (named, h) (first, asc) =
    let (a, b, split, rest) = by_name-cons names x l d named in
    let ahead : Precedes x (a ++ b) = rw rest at (Precedes-by_name names x l first) in
    rw (split, sorted-first x a b ahead) (ap (◌∷◌ x) (rw rest at (sorted-by_name names l d h asc)))

event_names-AreDistinct : AreDistinct event_names
event_names-AreDistinct = (refl, (refl, (refl, (refl, tt))))

pub range-append : (c : Chain) (b j k : ℕ) → range c b (j + k) ≡ range c b j ++ range c (b + j) k
unfolding range
range-append c b zero k =
    let left : 0 + k ≡ k = omega arith in
    let start : b + 0 ≡ b = omega arith in rw (left, start) refl
range-append c b (suc j) k =
    let left : suc j + k ≡ suc (j + k) = omega arith in
    let start : b + suc j ≡ b + 1 + j = omega arith in
    rw (left, start)
      (rw (range-append c (b + 1) j k)
        (sym (append_assoc (c.events b) (range c (b + 1) j) (range c (b + 1 + j) k))))

module _ (c : Chain) (chain : IsChain c) where
  range-named : (b k : ℕ) → All (λ e. contains e.name event_names ≡ true) (range c b k)
  unfolding range
  range-named b zero = tt
  range-named b (suc k) =
      All-append (λ e. contains e.name event_names ≡ true) (c.events b) _ (chain.named b)
        (range-named (b + 1) k)

  pub range-from : (b k : ℕ) → All (λ e. b ≤ e.block_number) (range c b k)
  unfolding range
  range-from b zero = tt
  range-from b (suc k) =
      All-append (λ e. b ≤ e.block_number) (c.events b) _
        (All-map _ (λ e. b ≤ e.block_number) (c.events b) (λ e h. omega arith) (chain.tagged b))
        (All-map _ (λ e. b ≤ e.block_number) (range c (b + 1) k) (λ e h. omega arith)
          (range-from (b + 1) k))

  Ascending-append :
      (b : ℕ) (l r : List Event)
      → All (λ e. e.block_number ≡ b) l
      → All (λ e. b + 1 ≤ e.block_number) r
      → Ascending l
      → Ascending r
      → Ascending (l ++ r)
  unfolding event_le
  Ascending-append b [] r hl hr al ar = ar
  Ascending-append b (x ∷ l) r (here, hl) hr (first, al) ar = (
    All-append (λ y. event_le y x ≡ false) l r first
        (All-map _ (λ y. event_le y x ≡ false) r (λ e h. ground arith) hr),
    Ascending-append b l r hl hr al ar,
  )

  range-Ascending : (b k : ℕ) → Ascending (range c b k)
  unfolding range
  range-Ascending b zero = tt
  range-Ascending b (suc k) =
      Ascending-append b (c.events b) (range c (b + 1) k) (chain.tagged b) (range-from (b + 1) k)
        (chain.ordered b) (range-Ascending (b + 1) k)

  -- The groups of a range, sorted, are the range.
  pub sorted-range : (b k : ℕ) → sorted event_le (by_name event_names (range c b k)) ≡ range c b k
  sorted-range b k =
      sorted-by_name event_names (range c b k) event_names-AreDistinct (range-named b k)
        (range-Ascending b k)
