-- ===== src/LogCollector/Laws.antt =====
-- What a log collector keeps.
use mathlib.Core.Path.{subst}
use auto_repair.Common.{
  ℕ, zero, suc, ◌+◌, ◌-◌, ◌≤◌, ◌<◌, String, List, [], ◌∷◌, ◌++◌, ◌≡◌, refl, arith, ap, sym, ◌∙◌,
  take, if◌then◌else◌, ltb, length, drop, true, All, inl, inr, Bool-cases, length-append,
}
use auto_repair.LogCollector.{
  LogItem, LogLevel, LogCollector, is_fresh, count_old, compact, add_log,
}

length-drop : {A : Type 0} (n : ℕ) (xs : List A) → length (drop n xs) ≡ length xs - n
length-drop zero xs = omega arith
length-drop (suc n) [] = omega arith
length-drop (suc n) (x ∷ xs) = omega (arith, length-drop n xs)

drop_nil : {A : Type 0} (n : ℕ) → drop {A = A} n [] ≡ []
drop_nil zero = refl
drop_nil (suc n) = refl

drop-drop : {A : Type 0} (m n : ℕ) (xs : List A) → drop n (drop m xs) ≡ drop (m + n) xs
drop-drop zero n xs = let e : n ≡ 0 + n = omega arith in ap (λ k. drop k xs) e
drop-drop (suc m) n [] = drop_nil n ∙ sym (drop_nil (suc m + n))
drop-drop (suc m) n (x ∷ xs) =
    let e : suc (m + n) ≡ suc m + n = omega arith in drop-drop m n xs ∙ ap (λ k. drop k (x ∷ xs)) e

take-drop : {A : Type 0} (n : ℕ) (xs : List A) → xs ≡ take n xs ++ drop n xs
take-drop zero xs = refl
take-drop (suc n) [] = refl
take-drop (suc n) (x ∷ xs) = ap (λ rest. x ∷ rest) (take-drop n xs)

drop-append :
    {A : Type 0} (n : ℕ) (xs ys : List A) → n ≤ length xs → drop n (xs ++ ys) ≡ drop n xs ++ ys
drop-append zero xs ys h = refl
drop-append (suc n) [] ys h = absurd (omega arith)
drop-append (suc n) (x ∷ xs) ys h = drop-append n xs ys (omega arith)

-- The timestamps never decrease.
abbrev pub IsSorted : List LogItem → Type 0
IsSorted [] = Unit
IsSorted (i ∷ is) = All (λ (j : LogItem). i.timestamp ≤ j.timestamp) is × IsSorted is

drop-IsSorted : (n : ℕ) (is : List LogItem) → IsSorted is → IsSorted (drop n is)
drop-IsSorted zero is h = h
drop-IsSorted (suc n) [] h = tt
drop-IsSorted (suc n) (i ∷ is) h = drop-IsSorted n is h.1

abbrev pub IsFresh : ℕ → ℕ → LogItem → Type 0
IsFresh lifetime now i = now < i.timestamp + lifetime

later-IsFresh :
    (lifetime now : ℕ) (i : LogItem) (is : List LogItem)
    → now < i.timestamp + lifetime
    → All (λ (j : LogItem). i.timestamp ≤ j.timestamp) is
    → All (IsFresh lifetime now) is
later-IsFresh lifetime now i [] h g = tt
later-IsFresh lifetime now i (j ∷ js) h (le, g) =
    (omega (arith, h, le), later-IsFresh lifetime now i js h g)

-- The index from which `compact` keeps the items.
abbrev kept_from : ℕ → LogCollector → ℕ
kept_from now lc =
    let start = if ltb lc.max_items (length lc.store) then length lc.store - lc.max_items else 0 in
    start + count_old lc.item_lifetime now (drop start lc.store)

compact_store :
    (now : ℕ) (lc : LogCollector) → (compact now lc).store ≡ drop (kept_from now lc) lc.store
unfolding compact
compact_store now lc = elim (Bool-cases (ltb 0 (kept_from now lc))) [
  | inl moved ↦ rw moved refl
  | inr stayed ↦
      let none_old : kept_from now lc ≡ 0 = ground arith in
      rw stayed (ap (λ k. drop k lc.store) (sym none_old))
]

abbrev first_of : LogCollector → ℕ
first_of lc = if ltb lc.max_items (length lc.store) then length lc.store - lc.max_items else 0

-- The items that are younger than the lifetime, in their order.
abbrev pub fresh_of : ℕ → ℕ → List LogItem → List LogItem
fresh_of lifetime now [] = []
fresh_of lifetime now (i ∷ is) =
    let rest = fresh_of lifetime now is in
    if ltb now (i.timestamp + lifetime) then i ∷ rest else rest

fresh_of-all :
    (lifetime now : ℕ) (is : List LogItem)
    → All (IsFresh lifetime now) is
    → fresh_of lifetime now is ≡ is
fresh_of-all lifetime now [] h = refl
fresh_of-all lifetime now (i ∷ is) (h, hs) =
    let young : ltb now (i.timestamp + lifetime) ≡ true = ground arith in
    rw young (ap (λ rest. i ∷ rest) (fresh_of-all lifetime now is hs))

drop-fresh_of :
    (lifetime now : ℕ) (is : List LogItem)
    → IsSorted is
    → drop (count_old lifetime now is) is ≡ fresh_of lifetime now is
unfolding count_old
drop-fresh_of lifetime now [] h = refl
drop-fresh_of lifetime now (i ∷ is) (h, hs) = elim (Bool-cases (is_fresh lifetime now i)) [
  | inl fresh ↦ rw fresh (
      sym (
        ap (λ rest. i ∷ rest)
          (fresh_of-all lifetime now is (later-IsFresh lifetime now i is (ground arith) h))))
  | inr old ↦ rw old (drop-fresh_of lifetime now is hs)
]

-- After it has been compacted, a collector holds the last of its items, and no more than it has
-- room for. If its timestamps never decreased, these are, of the last items that there is room for,
-- exactly those that are younger than their lifetime, in their order.
pub compact_lem :
    (now : ℕ) (lc : LogCollector)
    → let kept = (compact now lc).store in
      (length kept ≤ lc.max_items)
      × ((old : List LogItem) × (lc.store ≡ old ++ kept))
      × (IsSorted lc.store
          → kept ≡ fresh_of lc.item_lifetime now (drop (length lc.store - lc.max_items) lc.store))
compact_lem now lc = (
  let enough : length lc.store - kept_from now lc ≤ lc.max_items = ground arith in
      rw (compact_store now lc) (omega (arith, length-drop (kept_from now lc) lc.store, enough)),
  (
    take (kept_from now lc) lc.store,
    subst (λ kept. lc.store ≡ take (kept_from now lc) lc.store ++ kept) (sym (compact_store now lc))
        (take-drop (kept_from now lc) lc.store),
  ),
  λ sorted.
      let start : first_of lc ≡ length lc.store - lc.max_items = ground arith in
      compact_store now lc
      ∙ sym (drop-drop (first_of lc) _ lc.store)
      ∙ drop-fresh_of lc.item_lifetime now (drop (first_of lc) lc.store)
          (drop-IsSorted (first_of lc) lc.store sorted)
      ∙ ap (λ k. fresh_of lc.item_lifetime now (drop k lc.store)) start,
)

count_old-append :
    (lifetime now : ℕ) (is : List LogItem) (i : LogItem)
    → now < i.timestamp + lifetime
    → count_old lifetime now (is ++ (i ∷ [])) ≤ length is
unfolding count_old
count_old-append lifetime now [] i h = ground arith
count_old-append lifetime now (j ∷ js) i h = ground (arith, count_old-append lifetime now js i h)

-- If a collector has room for an item and its items live for some time, then a new entry is the last
-- one that it holds.
pub add_log_lem :
    (msg : String) (level : LogLevel) (now : ℕ) (lc : LogCollector)
    → 1 ≤ lc.max_items
    → 1 ≤ lc.item_lifetime
    → (front : List LogItem) × ((add_log msg level now lc).store
        ≡ front ++ (record { log = msg; level = level; timestamp = now } ∷ []))
unfolding add_log
add_log_lem msg level now lc room life =
    let new : LogItem = record { log = msg; level = level; timestamp = now } in
    let lc' : LogCollector = record lc { store = lc.store ++ (new ∷ []) } in
    let longer = length-append lc.store (new ∷ []) in
    let early : first_of lc' ≤ length lc.store = ground arith in
    let few =
      count_old-append lc.item_lifetime now (drop (first_of lc') lc.store) new
        (omega (arith, life)) in
    let same = drop-append (first_of lc') lc.store (new ∷ []) early in
    let inside : kept_from now lc' ≤ length lc.store =
      ground (arith, same, few, length-drop (first_of lc') lc.store) in
    (
      drop (kept_from now lc') lc.store,
      compact_store now lc' ∙ drop-append (kept_from now lc') lc.store (new ∷ []) inside,
    )
