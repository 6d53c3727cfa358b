-- ===== src/Repo/Master/Slots/Newest.antt =====
-- The last current slot of a list of slots: what `Master::active_slot` picks.
use bobr.Base.{
  ◌≤◌, ◌<◌, ◌≡◌, refl, ap, ◌∙◌, subst, inl, inr, Bool, Option, none, some, List, [], ◌∷◌, ◌++◌,
  reverse, reverse-append, filter, head?, All, Any, if◌then◌else◌, Bool-cases, Option-cases, arith,
}
use bobr.Repo.Master.{Slot, is_none}

abbrev pub IsCurrent : Slot → Type 0
IsCurrent s = s.retain_until ≡ none

abbrev pub Increasing : List Slot → Type 0
Increasing [] = Unit
Increasing (s ∷ ss) = All (λ t. s.serial < t.serial) ss × Increasing ss

abbrev pub current : Slot → Bool
current s = is_none s.retain_until

or_else : Option Slot → Option Slot → Option Slot
or_else none b = b
or_else (some a) b = some a

-- The last current slot of a list: what `rev` and `filter` pick first.
pub last_current : List Slot → Option Slot
unfolding or_else is_none
last_current [] = none
last_current (s ∷ ss) = or_else (last_current ss) (if current s then some s else none)

head?-append : (xs ys : List Slot) → head? (xs ++ ys) ≡ or_else (head? xs) (head? ys)
unfolding or_else
head?-append [] ys = refl
head?-append (x ∷ xs) ys = refl

filter-append :
    (xs ys : List Slot) → filter current (xs ++ ys) ≡ filter current xs ++ filter current ys
filter-append [] ys = refl
filter-append (x ∷ xs) ys = elim (Bool-cases (current x)) [
  | inl t ↦ rw t (ap (λ l. x ∷ l) (filter-append xs ys))
  | inr f ↦ rw f (filter-append xs ys)
]

head?-filter_one :
    (s : Slot) → head? (filter current (s ∷ [])) ≡ (if current s then some s else none)
head?-filter_one s = elim (Bool-cases (current s)) [ inl t ↦ rw t | inr f ↦ rw f ]

pub head?-filter-reverse : (ss : List Slot) → head? (filter current (reverse ss)) ≡ last_current ss
unfolding last_current
head?-filter-reverse [] = refl
head?-filter-reverse (s ∷ ss) =
    ap (λ l. head? (filter current l)) (reverse-append (s ∷ []) ss)
    ∙ ap head? (filter-append (reverse ss) (s ∷ []))
    ∙ head?-append (filter current (reverse ss)) (filter current (s ∷ []))
    ∙ cc (head?-filter-reverse ss, head?-filter_one s)

last_current-none : (ss : List Slot) → last_current ss ≡ none → All (λ t. ¬ IsCurrent t) ss
unfolding last_current
last_current-none [] e = tt
last_current-none (s ∷ ss) e = elim (Option-cases (last_current ss)) [
  | inl n ↦ (λ c. cc (rw (n, c) at e), last_current-none ss n)
  | inr (y, h) ↦ absurd (cc (rw h at e))
]

last_current-all :
    (P : Slot → Type 0) (ss : List Slot) (y : Slot) → last_current ss ≡ some y → All P ss → P y
unfolding last_current
last_current-all P [] y e h = absurd (cc e)
last_current-all P (s ∷ ss) y e h = elim (Option-cases (last_current ss)) [
  | inr (z, hz) ↦ let same : z ≡ y = cc (rw hz at e) in rw (← same) (last_current-all P ss z hz h.1)
  | inl n ↦ elim (Bool-cases (current s)) [
    | inl t ↦ let same : s ≡ y = cc (rw (n, t) at e) in rw (← same) h.0
    | inr f ↦ absurd (cc (rw (n, f) at e))
  ]
]

abbrev IsNewest : Slot → List Slot → Type 0
IsNewest y ss = All (λ t. IsCurrent t → t.serial ≤ y.serial) ss

none-IsNewest : (y : Slot) (ss : List Slot) → All (λ t. ¬ IsCurrent t) ss → IsNewest y ss
none-IsNewest y [] h = tt
none-IsNewest y (s ∷ ss) h = (λ c. absurd (h.0 c), none-IsNewest y ss h.1)

pub last_current-IsNewest :
    (ss : List Slot) (y : Slot)
    → Increasing ss
    → last_current ss ≡ some y
    → IsCurrent y × IsNewest y ss
unfolding last_current is_none
last_current-IsNewest [] y i e = absurd (cc e)
last_current-IsNewest (s ∷ ss) y i e = elim (Option-cases (last_current ss)) [
  | inr (z, hz) ↦
      let same : z ≡ y = cc (rw hz at e) in
      let (now, newest) = last_current-IsNewest ss z i.1 hz in
      let below = last_current-all (λ t. s.serial < t.serial) ss z hz i.0 in
      subst (λ w. IsCurrent w × IsNewest w (s ∷ ss)) same (now, (λ c. omega arith, newest))
  | inl n ↦ elim (Option-cases s.retain_until) [
    | inl c ↦
        let same : s ≡ y = cc (rw (n, c) at e) in
        subst (λ w. IsCurrent w × IsNewest w (s ∷ ss)) same
          (c, (λ _. omega arith, none-IsNewest s ss (last_current-none ss n)))
    | inr (v, h) ↦ absurd (cc (rw (n, h) at e))
  ]
]

pub last_current-append :
    (ss : List Slot) (y : Slot)
    → last_current ss ≡ some y
    → (front : List Slot) × (back : List Slot) × (ss ≡ front ++ y ∷ back)
      × All (λ t. ¬ IsCurrent t) back
unfolding last_current
last_current-append [] y e = absurd (cc e)
last_current-append (s ∷ ss) y e = elim (Option-cases (last_current ss)) [
  | inr (z, hz) ↦
      let (front, back, parts, none_after) = last_current-append ss y (hz ∙ rw hz at e) in
      (s ∷ front, back, ap (λ l. s ∷ l) parts, none_after)
  | inl n ↦ elim (Bool-cases (current s)) [
    | inl t ↦
        let same : s ≡ y = cc (rw (n, t) at e) in
        ([], ss, ap (λ w. w ∷ ss) same, last_current-none ss n)
    | inr f ↦ absurd (cc (rw (n, f) at e))
  ]
]

pub last_current-some :
    (ss : List Slot) → Any IsCurrent ss → (y : Slot) × (last_current ss ≡ some y)
last_current-some ss h = elim (Option-cases (last_current ss)) [
  | inl n ↦ absurd (no_current ss (last_current-none ss n) h)
  | inr (y, e) ↦ (y, e)
]
  where
    no_current : (ts : List Slot) → All (λ t. ¬ IsCurrent t) ts → Any IsCurrent ts → ⊥
    no_current [] a b = b
    no_current (t ∷ ts) a (inl b) = a.0 b
    no_current (t ∷ ts) a (inr b) = no_current ts a.1 b
