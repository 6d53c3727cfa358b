-- ===== src/Repo/Master/Slots.antt =====
-- The slots of a valid master: what `Master::validate` checks and what `active_slot` returns.
pub mod Newest
use bobr.Base.{
  ℕ, ◌≤◌, ◌<◌, ◌≡◌, refl, sym, ap, ◌∙◌, ◌↔◌, inl, inr, Bool, true, false, ◌||◌, Option, none, some,
  List, [], ◌∷◌, ◌++◌, length, All, Any, leb, ◌==◌, if◌then◌else◌, ok, err, ◌>>=◌, >>=-eq-ok,
  Bool-cases, Option-cases, bytes_eq_refl, eq_of_bytes_eq, arith,
}
use bobr.Base.Text.{codes}
use bobr.Repo.Error.{no_slots, no_current_slot}
pub use bobr.Repo.Master.Slots.Newest.{IsCurrent, Increasing}
use bobr.Repo.Master.Slots.Newest.{
  current, head?-filter-reverse, last_current-append, last_current-IsNewest, last_current-some,
}
use bobr.Repo.Master.{
  Slot, Master, UrlApi, is_none, is_some, ends_with_byte, validate_slots, validate,
  validate_data_base_url, current_slots_newest_first, active_slot,
}

abbrev AboveAll : Option ℕ → List Slot → Type 0
AboveAll none ss = Unit
AboveAll (some previous) ss = All (λ t. previous < t.serial) ss

abbrev any_current : Bool → List Slot → Bool
any_current b [] = b
any_current b (s ∷ ss) = any_current (b || current s) ss

All-lt_trans :
    (a b : ℕ) (ss : List Slot)
    → a < b
    → All (λ t. b < t.serial) ss
    → All (λ (t : Slot). a < t.serial) ss
All-lt_trans a b [] h k = tt
All-lt_trans a b (s ∷ ss) h k = (omega arith, All-lt_trans a b ss h k.1)

validate_slots_sound :
    (previous : Option ℕ) (b r : Bool) (ss : List Slot)
    → validate_slots previous b ss ≡ ok r
    → AboveAll previous ss × Increasing ss × (r ≡ any_current b ss)
unfolding validate_slots
validate_slots_sound none b r [] e = (tt, tt, cc e)
validate_slots_sound (some p) b r [] e = (tt, tt, cc e)
validate_slots_sound none b r (s ∷ ss) e =
    let (above, inc, last) = validate_slots_sound (some s.serial) (b || current s) r ss e in
    (tt, (above, inc), last)
validate_slots_sound (some p) b r (s ∷ ss) e = elim (Bool-cases (leb s.serial p)) [
  | inl t ↦ absurd (cc (rw t at e))
  | inr f ↦
      let (above, inc, last) =
        validate_slots_sound (some s.serial) (b || current s) r ss (rw f at e) in
      let lt : p < s.serial = ground arith in
      ((lt, All-lt_trans p s.serial ss lt above), (above, inc), last)
]

validate_slots_complete :
    (previous : Option ℕ) (b : Bool) (ss : List Slot)
    → AboveAll previous ss
    → Increasing ss
    → validate_slots previous b ss ≡ ok (any_current b ss)
unfolding validate_slots
validate_slots_complete none b [] a i = refl
validate_slots_complete (some p) b [] a i = refl
validate_slots_complete none b (s ∷ ss) a i =
    validate_slots_complete (some s.serial) (b || current s) ss i.0 i.1
validate_slots_complete (some p) b (s ∷ ss) a i =
    let t : leb s.serial p ≡ false = ground arith in
    rw t (validate_slots_complete (some s.serial) (b || current s) ss i.0 i.1)

any_current-true : (ss : List Slot) → any_current true ss ≡ true
any_current-true [] = refl
any_current-true (s ∷ ss) = any_current-true ss

Any-any_current : (ss : List Slot) → Any IsCurrent ss → any_current false ss ≡ true
unfolding is_none
Any-any_current [] h = absurd h
Any-any_current (s ∷ ss) (inl h) = rw h (any_current-true ss)
Any-any_current (s ∷ ss) (inr h) = elim (Bool-cases (current s)) [
  | inl t ↦ rw t (any_current-true ss)
  | inr f ↦ rw f (Any-any_current ss h)
]

any_current-Any : (ss : List Slot) → any_current false ss ≡ true → Any IsCurrent ss
unfolding is_none
any_current-Any [] e = absurd (cc e)
any_current-Any (s ∷ ss) e = elim (Option-cases s.retain_until) [
  | inl n ↦ inl n
  | inr (v, h) ↦ inr (any_current-Any ss (rw h at e))
]

abbrev EndsWith : ℕ → List ℕ → Type 0
EndsWith b xs = (front : List ℕ) × (xs ≡ front ++ b ∷ [])

ends_with_byte_sound : (b : ℕ) (xs : List ℕ) → ends_with_byte b xs ≡ true → EndsWith b xs
unfolding ends_with_byte
ends_with_byte_sound b [] e = absurd (cc e)
ends_with_byte_sound b (x ∷ []) e = ([], ground arith)
ends_with_byte_sound b (x ∷ y ∷ ys) e =
    let (front, split) = ends_with_byte_sound b (y ∷ ys) e in (x ∷ front, ap (λ l. x ∷ l) split)

ends_with_byte_complete : (b : ℕ) (front : List ℕ) → ends_with_byte b (front ++ b ∷ []) ≡ true
unfolding ends_with_byte
ends_with_byte_complete b [] = ground arith
ends_with_byte_complete b (x ∷ []) = ground arith
ends_with_byte_complete b (x ∷ y ∷ front) = ends_with_byte_complete b (y ∷ front)

module _ {Url : Type 0} (api : UrlApi Url) where
  -- An absolute HTTPS base URL that ends in `/`.
  pub record IsBaseUrl (u : Url) : Type 0 where
    pub https : api.scheme u ≡ codes "https"
    pub base : api.cannot_be_a_base u ≡ false
    pub no_user : api.username u ≡ []
    pub no_password : api.password u ≡ none
    pub no_query : api.query u ≡ none
    pub no_fragment : api.fragment u ≡ none
    pub slash : EndsWith b'/' (api.path u)

  url_sound : (u : Url) → validate_data_base_url api u ≡ ok tt → IsBaseUrl u
  unfolding validate_data_base_url is_some
  url_sound u e = record {
    https = eq_of_bytes_eq _ _ (ground arith);
    base = ground arith;
    no_user = eq_of_bytes_eq _ _ (ground arith);
    no_password = ground arith;
    no_query = ground arith;
    no_fragment = ground arith;
    slash = ends_with_byte_sound b'/' (api.path u) (ground arith);
  }

  url_complete : (u : Url) → IsBaseUrl u → validate_data_base_url api u ≡ ok tt
  unfolding validate_data_base_url is_some
  url_complete u h =
      let (front, split) = h.slash in
      rw (
        h.https,
        h.base,
        h.no_user,
        h.no_password,
        h.no_query,
        h.no_fragment,
        split,
        ends_with_byte_complete b'/' front,
        bytes_eq_refl (codes "https"),
        bytes_eq_refl [],
      )

  not_empty : (ss : List Slot) → Any IsCurrent ss → (length ss == 0) ≡ false
  not_empty [] h = absurd h
  not_empty (s ∷ ss) h = ground arith

  checked_slots :
      (ss : List Slot)
      → (if length ss == 0
          then err no_slots
          else (validate_slots none false ss >>= λ c. if c then ok tt else err no_current_slot))
        ≡ ok (tt {0})
      → (seen : Bool) × (validate_slots none false ss ≡ ok seen) × (seen ≡ true)
  checked_slots ss e = elim (Bool-cases (length ss == 0)) [
    | inl t ↦ absurd (cc (rw t at e))
    | inr f ↦
        let (seen, run, last) = >>=-eq-ok (validate_slots none false ss) _ (rw f at e) in
        (seen, run, ground arith)
  ]

  -- validate accepts a master exactly when its URL is an absolute HTTPS base URL without user,
  -- password, query or fragment whose path ends in a slash, its serials strictly increase and it
  -- has a current slot.
  pub validate_iff :
      (m : Master Url)
      → (validate api m ≡ ok tt)
        ↔ (IsBaseUrl m.data_base_url × Increasing m.slots × Any IsCurrent m.slots)
  unfolding validate
  validate_iff m = (sound, complete)
    where
      sound :
          validate api m ≡ ok tt
          → IsBaseUrl m.data_base_url × Increasing m.slots × Any IsCurrent m.slots
      sound e =
          let (_, url, e1) = >>=-eq-ok (validate_data_base_url api m.data_base_url) _ e in
          let (seen, run, last) = checked_slots m.slots e1 in
          let (_, increasing, any) = validate_slots_sound none false seen m.slots run in
          (url_sound m.data_base_url url, increasing, any_current-Any m.slots (sym any ∙ last))

      complete :
          IsBaseUrl m.data_base_url × Increasing m.slots × Any IsCurrent m.slots
          → validate api m ≡ ok tt
      complete h = rw (
        url_complete m.data_base_url h.0,
        not_empty m.slots h.2,
        validate_slots_complete none false m.slots tt h.1,
        Any-any_current m.slots h.2,
      )

-- For a master that passes validate, active_slot does not panic and returns one of the slots of
-- the master, which is current, whose serial is the greatest among the current slots, and after
-- which no slot is current.
pub active_slot-newest :
    {Url : Type 0} (api : UrlApi Url) (m : Master Url)
    → validate api m ≡ ok tt
    → (s : Slot) × (front : List Slot) × (back : List Slot) × (active_slot m ≡ some s)
      × (m.slots ≡ front ++ s ∷ back)
      × All (λ t. ¬ IsCurrent t) back
      × IsCurrent s
      × All (λ t. IsCurrent t → t.serial ≤ s.serial) m.slots
unfolding active_slot current_slots_newest_first
active_slot-newest api m e =
    let (_, increasing, any) = (validate_iff api m).0 e in
    let (y, found) = last_current-some m.slots any in
    let (front, back, parts, none_after) = last_current-append m.slots y found in
    let (now, newest) = last_current-IsNewest m.slots y increasing found in
    (y, front, back, head?-filter-reverse m.slots ∙ found, parts, none_after, now, newest)
