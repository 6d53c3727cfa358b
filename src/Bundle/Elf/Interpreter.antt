-- ===== src/Bundle/Elf/Interpreter.antt =====
-- `find_interpreter`: the interpreter that the program headers name.
use bobr.Base.{
  ℕ, zero, suc, ◌+◌, ◌≤◌, ◌^◌, ◌≡◌, ◌≢◌, refl, sym, ap, ◌∙◌, subst, Bool, true, false, not, ◌||◌,
  Option, none, some, List, [], ◌∷◌, ◌++◌, length, length-append, length-take, length-drop, take,
  drop, All, ltb, leb, ◌==◌, ok, ok_or, >>=-eq-ok, ok_inj, inl, inr, Bool-cases, Option-cases,
  arith,
}
use bobr.Repo.Tar.{starts_with_slash}
use bobr.Bundle.Elf.{
  elf64_program_header_size, pt_interp, max_interpreter_size, ElfLinkage, static, dynamic, ElfError,
  invalid_interpreter, read_u32, read_u64, checked, read_exact_at, reject_if, has_nul, unsnoc,
  interpreter_path, read_interpreter, find_interpreter, linkage_of,
}

-- A program header names the interpreter: an absolute path without NUL that the file has at its
-- offset, with a NUL behind it.
pub record IsInterpreter (file : List ℕ) (program_header : List ℕ) (path : List ℕ) : Type 0 where
  pub absolute : starts_with_slash path ≡ true
  pub no_nul : All (λ b. b ≢ 0) path
  pub size : read_u64 program_header 32 ≡ length path + 1
  pub short : length path + 1 ≤ max_interpreter_size
  pub inside : read_u64 program_header 8 + (length path + 1) ≤ length file
  pub there : take (length path + 1) (drop (read_u64 program_header 8) file) ≡ path ++ 0 ∷ []

-- The program headers of a table.
abbrev pub program_headers : ℕ → List ℕ → List (List ℕ)
program_headers zero table = []
program_headers (suc count) table =
    take elf64_program_header_size table
    ∷ program_headers count (drop elf64_program_header_size table)

abbrev pub IsOther : List ℕ → Type 0
IsOther program_header = read_u32 program_header 0 ≢ pt_interp

-- No program header names an interpreter, or exactly one does.
abbrev pub HasLinkage : List ℕ → List (List ℕ) → ElfLinkage → Type 0
HasLinkage file headers static = All IsOther headers
HasLinkage file headers (dynamic path) =
    (front : List (List ℕ)) × (program_header : List ℕ) × (back : List (List ℕ)) × (headers
      ≡ front ++ program_header ∷ back)
    × All IsOther front
    × (read_u32 program_header 0 ≡ pt_interp)
    × IsInterpreter file program_header path
    × All IsOther back

pub reject_if-ok : (b : Bool) (e : ElfError) (u : Unit {0}) → reject_if b e ≡ ok u → b ≡ false
reject_if-ok true e u h = absurd (cc h)
reject_if-ok false e u h = refl

pub not-false : (b : Bool) → not b ≡ false → b ≡ true
not-false true h = refl
not-false false h = absurd (cc h)

pub checked-ok : (n : ℕ) (e : ElfError) (m : ℕ) → ok_or (checked n) e ≡ ok m → n ≡ m
checked-ok n e m h = elim (Bool-cases (ltb n (2 ^ 64))) [
  | inl t ↦ ok_inj (rw t at h)
  | inr f ↦ absurd (cc (rw f at h))
]

pub read_exact_at-ok :
    (file : List ℕ) (size offset : ℕ) (bytes : List ℕ)
    → read_exact_at file size offset ≡ ok bytes
    → (bytes ≡ take size (drop offset file)) × (offset + size ≤ length file)
unfolding read_exact_at
read_exact_at-ok file size offset bytes e = elim (Bool-cases (leb (offset + size) (length file))) [
  | inl t ↦ (sym (ok_inj (rw t at e)), ground arith)
  | inr f ↦ absurd (cc (rw f at e))
]

has_nul-All : (bytes : List ℕ) → has_nul bytes ≡ false → All (λ b. b ≢ 0) bytes
has_nul-All [] h = tt
has_nul-All (b ∷ bytes) h = elim (Bool-cases (b == 0)) [
  | inl t ↦ absurd (cc (rw t at h))
  | inr f ↦ (λ e. ground arith, has_nul-All bytes (rw f at h))
]

unsnoc-none : (bytes : List ℕ) → unsnoc bytes ≡ none → bytes ≡ []
unfolding unsnoc
unsnoc-none [] e = refl
unsnoc-none (b ∷ bytes) e = elim (Option-cases (unsnoc bytes)) [
  | inl h ↦ absurd (cc (rw (unsnoc, h) at e))
  | inr ((f, l), h) ↦ absurd (cc (rw (unsnoc, h) at e))
]

unsnoc-append :
    (bytes front : List ℕ) (last : ℕ)
    → unsnoc bytes ≡ some (front, last)
    → bytes ≡ front ++ last ∷ []
unfolding unsnoc
unsnoc-append [] front last e = absurd (cc e)
unsnoc-append (b ∷ bytes) front last e = elim (Option-cases (unsnoc bytes)) [
  | inl h ↦
      let same : ([], b) ≡ (front, last) = cc (rw (unsnoc, h) at e) in
      ap (λ bs. b ∷ bs) (unsnoc-none bytes h) ∙ ap (λ (r : List ℕ × ℕ). r.0 ++ r.1 ∷ []) same
  | inr ((f, l), h) ↦
      let same : (b ∷ f, l) ≡ (front, last) = cc (rw (unsnoc, h) at e) in
      ap (λ bs. b ∷ bs) (unsnoc-append bytes f l h) ∙ ap (λ (r : List ℕ × ℕ). r.0 ++ r.1 ∷ []) same
]

pub or_false : (a b : Bool) → (a || b) ≡ false → (a ≡ false) × (b ≡ false)
or_false true b h = absurd (cc h)
or_false false b h = (refl, h)

interpreter_path-ok :
    (bytes path : List ℕ)
    → interpreter_path bytes ≡ ok path
    → (bytes ≡ path ++ 0 ∷ []) × All (λ b. b ≢ 0) path × (starts_with_slash path ≡ true)
unfolding interpreter_path
interpreter_path-ok bytes path e = elim (Option-cases (unsnoc bytes)) [
  | inl h ↦ absurd (cc (rw (interpreter_path, h) at e))
  | inr ((front, last), h) ↦ elim (Bool-cases (not (last == 0) || has_nul front)) [
    | inl t ↦ absurd (cc (rw (interpreter_path, h, t) at e))
    | inr f ↦ elim (Bool-cases (starts_with_slash front)) [
      | inr r ↦ absurd (cc (rw (interpreter_path, h, f, r) at e))
      | inl absolute ↦
          let same : front ≡ path = ok_inj (rw (interpreter_path, h, f, absolute) at e) in
          let (zero_last, no_nul) = or_false (not (last == 0)) (has_nul front) f in
          let nul = not-false (last == 0) zero_last in
          let is : last ≡ 0 = ground arith in
          subst (λ p. (bytes ≡ p ++ 0 ∷ []) × All (λ b. b ≢ 0) p × (starts_with_slash p ≡ true))
            same
            (
              unsnoc-append bytes front last h ∙ ap (λ l. front ++ l ∷ []) is,
              has_nul-All front no_nul,
              absolute,
            )
    ]
  ]
]

read_interpreter-IsInterpreter :
    (file program_header path : List ℕ)
    → read_interpreter file program_header ≡ ok path
    → IsInterpreter file program_header path
unfolding read_interpreter
read_interpreter-IsInterpreter file program_header path e =
    let offset = read_u64 program_header 8 in
    let size = read_u64 program_header 32 in
    let (u1, small, e1) =
      >>=-eq-ok (reject_if (ltb size 2 || ltb max_interpreter_size size) invalid_interpreter) _ e in
    let (end_, sum, e2) = >>=-eq-ok (ok_or (checked (offset + size)) invalid_interpreter) _ e1 in
    let (u2, before, e3) =
      >>=-eq-ok (reject_if (ltb (length file) end_) invalid_interpreter) _ e2 in
    let (bytes, got, last) = >>=-eq-ok (read_exact_at file size offset) _ e3 in
    let (is, inside) = read_exact_at-ok file size offset bytes got in
    let (joined, no_nul, absolute) = interpreter_path-ok bytes path last in
    let (two, fits) =
      or_false (ltb size 2) (ltb max_interpreter_size size)
        (reject_if-ok (ltb size 2 || ltb max_interpreter_size size) invalid_interpreter u1 small) in
    count offset size bytes is inside joined no_nul absolute refl refl (ground arith)
  where
    count :
        (offset size : ℕ) (bytes : List ℕ)
        → bytes ≡ take size (drop offset file)
        → offset + size ≤ length file
        → bytes ≡ path ++ 0 ∷ []
        → All (λ b. b ≢ 0) path
        → starts_with_slash path ≡ true
        → read_u64 program_header 8 ≡ offset
        → read_u64 program_header 32 ≡ size
        → size ≤ max_interpreter_size
        → IsInterpreter file program_header path
    count offset size bytes is inside joined no_nul absolute off sz fits =
        let left = length-drop offset file (omega (arith, inside)) in
        let whole : length bytes ≡ size =
          ap length is ∙ length-take size (drop offset file) (omega (arith, inside, left)) in
        let parts : length bytes ≡ length path + 1 =
          ap length joined ∙ length-append path (0 ∷ []) in
        let same : size ≡ length path + 1 = sym whole ∙ parts in
        record {
          absolute = absolute;
          no_nul = no_nul;
          size = sz ∙ same;
          short = omega (arith, same, fits);
          inside = omega (arith, same, inside, off);
          there =
              ap (λ n. take n (drop (read_u64 program_header 8) file)) (sym same)
              ∙ ap (λ o. take size (drop o file)) off
              ∙ sym is
              ∙ joined;
        }

-- After the interpreter is found no other program header names one.
find_interpreter-some :
    (file : List ℕ) (count : ℕ) (table path : List ℕ) (result : Option (List ℕ))
    → find_interpreter file count table (some path) ≡ ok result
    → (result ≡ some path) × All IsOther (program_headers count table)
unfolding find_interpreter
find_interpreter-some file zero table path result e = (sym (ok_inj e), tt)
find_interpreter-some file (suc count) table path result e =
    elim (Bool-cases (read_u32 (take elf64_program_header_size table) 0 == pt_interp)) [
      | inl t ↦ absurd (cc (rw t at e))
      | inr f ↦
          let (same, rest) =
            find_interpreter-some file count (drop elf64_program_header_size table) path result
              (rw f at e) in
          (same, (λ h. ground arith, rest))
    ]

pub find_interpreter-HasLinkage :
    (file : List ℕ) (count : ℕ) (table : List ℕ) (result : Option (List ℕ))
    → find_interpreter file count table none ≡ ok result
    → HasLinkage file (program_headers count table) (linkage_of result)
unfolding find_interpreter
find_interpreter-HasLinkage file zero table result e =
    subst (λ r. HasLinkage file [] (linkage_of r)) (ok_inj {a = none} e) tt
find_interpreter-HasLinkage file (suc count) table result e =
    let program_header = take elf64_program_header_size table in
    let rest = drop elf64_program_header_size table in
    elim (Bool-cases (read_u32 (take elf64_program_header_size table) 0 == pt_interp)) [
      | inl t ↦
          let (path, found, later) =
            >>=-eq-ok (read_interpreter file program_header) _ (rw t at e) in
          let (same, others) = find_interpreter-some file count rest path result later in
          let is : read_u32 (take elf64_program_header_size table) 0 ≡ pt_interp = ground arith in
          subst (λ r. HasLinkage file (program_header ∷ program_headers count rest) (linkage_of r))
            (sym same)
            (
              [],
              program_header,
              program_headers count rest,
              refl,
              tt,
              is,
              read_interpreter-IsInterpreter file program_header path found,
              others,
            )
      | inr f ↦
          cons_HasLinkage program_header (program_headers count rest) result (λ h. ground arith)
            (find_interpreter-HasLinkage file count rest result (rw f at e))
    ]
  where
    cons_HasLinkage :
        (h : List ℕ) (hs : List (List ℕ)) (result : Option (List ℕ))
        → IsOther h
        → HasLinkage file hs (linkage_of result)
        → HasLinkage file (h ∷ hs) (linkage_of result)
    cons_HasLinkage h hs none other all = (other, all)
    cons_HasLinkage h hs (some path) other (front, p, back, is, before, named, good, after) =
        (h ∷ front, p, back, ap (λ l. h ∷ l) is, (other, before), named, good, after)
