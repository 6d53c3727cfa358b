-- ===== src/Repo/Tar/Archive/Whole.antt =====
-- `extract_directory_tar` on a whole archive.
use bobr.Base.{
  ℕ, zero, suc, ◌≤◌, ◌<◌, ◌≡◌, refl, sym, ap, ◌∙◌, subst, Bool, true, false, not, ◌||◌, some, List,
  [], ◌∷◌, length, All, ◌==◌, Result, ok, >>=-eq-ok, Result-cases, ok_inj, inl, inr, Bool-cases,
  arith,
}
use bobr.Repo.Error.{
  RepositoryError, tar_one_terminator, tar_trailing_bytes, tar_dangling_extension,
}
use bobr.Repo.Master.{is_some}
use bobr.Repo.Tar.{split_slash, is_empty}
use bobr.Repo.Tar.Normalize.{IsNormalized}
use bobr.Repo.Tar.Nodes.{NodeKind, Nodes, get, all_but_last}
use bobr.Repo.Tar.Nodes.Parents.{Keeps, AreDirectories, AreDirectories-Keeps}
use bobr.Repo.Tar.Reader.{Reader, read_block}
use bobr.Repo.Tar.Header.{ParsedHeader, parse_header}
use bobr.Repo.Tar.Extract.{FsApi, ExtractState, max_tar_entries, max_tar_structural_bytes, fail_if}
use bobr.Repo.Tar.Extract.Limits.{extract_logical-IsExtracted}
use bobr.Repo.Tar.Archive.{
  is_zero, read_terminator, extract_entry, extract_loop, start_state, extract_directory_tar,
}
use bobr.Repo.Tar.Archive.Spent.{
  Spent, Spent-trans, read_block-Spent, extract_logical-Spent, read_long-IsLong,
}

-- An entry that was extracted: at a normalized path, below directories only.
pub record IsPlaced (nodes : Nodes) (entry : List ℕ × NodeKind) : Type 0 where
  pub normalized : IsNormalized entry.0
  pub node : get nodes entry.0 ≡ some entry.1
  pub parents : AreDirectories nodes [] (all_but_last (split_slash entry.0))

IsPlaced-Keeps :
    (nodes later : Nodes) (entries : List (List ℕ × NodeKind))
    → Keeps nodes later
    → All (IsPlaced nodes) entries
    → All (IsPlaced later) entries
IsPlaced-Keeps nodes later [] keeps h = tt
IsPlaced-Keeps nodes later (entry ∷ entries) keeps h = (
  record {
    normalized = h.0.normalized;
    node = keeps entry.0 entry.1 h.0.node;
    parents =
        AreDirectories-Keeps nodes later [] (all_but_last (split_slash entry.0)) keeps h.0.parents;
  },
  IsPlaced-Keeps nodes later entries keeps h.1,
)

-- The entries so far are placed, and within the limits.
pub record HasEntries {Fs : Type 0} (st : ExtractState Fs) : Type 0 where
  pub placed : List (List ℕ × NodeKind)
  pub all_placed : All (IsPlaced st.nodes) placed
  pub counted : length placed ≡ st.entries
  pub entries : st.entries ≤ max_tar_entries
  pub structural : st.structural_bytes ≤ max_tar_structural_bytes

module _ {Fs : Type 0} (api : FsApi Fs) where
  extract_entry-HasEntries :
      (parsed : ParsedHeader) (st later : ExtractState Fs)
      → HasEntries st
      → extract_entry api parsed st ≡ ok later
      → HasEntries later × Spent st.reader later.reader
  unfolding extract_entry
  extract_entry-HasEntries parsed st later has e =
      elim (Bool-cases (parsed.kind == b'L' || parsed.kind == b'K')) [
        | inl t ↦
            let long = read_long-IsLong api parsed st later (rw t at e) in
            (
              record {
                placed = has.placed;
                all_placed =
                    subst (λ n. All (IsPlaced n) has.placed) (sym long.nodes) has.all_placed;
                counted = has.counted ∙ sym long.entries;
                entries = omega (arith, has.entries, long.entries);
                structural = omega (arith, has.structural, long.structural);
              },
              long.spent,
            )
        | inr f ↦
            elim (Bool-cases (
              parsed.kind == 0
              || (parsed.kind == b'0' || (parsed.kind == b'2' || parsed.kind == b'5')))) [
                | inr g ↦ absurd (cc (rw (f, g) at e))
                | inl t ↦
                    let run = rw (f, t) at e in
                    let one = extract_logical-IsExtracted api parsed st later run in
                    (
                      record {
                        placed = (one.path, one.kind) ∷ has.placed;
                        all_placed = (
                          record {
                            normalized = one.normalized;
                            node = one.node;
                            parents = one.parents;
                          },
                          IsPlaced-Keeps st.nodes later.nodes has.placed one.keeps has.all_placed,
                        );
                        counted = omega (arith, has.counted, one.counted);
                        entries = one.entries;
                        structural = one.structural;
                      },
                      extract_logical-Spent api parsed st later run,
                    )
              ]
      ]

  extract_entry-Spent :
      (parsed : ParsedHeader) (st later : ExtractState Fs)
      → extract_entry api parsed st ≡ ok later
      → Spent st.reader later.reader
  unfolding extract_entry
  extract_entry-Spent parsed st later e =
      elim (Bool-cases (parsed.kind == b'L' || parsed.kind == b'K')) [
        | inl t ↦ (read_long-IsLong api parsed st later (rw t at e)).spent
        | inr f ↦
            elim (Bool-cases (
              parsed.kind == 0
              || (parsed.kind == b'0' || (parsed.kind == b'2' || parsed.kind == b'5')))) [
                | inr g ↦ absurd (cc (rw (f, g) at e))
                | inl t ↦ extract_logical-Spent api parsed st later (rw (f, t) at e)
              ]
      ]

  fail_if-false : (b : Bool) (e : RepositoryError) (u : Unit {0}) → fail_if b e ≡ ok u → b ≡ false
  fail_if-false true e u h = absurd (cc h)
  fail_if-false false e u h = refl

  nil_of_is_empty : (bytes : List ℕ) → not (is_empty bytes) ≡ false → bytes ≡ []
  nil_of_is_empty [] h = refl
  nil_of_is_empty (b ∷ bytes) h = absurd (cc h)

  read_terminator-end :
      (r later : Reader) → read_terminator r ≡ ok later → Spent r later × (later.input ≡ [])
  unfolding read_terminator
  read_terminator-end r later e =
      let (second, got, e1) = >>=-eq-ok (read_block r) _ e in
      let (u1, zeros, e2) = >>=-eq-ok (fail_if (not (is_zero second.0)) tar_one_terminator) _ e1 in
      let (u2, over, last) =
        >>=-eq-ok (fail_if (not (is_empty second.1.input)) tar_trailing_bytes) _ e2 in
      subst (λ (s : Reader). Spent r s × (s.input ≡ [])) (ok_inj last)
        (
          (read_block-Spent r second got).0,
          nil_of_is_empty second.1.input
              (fail_if-false (not (is_empty second.1.input)) tar_trailing_bytes u2 over),
        )

  extract_loop-HasEntries :
      (fuel : ℕ) (st later : ExtractState Fs)
      → HasEntries st
      → extract_loop api fuel st ≡ ok later
      → HasEntries later × Spent st.reader later.reader × (later.reader.input ≡ [])
  unfolding extract_loop
  extract_loop-HasEntries zero st later has e = absurd (cc e)
  extract_loop-HasEntries (suc fuel) st later has e =
      let (header, got, e1) = >>=-eq-ok (read_block st.reader) _ e in
      let (first, shorter) = read_block-Spent st.reader header got in
      elim (Bool-cases (is_zero header.0)) [
        | inl t ↦
            let (reader, over, last) = >>=-eq-ok (read_terminator header.1) _ (rw t at e1) in
            let (rest, empty) = read_terminator-end header.1 reader over in
            subst
              (λ (s : ExtractState Fs).
                HasEntries s × Spent st.reader s.reader × (s.reader.input ≡ []))
              (ok_inj last)
              (
                record {
                  placed = has.placed;
                  all_placed = has.all_placed;
                  counted = has.counted;
                  entries = has.entries;
                  structural = has.structural;
                },
                Spent-trans st.reader header.1 reader first rest,
                empty,
              )
        | inr f ↦
            let (parsed, known, e2) = >>=-eq-ok (parse_header header.0) _ (rw f at e1) in
            let (between, ran, last) =
              >>=-eq-ok (extract_entry api parsed (record st { reader = header.1 })) _ e2 in
            let (more, taken) =
              extract_entry-HasEntries parsed (record st { reader = header.1 }) between
                (record {
                  placed = has.placed;
                  all_placed = has.all_placed;
                  counted = has.counted;
                  entries = has.entries;
                  structural = has.structural;
                })
                ran in
            let (all, rest, empty) = extract_loop-HasEntries fuel between later more last in
            (
              all,
              Spent-trans st.reader header.1 later.reader first
                  (Spent-trans header.1 between.reader later.reader taken rest),
              empty,
            )
      ]

  -- Whatever fuel is enough, it makes no difference.
  extract_loop-fuel :
      (fuel other : ℕ) (st : ExtractState Fs)
      → length st.reader.input < fuel
      → length st.reader.input < other
      → extract_loop api fuel st ≡ extract_loop api other st
  unfolding extract_loop
  extract_loop-fuel zero other st enough also = absurd (omega arith)
  extract_loop-fuel (suc fuel) zero st enough also = absurd (omega arith)
  extract_loop-fuel (suc fuel) (suc other) st enough also =
      elim (Result-cases (read_block st.reader)) [
        | inr (failure, e) ↦ rw e refl
        | inl (header, e) ↦ elim (Bool-cases (is_zero header.0)) [
          | inl t ↦ rw (e, t) refl
          | inr f ↦ elim (Result-cases (parse_header header.0)) [
            | inr (failure, p) ↦ rw (e, f, p) refl
            | inl (parsed, p) ↦
                elim (Result-cases (extract_entry api parsed (record st { reader = header.1 }))) [
                  | inr (failure, x) ↦ rw (e, f, p, x) refl
                  | inl (later, x) ↦
                      let (first, shorter) = read_block-Spent st.reader header e in
                      let less =
                        (extract_entry-Spent parsed (record st { reader = header.1 }) later
                          x).less in
                      rw (e, f, p, x)
                        (extract_loop-fuel fuel other later (omega (arith, shorter, less, enough))
                          (omega (arith, shorter, less, also)))
                ]
          ]
        ]
      ]

  -- Whatever the file system does, when extract_directory_tar succeeds it has read the whole
  -- input and returns its length, with the state at the end of the loop, which any fuel above
  -- the length of the input gives: its entries are within the entry limit and its structural
  -- bytes within theirs, and as many paths as entries are normalized and have their kinds among
  -- the nodes, each with directories for its proper parents.
  pub extract_directory_tar-HasEntries :
      (create_root normalize_tree : Fs → Result RepositoryError Fs) (input : List ℕ) (fs : Fs)
      (result : ℕ × Fs)
      → extract_directory_tar api create_root normalize_tree input fs ≡ ok result
      → (created : Fs) × (st : ExtractState Fs) × (create_root fs ≡ ok created)
        × ((fuel : ℕ)
            → length input < fuel
            → extract_loop api fuel (start_state api input created) ≡ ok st)
        × HasEntries st
        × (st.reader.input ≡ [])
        × (result.0 ≡ length input)
        × (normalize_tree st.fs ≡ ok result.1)
  unfolding extract_directory_tar
  extract_directory_tar-HasEntries create_root normalize_tree input fs result e =
      let (created, made, e1) = >>=-eq-ok (create_root fs) _ e in
      let (st, ran, e2) =
        >>=-eq-ok (extract_loop api (suc (length input)) (start_state api input created)) _ e1 in
      let (u, named, e3) =
        >>=-eq-ok
          (fail_if (is_some st.pending_name || is_some st.pending_link) tar_dangling_extension) _
          e2 in
      let (fs', modes, last) = >>=-eq-ok (normalize_tree st.fs) _ e3 in
      let start : HasEntries (start_state api input created) = record {
        placed = [];
        all_placed = tt;
        counted = refl;
        entries = omega arith;
        structural = omega arith;
      } in
      let (has, spent, empty) =
        extract_loop-HasEntries (suc (length input)) (start_state api input created) st start ran in
      let total = spent.total in
      let none_left = ap length empty in
      let decoded : st.reader.decoded ≡ length input = omega (arith, total, none_left) in
      let same : (st.reader.decoded, fs') ≡ result = ok_inj last in
      (
        created,
        st,
        made,
        λ fuel enough.
            extract_loop-fuel fuel (suc (length input)) (start_state api input created) enough
              (omega arith)
            ∙ ran,
        has,
        empty,
        ap (λ (r : ℕ × Fs). r.0) (sym same) ∙ decoded,
        modes ∙ ap (λ (r : ℕ × Fs). ok r.1) same,
      )
