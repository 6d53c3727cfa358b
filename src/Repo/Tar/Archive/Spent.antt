-- ===== src/Repo/Tar/Archive/Spent.antt =====
-- What each step of the extraction takes from the input is what it counts.
use bobr.Base.{
  ℕ, ◌+◌, ◌≤◌, ◌≡◌, refl, ap, ◌∙◌, subst, Bool, true, false, not, ◌&&◌, ◌||◌, some, List, ◌++◌,
  length, length-append, ltb, leb, ◌==◌, if◌then◌else◌, bytes_eq, ok, ok_or, ◌>>◌, >>=-eq-ok,
  ok_inj, arith,
}
use bobr.Base.Text.{codes}
use bobr.Repo.Error.{
  panic, tar_too_many_entries, tar_structural_limit, tar_structural_overflow, tar_nonzero_size,
  tar_long_path, tar_long_name_order, tar_duplicate_long_link, tar_long_name_fits,
  tar_long_link_fits,
}
use bobr.Repo.Master.{is_some}
use bobr.Repo.Tar.{max_tar_path_bytes, ustar_path_fields, normalize_path}
use bobr.Repo.Tar.Nodes.{NodeKind, directory, file, symlink, insert_path}
use bobr.Repo.Tar.Reader.{
  Reader, block, read_exact, add_decoded, copy_exact, read_block, read_entry_bytes,
  copy_entry_bytes, skip_entry_bytes,
}
use bobr.Repo.Tar.Reader.Blocks.{
  IsEntry, read_exact-Consumed, copy_exact-Consumed, add_decoded-Consumed, read_padding-Consumed,
  read_entry_bytes-IsEntry, copy_entry_bytes-IsEntry,
}
use bobr.Repo.Tar.Header.{ParsedHeader}
use bobr.Repo.Tar.Extract.{
  FsApi, ExtractState, max_tar_entries, max_tar_structural_bytes, max_tar_symlink_target_bytes,
  fail_if, unwrap_or, node_kind, check_link, checked_sum, is_file, write_node, extract_logical,
  read_long, long_value,
}

-- The bytes counted and the bytes left are as many as before, and the left are no more.
pub record Spent (r r' : Reader) : Type 0 where
  pub total : r'.decoded + length r'.input ≡ r.decoded + length r.input
  pub less : length r'.input ≤ length r.input

pub Spent-trans : (r s t : Reader) → Spent r s → Spent s t → Spent r t
Spent-trans r s t h k = record { total = k.total ∙ h.total; less = omega (arith, h.less, k.less) }

IsEntry-Spent : (size : ℕ) (bytes : List ℕ) (r r' : Reader) → IsEntry size bytes r r' → Spent r r'
IsEntry-Spent size bytes r r' h =
    let count =
      ap length h.input
      ∙ length-append bytes (h.pad ++ r'.input)
      ∙ ap (λ n. length bytes + n) (length-append h.pad r'.input) in
    let pad = h.zeros.0 in
    record {
      total = omega (arith, count, pad, h.data_size, h.decoded);
      less = omega (arith, count);
    }

pub read_block-Spent :
    (r : Reader) (state : List ℕ × Reader)
    → read_block r ≡ ok state
    → Spent r state.1 × (length r.input ≡ block + length state.1.input)
unfolding read_block
read_block-Spent r state e =
    let (got, run, e1) = >>=-eq-ok (read_exact block r) _ e in
    let (counted, adds, last) = >>=-eq-ok (add_decoded block got.1) _ e1 in
    let (size, taken) = read_exact-Consumed block r got run in
    let more = add_decoded-Consumed block got.1 counted adds in
    let front = ap length taken.input ∙ length-append got.0 got.1.input in
    let rest = ap length more.input in
    subst (λ (s : List ℕ × Reader). Spent r s.1 × (length r.input ≡ block + length s.1.input))
      (ok_inj last)
      (
        record {
          total = omega (arith, front, rest, size, more.decoded, taken.decoded);
          less = omega (arith, front, rest, size);
        },
        omega (arith, front, rest, size),
      )

skip_entry_bytes-Spent : (size : ℕ) (r r' : Reader) → skip_entry_bytes size r ≡ ok r' → Spent r r'
unfolding skip_entry_bytes
skip_entry_bytes-Spent size r r' e =
    let (state, run, e1) = >>=-eq-ok (copy_exact size r) _ e in
    let (s, adds, last) = >>=-eq-ok (add_decoded size state.1) _ e1 in
    let (count, taken) = copy_exact-Consumed size r state run in
    let counted = add_decoded-Consumed size state.1 s adds in
    let (pad, zeros, padded) = read_padding-Consumed size s r' last in
    let a = ap length taken.input ∙ length-append state.0 state.1.input in
    let b = ap length counted.input in
    let c = ap length padded.input ∙ length-append pad r'.input in
    let z = zeros.0 in
    record {
      total = omega (arith, a, b, c, z, count, taken.decoded, counted.decoded, padded.decoded);
      less = omega (arith, a, b, c);
    }

module _ {Fs : Type 0} (api : FsApi Fs) where
  write_node-Spent :
      (kind : NodeKind) (path link : List ℕ) (header : ParsedHeader) (r : Reader) (fs : Fs)
      (done : Reader × Fs)
      → write_node api kind path link header r fs ≡ ok done
      → Spent r done.0
  unfolding write_node
  write_node-Spent directory path link header r fs done e =
      let (made, run, e1) = >>=-eq-ok (api.create_dir_all path fs) _ e in
      let (later, skipped, last) = >>=-eq-ok (skip_entry_bytes header.size r) _ e1 in
      subst (λ (d : Reader × Fs). Spent r d.0) (ok_inj last)
        (skip_entry_bytes-Spent header.size r later skipped)
  write_node-Spent symlink path link header r fs done e =
      let (made, run, e1) = >>=-eq-ok (api.make_symlink link path fs) _ e in
      let (later, skipped, last) = >>=-eq-ok (skip_entry_bytes header.size r) _ e1 in
      subst (λ (d : Reader × Fs). Spent r d.0) (ok_inj last)
        (skip_entry_bytes-Spent header.size r later skipped)
  write_node-Spent file path link header r fs done e =
      let (created, run, e1) = >>=-eq-ok (api.create_new path fs) _ e in
      let (copied, copy, e2) = >>=-eq-ok (copy_entry_bytes header.size r) _ e1 in
      let (written, wrote, e3) = >>=-eq-ok (api.write path copied.0 created) _ e2 in
      let (later, set, last) = >>=-eq-ok (api.set_permissions path _ written) _ e3 in
      subst (λ (d : Reader × Fs). Spent r d.0) (ok_inj last)
        (IsEntry-Spent header.size copied.0 r copied.1
          (copy_entry_bytes-IsEntry header.size r copied.1 copied.0 copy))

  pub extract_logical-Spent :
      (header : ParsedHeader) (st later : ExtractState Fs)
      → extract_logical api header st ≡ ok later
      → Spent st.reader later.reader
  unfolding extract_logical
  extract_logical-Spent header st later e =
      let (u1, few, e1) =
        >>=-eq-ok (fail_if (ltb max_tar_entries (st.entries + 1)) tar_too_many_entries) _ e in
      let (path, plain, e2) =
        >>=-eq-ok (normalize_path (unwrap_or st.pending_name header.path) (header.kind == b'5')) _
          e1 in
      let (kind, known, e3) = >>=-eq-ok (ok_or (node_kind header.kind) panic) _ e2 in
      let (u2, linked, e4) =
        >>=-eq-ok (check_link kind (unwrap_or st.pending_link header.link)) _ e3 in
      let (structural, summed, e5) =
        >>=-eq-ok
          (ok_or
            (checked_sum st.structural_bytes (length path)
              (length (unwrap_or st.pending_link header.link)))
            tar_structural_overflow)
          _ e4 in
      let (u3, small, e6) =
        >>=-eq-ok (fail_if (ltb max_tar_structural_bytes structural) tar_structural_limit) _ e5 in
      let (u4, sized, e7) =
        >>=-eq-ok (fail_if (not (is_file kind) && not (header.size == 0)) tar_nonzero_size) _ e6 in
      let (inserted, added, e8) =
        >>=-eq-ok (insert_path api.create_dir_all st.nodes st.fs path kind) _ e7 in
      let (done, wrote, last) =
        >>=-eq-ok
          (write_node api kind path (unwrap_or st.pending_link header.link) header st.reader
            inserted.1)
          _ e8 in
      subst (λ (s : ExtractState Fs). Spent st.reader s.reader) (ok_inj last)
        (write_node-Spent kind path (unwrap_or st.pending_link header.link) header st.reader
          inserted.1 done wrote)

  -- What `read_long` leaves but the pending names.
  pub record IsLong (st later : ExtractState Fs) : Type 0 where
    pub spent : Spent st.reader later.reader
    pub nodes : later.nodes ≡ st.nodes
    pub entries : later.entries ≡ st.entries
    pub structural : later.structural_bytes ≡ st.structural_bytes

  pub read_long-IsLong :
      (header : ParsedHeader) (st later : ExtractState Fs)
      → read_long api header st ≡ ok later
      → IsLong st later
  unfolding read_long
  read_long-IsLong header st later e =
      let (u1, named, e1) =
        >>=-eq-ok (fail_if (not (bytes_eq header.path (codes "././@LongLink"))) tar_long_path) _
          e in
      let (u2, first, e2) =
        >>=-eq-ok
          (if header.kind == b'L'
            then fail_if (is_some st.pending_name || is_some st.pending_link) tar_long_name_order
            else fail_if (is_some st.pending_link) tar_duplicate_long_link)
          _ e1 in
      let (got, run, e3) =
        >>=-eq-ok
          (read_entry_bytes header.size
            ((if header.kind == b'L' then max_tar_path_bytes else max_tar_symlink_target_bytes) + 1)
            st.reader)
          _ e2 in
      let (value, text, last) = >>=-eq-ok (long_value got.0) _ e3 in
      let spent =
        IsEntry-Spent header.size got.0 st.reader got.1
          (read_entry_bytes-IsEntry header.size _ st.reader got.1 got.0 run).1 in
      ending (header.kind == b'L') value got.1 spent last
    where
      ending :
          (long : Bool) (value : List ℕ) (r : Reader)
          → Spent st.reader r
          → (if long
              then (fail_if (is_some (ustar_path_fields value)) tar_long_name_fits
                  >> ok (record st { pending_name = some value; reader = r }))
              else (fail_if (leb (length value) 100) tar_long_link_fits
                  >> ok (record st { pending_link = some value; reader = r })))
            ≡ ok later
          → IsLong st later
      ending true value r spent last =
          let (u3, fits, end_) =
            >>=-eq-ok (fail_if (is_some (ustar_path_fields value)) tar_long_name_fits) _ last in
          subst (IsLong st) (ok_inj end_)
            (record { spent = spent; nodes = refl; entries = refl; structural = refl })
      ending false value r spent last =
          let (u3, fits, end_) =
            >>=-eq-ok (fail_if (leb (length value) 100) tar_long_link_fits) _ last in
          subst (IsLong st) (ok_inj end_)
            (record { spent = spent; nodes = refl; entries = refl; structural = refl })
