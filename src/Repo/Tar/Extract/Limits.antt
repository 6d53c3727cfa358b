-- ===== src/Repo/Tar/Extract/Limits.antt =====
-- The state before and after `extract_logical`.
use bobr.Base.{
  ℕ, ◌+◌, ◌≤◌, ◌≡◌, refl, subst, Bool, true, false, not, ◌&&◌, none, some, List, [], length, ltb,
  ◌==◌, Result, ok, >>=-eq-ok, ok_or, arith,
}
use bobr.Repo.Error.{
  RepositoryError, panic, tar_too_many_entries, tar_structural_limit, tar_structural_overflow,
  tar_nonzero_size,
}
use bobr.Repo.Tar.{split_slash, normalize_path}
use bobr.Repo.Tar.Normalize.{IsNormalized, normalize_path-IsNormalized}
use bobr.Repo.Tar.Nodes.{NodeKind, get, all_but_last, insert_path}
use bobr.Repo.Tar.Nodes.Parents.{Keeps, AreDirectories, insert_path-AreDirectories}
use bobr.Repo.Tar.Header.{ParsedHeader}
use bobr.Repo.Tar.Extract.{
  FsApi, ExtractState, max_tar_entries, max_tar_structural_bytes, fail_if, unwrap_or, node_kind,
  check_link, checked_sum, is_file, write_node, extract_logical,
}

fail_if-ok : (b : Bool) (e : RepositoryError) {u : Unit {0}} → fail_if b e ≡ ok u → b ≡ false
fail_if-ok true e h = absurd (cc h)
fail_if-ok false e h = refl

le_of_ltb : (a b : ℕ) → ltb b a ≡ false → a ≤ b
le_of_ltb a b h = ground arith

-- The step from `st` to `later`: one more entry within the limits, at a plain relative path below
-- directories only, and the kinds of all earlier nodes unchanged.
pub record IsExtracted {Fs : Type 0} (st later : ExtractState Fs) : Type 0 where
  pub path : List ℕ
  pub kind : NodeKind
  pub normalized : IsNormalized path
  pub node : get later.nodes path ≡ some kind
  pub parents : AreDirectories later.nodes [] (all_but_last (split_slash path))
  pub keeps : Keeps st.nodes later.nodes
  pub counted : later.entries ≡ st.entries + 1
  pub entries : later.entries ≤ max_tar_entries
  pub structural : later.structural_bytes ≤ max_tar_structural_bytes
  pub name_used : later.pending_name ≡ none
  pub link_used : later.pending_link ≡ none

module _ {Fs : Type 0} (api : FsApi Fs) where
  -- Whatever the file system does, when extract_logical succeeds there is one entry more, within
  -- the entry limit, the structural bytes are within their limit, the pending names are used up,
  -- and the nodes have kept their kinds and have a node at a normalized path all of whose proper
  -- parents are directories.
  pub extract_logical-IsExtracted :
      (header : ParsedHeader) (st later : ExtractState Fs)
      → extract_logical api header st ≡ ok later
      → IsExtracted st later
  unfolding extract_logical
  extract_logical-IsExtracted header st later e =
      let (_, few, e1) =
        >>=-eq-ok (fail_if (ltb max_tar_entries (st.entries + 1)) tar_too_many_entries) _ e in
      let (path, plain, e2) =
        >>=-eq-ok (normalize_path (unwrap_or st.pending_name header.path) (header.kind == b'5')) _
          e1 in
      let (kind, known, e3) = >>=-eq-ok (ok_or (node_kind header.kind) panic) _ e2 in
      let (_, linked, e4) =
        >>=-eq-ok (check_link kind (unwrap_or st.pending_link header.link)) _ e3 in
      let (structural, summed, e5) =
        >>=-eq-ok
          (ok_or
            (checked_sum st.structural_bytes (length path)
              (length (unwrap_or st.pending_link header.link)))
            tar_structural_overflow)
          _ e4 in
      let (_, small, e6) =
        >>=-eq-ok (fail_if (ltb max_tar_structural_bytes structural) tar_structural_limit) _ e5 in
      let (_, sized, e7) =
        >>=-eq-ok (fail_if (not (is_file kind) && not (header.size == 0)) tar_nonzero_size) _ e6 in
      let (inserted, added, e8) =
        >>=-eq-ok (insert_path api.create_dir_all st.nodes st.fs path kind) _ e7 in
      let (done, wrote, last) =
        >>=-eq-ok
          (write_node api kind path (unwrap_or st.pending_link header.link) header st.reader
            inserted.1)
          _ e8 in
      let (node, parents, keeps) =
        insert_path-AreDirectories api.create_dir_all st.nodes st.fs path kind inserted added in
      let room = fail_if-ok _ tar_too_many_entries few in
      let low = fail_if-ok _ tar_structural_limit small in
      let entries_le = le_of_ltb (st.entries + 1) max_tar_entries room in
      let structural_le = le_of_ltb structural max_tar_structural_bytes low in
      subst (IsExtracted st) (inner last) (record {
        path = path;
        kind = kind;
        normalized = normalize_path-IsNormalized _ path _ plain;
        node = node;
        parents = parents;
        keeps = keeps;
        counted = refl;
        entries = entries_le;
        structural = structural_le;
        name_used = refl;
        link_used = refl;
      })
    where
      inner :
          {a b : ExtractState Fs}
          → ◌≡◌ {A = Result RepositoryError (ExtractState Fs)} (ok a) (ok b)
          → a ≡ b
      inner e = cc e
