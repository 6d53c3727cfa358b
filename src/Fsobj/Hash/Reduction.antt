-- ===== src/Fsobj/Hash/Reduction.antt =====
-- Two nodes with one hash, and the collision of SHA-256 behind it.
use bobr.Base.{
  ℕ, ◌^◌, ◌<◌, ◌≡◌, ◌≢◌, refl, sym, ap, ◌∙◌, ◌⊎◌, inl, inr, true, false, none, some, List, [], ◌∷◌,
  ◌++◌, append_assoc, length, take, get_elem?, bytes_eq, bytes_eq_refl, eq_of_bytes_eq, Bool-cases,
  arith,
}
use bobr.Base.Bytes.{to_be_bytes}
use bobr.Base.Text.{codes}
use bobr.Fsobj.Hash.{
  EntryKind, FileNode, Node, file_node, directory_node, symlink_node, Entries, nil, cons, kind,
  file_tag, dir_tag, symlink_tag, kind_byte, bool_byte, file_bytes, hash_file, symlink_bytes,
  hash_symlink, entry_bytes, hash_node, entries_bytes,
}
use bobr.Fsobj.Hash.Cancel.{append-cancel, word-cancel}

-- Two byte strings with one digest.
abbrev pub Collision : (List ℕ → List ℕ) → Type 0
Collision sha256 = (x y : List ℕ) × (x ≢ y) × (sha256 x ≡ sha256 y)

-- The node of a file with some content. The content of a file that is not executable does not
-- begin with the tags' `fsobj:`.
pub record IsFileNode (sha256 : List ℕ → List ℕ) (f : FileNode) : Type 0 where
  pub content : List ℕ
  pub hash : f.content_hash ≡ sha256 content
  pub size : f.size ≡ length content
  pub small : f.size < 2 ^ 64
  pub untagged : f.executable ≡ false → take 6 content ≢ codes "fsobj:"

unfoldable mutual
  pub IsNode : (List ℕ → List ℕ) → Node → Type 0
  IsNode sha256 (file_node f) = IsFileNode sha256 f
  IsNode sha256 (directory_node es) = AreEntries sha256 es
  IsNode sha256 (symlink_node target) = length target < 2 ^ 64

  pub AreEntries : (List ℕ → List ℕ) → Entries → Type 0
  AreEntries sha256 nil = Unit
  AreEntries sha256 (cons name node es) =
      (length name < 2 ^ 64) × IsNode sha256 node × AreEntries sha256 es

-- The byte behind `fsobj:`.
abbrev seventh : List ℕ → ℕ
seventh xs = elim (get_elem? xs 6) [ none ↦ 0 | some b ↦ b ]

pub same_or_Collision :
    (sha256 : List ℕ → List ℕ) (x y : List ℕ) → sha256 x ≡ sha256 y → (x ≡ y) ⊎ Collision sha256
same_or_Collision sha256 x y e = elim (Bool-cases (bytes_eq x y)) [
  | inl t ↦ inl (eq_of_bytes_eq x y t)
  | inr f ↦ inr (x, y, λ same. (let yes = bytes_eq_refl y in cc (rw same at f, yes)), e)
]

module _ (sha256 : List ℕ → List ℕ) (size_of_digest : (x : List ℕ) → length (sha256 x) ≡ 32) where
  -- What the digest of a node is taken of.
  preimage : (n : Node) → IsNode sha256 n → (x : List ℕ) × (hash_node sha256 n ≡ sha256 x)
  unfolding hash_node hash_file hash_symlink IsNode
  preimage (file_node f) h = elim (Bool-cases f.executable) [
    | inl t ↦ (file_bytes f, rw t)
    | inr e ↦ (h.content, rw e h.hash)
  ]
  preimage (directory_node es) h = (dir_tag ++ entries_bytes sha256 es, refl)
  preimage (symlink_node target) h = (symlink_bytes target, refl)

  length-hash_node : (n : Node) → IsNode sha256 n → length (hash_node sha256 n) ≡ 32
  length-hash_node n h = let (x, e) = preimage n h in ap length e ∙ size_of_digest x

  file_node_eq :
      (f g : FileNode)
      → f.executable ≡ g.executable
      → f.content_hash ≡ g.content_hash
      → f.size ≡ g.size
      → file_node f ≡ file_node g
  file_node_eq f g p q r i = file_node (record { executable = p i; content_hash = q i; size = r i })

  -- A tagged preimage is no content of a plain file.
  plain-tagged :
      (f : FileNode) (h : IsFileNode sha256 f) (x : List ℕ)
      → f.executable ≡ false
      → take 6 x ≡ codes "fsobj:"
      → h.content ≡ x
      → ⊥
  plain-tagged f h x e tag same = h.untagged e (ap (take 6) same ∙ tag)

  hash_file-executable :
      (f : FileNode) → f.executable ≡ true → hash_file sha256 f ≡ sha256 (file_bytes f)
  unfolding hash_file
  hash_file-executable f e = rw e

  hash_file-plain : (f : FileNode) → f.executable ≡ false → hash_file sha256 f ≡ f.content_hash
  unfolding hash_file
  hash_file-plain f e = rw e

  file-file :
      (f g : FileNode)
      → IsFileNode sha256 f
      → IsFileNode sha256 g
      → hash_file sha256 f ≡ hash_file sha256 g
      → (file_node f ≡ file_node g) ⊎ Collision sha256
  unfolding file_bytes
  file-file f g h k e = elim (Bool-cases f.executable) [
    | inl tf ↦ elim (Bool-cases g.executable) [
      | inl tg ↦
          elim (same_or_Collision sha256 (file_bytes f) (file_bytes g)
            (sym (hash_file-executable f tf) ∙ e ∙ hash_file-executable g tg)) [
              | inr c ↦ inr c
              | inl same ↦
                  let (_, r1) = append-cancel file_tag file_tag _ _ refl same in
                  let (_, r2) =
                    append-cancel (bool_byte f.executable ∷ []) (bool_byte g.executable ∷ []) _ _
                      refl r1 in
                  let (sizes, hashes) = word-cancel f.size g.size _ _ h.small k.small r2 in
                  inl (file_node_eq f g (tf ∙ sym tg) hashes sizes)
            ]
      | inr eg ↦
          elim (same_or_Collision sha256 (file_bytes f) k.content
            (sym (hash_file-executable f tf) ∙ e ∙ hash_file-plain g eg ∙ k.hash)) [
              | inr c ↦ inr c
              | inl same ↦ absurd (plain-tagged g k (file_bytes f) eg refl (sym same))
            ]
    ]
    | inr ef ↦ elim (Bool-cases g.executable) [
      | inl tg ↦
          elim (same_or_Collision sha256 h.content (file_bytes g)
            (sym h.hash ∙ sym (hash_file-plain f ef) ∙ e ∙ hash_file-executable g tg)) [
              | inr c ↦ inr c
              | inl same ↦ absurd (plain-tagged f h (file_bytes g) ef refl same)
            ]
      | inr eg ↦
          let hashes : f.content_hash ≡ g.content_hash =
            sym (hash_file-plain f ef) ∙ e ∙ hash_file-plain g eg in
          elim (same_or_Collision sha256 h.content k.content (sym h.hash ∙ hashes ∙ k.hash)) [
            | inr c ↦ inr c
            | inl same ↦
                inl (file_node_eq f g (ef ∙ sym eg) hashes (h.size ∙ ap length same ∙ sym k.size))
          ]
    ]
  ]

  -- A file and what is no file.
  file-tagged :
      (f : FileNode) (x : List ℕ)
      → IsFileNode sha256 f
      → take 6 x ≡ codes "fsobj:"
      → seventh x ≢ b'f'
      → hash_file sha256 f ≡ sha256 x
      → Collision sha256
  unfolding file_bytes
  file-tagged f x h tag other e = elim (Bool-cases f.executable) [
    | inl t ↦
        elim (same_or_Collision sha256 (file_bytes f) x (sym (hash_file-executable f t) ∙ e)) [
          | inr c ↦ c
          | inl same ↦ absurd (other (sym (ap seventh same)))
        ]
    | inr ef ↦
        elim (same_or_Collision sha256 h.content x (sym h.hash ∙ sym (hash_file-plain f ef) ∙ e)) [
          | inr c ↦ c
          | inl same ↦ absurd (plain-tagged f h x ef tag same)
        ]
  ]

  symlink-symlink :
      (s t : List ℕ)
      → length s < 2 ^ 64
      → length t < 2 ^ 64
      → symlink_bytes s ≡ symlink_bytes t
      → s ≡ t
  unfolding symlink_bytes
  symlink-symlink s t h k e =
      let (_, rest) = append-cancel symlink_tag symlink_tag _ _ refl e in
      (word-cancel (length s) (length t) s t h k rest).1

  kind_byte-inj : (k l : EntryKind) → kind_byte k ≡ kind_byte l → k ≡ l
  kind_byte-inj EntryKind.file EntryKind.file e = refl
  kind_byte-inj EntryKind.file EntryKind.directory e = absurd (omega arith)
  kind_byte-inj EntryKind.file EntryKind.symlink e = absurd (omega arith)
  kind_byte-inj EntryKind.directory EntryKind.file e = absurd (omega arith)
  kind_byte-inj EntryKind.directory EntryKind.directory e = refl
  kind_byte-inj EntryKind.directory EntryKind.symlink e = absurd (omega arith)
  kind_byte-inj EntryKind.symlink EntryKind.file e = absurd (omega arith)
  kind_byte-inj EntryKind.symlink EntryKind.directory e = absurd (omega arith)
  kind_byte-inj EntryKind.symlink EntryKind.symlink e = refl

  -- The first entry of two directories: its name, its hash and the rest.
  entry-cancel :
      (k l : EntryKind) (name mane hash hush us vs : List ℕ)
      → length name < 2 ^ 64
      → length mane < 2 ^ 64
      → length hash ≡ length hush
      → entry_bytes k name hash ++ us ≡ entry_bytes l mane hush ++ vs
      → (name ≡ mane) × (hash ≡ hush) × (us ≡ vs)
  unfolding entry_bytes
  entry-cancel k l name mane hash hush us vs small tiny same e =
      let rest = (append-cancel (kind_byte k ∷ []) (kind_byte l ∷ []) _ _ refl e).1 in
      let e1 =
        sym (append_assoc (to_be_bytes 8 (length name)) (name ++ hash) us)
        ∙ rest
        ∙ append_assoc (to_be_bytes 8 (length mane)) (mane ++ hush) vs in
      let (sizes, e2) = word-cancel (length name) (length mane) _ _ small tiny e1 in
      let (names, e3) =
        append-cancel name mane _ _ sizes
          (sym (append_assoc name hash us) ∙ e2 ∙ append_assoc mane hush vs) in
      let (hashes, e4) = append-cancel hash hush us vs same e3 in (names, hashes, e4)

  -- Two outcomes together.
  both : {A B C : Type 0} {c : Type 0} → (A → B → C) → A ⊎ c → B ⊎ c → C ⊎ c
  both f (inl a) (inl b) = inl (f a b)
  both f (inl a) (inr c) = inr c
  both f (inr c) b = inr c

  dir_tag-other : (us : List ℕ) → seventh (dir_tag ++ us) ≢ b'f'
  dir_tag-other us e = let same : ◌≡◌ {A = ℕ} 100 102 = e in omega arith

  symlink_bytes-tag : (t : List ℕ) → take 6 (symlink_bytes t) ≡ codes "fsobj:"
  unfolding symlink_bytes
  symlink_bytes-tag t = refl

  symlink_bytes-other : (t : List ℕ) → seventh (symlink_bytes t) ≢ b'f'
  unfolding symlink_bytes
  symlink_bytes-other t e = let same : ◌≡◌ {A = ℕ} 115 102 = e in omega arith

  dir-symlink : (us t : List ℕ) → dir_tag ++ us ≢ symlink_bytes t
  unfolding symlink_bytes
  dir-symlink us t e = let same : ◌≡◌ {A = ℕ} 100 115 = ap seventh e in omega arith

  mutual
    unfolding hash_node hash_symlink entries_bytes entry_bytes IsNode

    node_lem :
        (n m : Node)
        → IsNode sha256 n
        → IsNode sha256 m
        → hash_node sha256 n ≡ hash_node sha256 m
        → (n ≡ m) ⊎ Collision sha256
    node_lem (file_node f) (file_node g) h k e = file-file f g h k e
    node_lem (file_node f) (directory_node es) h k e = inr (
        file-tagged f (dir_tag ++ entries_bytes sha256 es) h refl
          (dir_tag-other (entries_bytes sha256 es)) e)
    node_lem (file_node f) (symlink_node t) h k e =
        inr (file-tagged f (symlink_bytes t) h (symlink_bytes-tag t) (symlink_bytes-other t) e)
    node_lem (directory_node es) (file_node g) h k e = inr (
        file-tagged g (dir_tag ++ entries_bytes sha256 es) k refl
          (dir_tag-other (entries_bytes sha256 es)) (sym e))
    node_lem (directory_node es) (directory_node fs) h k e =
        elim (same_or_Collision sha256 (dir_tag ++ entries_bytes sha256 es)
          (dir_tag ++ entries_bytes sha256 fs) e) [
            | inr c ↦ inr c
            | inl same ↦
                both (λ p (q : Unit {0}). ap directory_node p)
                  (entries_lem es fs h k (append-cancel dir_tag dir_tag _ _ refl same).1) (inl tt)
          ]
    node_lem (directory_node es) (symlink_node t) h k e =
        elim (same_or_Collision sha256 (dir_tag ++ entries_bytes sha256 es) (symlink_bytes t) e) [
          | inr c ↦ inr c
          | inl same ↦ absurd (dir-symlink (entries_bytes sha256 es) t same)
        ]
    node_lem (symlink_node s) (file_node g) h k e =
        inr
          (file-tagged g (symlink_bytes s) k (symlink_bytes-tag s) (symlink_bytes-other s) (sym e))
    node_lem (symlink_node s) (directory_node fs) h k e =
        elim (same_or_Collision sha256 (symlink_bytes s) (dir_tag ++ entries_bytes sha256 fs) e) [
          | inr c ↦ inr c
          | inl same ↦ absurd (dir-symlink (entries_bytes sha256 fs) s (sym same))
        ]
    node_lem (symlink_node s) (symlink_node t) h k e =
        elim (same_or_Collision sha256 (symlink_bytes s) (symlink_bytes t) e) [
          | inr c ↦ inr c
          | inl same ↦ inl (ap symlink_node (symlink-symlink s t h k same))
        ]

    entries_lem :
        (es fs : Entries)
        → AreEntries sha256 es
        → AreEntries sha256 fs
        → entries_bytes sha256 es ≡ entries_bytes sha256 fs
        → (es ≡ fs) ⊎ Collision sha256
    entries_lem nil nil h k e = inl refl
    entries_lem nil (cons mane m fs) h k e = absurd (cc e)
    entries_lem (cons name n es) nil h k e = absurd (cc e)
    entries_lem (cons name n es) (cons mane m fs) h k e =
        let sizes = length-hash_node n h.1 ∙ sym (length-hash_node m k.1) in
        let (names, hashes, rest) =
          entry-cancel (kind n) (kind m) name mane (hash_node sha256 n) (hash_node sha256 m) _ _ h.0
            k.0 sizes e in
        both (λ p q i. cons (names i) (p i) (q i)) (node_lem n m h.1 k.1 hashes)
          (entries_lem es fs h.2 k.2 rest)

  -- If the digest always has 32 bytes, and two nodes are well formed (the hash and size in a
  -- file are those of some contents, which do not begin with fsobj: where the file is not
  -- executable, and sizes and lengths are u64), then equal hashes by hash_node mean equal nodes,
  -- or two different byte strings with the same digest are at hand.
  pub hash_node-Collision :
      (n m : Node)
      → IsNode sha256 n
      → IsNode sha256 m
      → hash_node sha256 n ≡ hash_node sha256 m
      → (n ≡ m) ⊎ Collision sha256
  hash_node-Collision n m h k e = node_lem n m h k e
