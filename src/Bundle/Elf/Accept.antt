-- ===== src/Bundle/Elf/Accept.antt =====
-- What an executable is that `inspect_elf_for_arch` accepts.
use bobr.Base.{
  ℕ, ◌+◌, ◌*◌, ◌≤◌, ◌≡◌, ◌⊎◌, sym, ap, ◌∙◌, subst, true, false, not, ◌||◌, Option, none, List, ◌∷◌,
  length, take, drop, ltb, ◌==◌, bytes_eq, eq_of_bytes_eq, ok, ok_or, ==_iff, >>=-eq-ok, ok_inj,
  inl, inr, Bool-cases, arith,
}
use bobr.Base.Text.{codes}
use bobr.Bundle.Elf.{
  elf_header_size, elf64_program_header_size, et_exec, et_dyn, PlatformArch, elf_machine,
  ElfExecutable, truncated_header, invalid_magic, unsupported_class, unsupported_endian,
  unsupported_version, unsupported_type, unsupported_machine, invalid_program_header_table,
  elfclass64, elfdata2lsb, ev_current, read_u16, read_u64, byte_at, checked, read_exact_at,
  reject_if, find_interpreter, linkage_of, check_header, inspect_elf_for_arch,
}
use bobr.Bundle.Elf.Interpreter.{
  HasLinkage, program_headers, reject_if-ok, not-false, checked-ok, read_exact_at-ok,
  find_interpreter-HasLinkage,
}

-- An executable of the architecture, with its type and its linkage.
pub record IsElf (arch : PlatformArch) (file : List ℕ) (executable : ElfExecutable) : Type 0 where
  pub long : elf_header_size ≤ length file
  pub magic : take 4 (take elf_header_size file) ≡ 0x7f ∷ codes "ELF"
  pub machine : read_u16 (take elf_header_size file) 18 ≡ elf_machine arch
  pub kind :
      ((read_u16 (take elf_header_size file) 16 ≡ et_exec)
        × (executable.position_independent ≡ false))
      ⊎ ((read_u16 (take elf_header_size file) 16 ≡ et_dyn)
          × (executable.position_independent ≡ true))
  pub table :
      read_u64 (take elf_header_size file) 32
        + read_u16 (take elf_header_size file) 56 * elf64_program_header_size
      ≤ length file
  pub linked :
      HasLinkage file
        (program_headers (read_u16 (take elf_header_size file) 56) (
          take
            (read_u16 (take elf_header_size file) 56 * elf64_program_header_size)
            (drop (read_u64 (take elf_header_size file) 32) file)))
        executable.linkage

check_header-eq :
    (arch : PlatformArch) (header : List ℕ) (u : Unit {0})
    → check_header arch header ≡ ok u
    → (bytes_eq (take 4 header) (0x7f ∷ codes "ELF") ≡ true)
      × ((read_u16 header 16 == et_exec || read_u16 header 16 == et_dyn) ≡ true)
      × ((read_u16 header 18 == elf_machine arch) ≡ true)
unfolding check_header
check_header-eq arch header u e =
    let (u1, magic, e1) =
      >>=-eq-ok (reject_if (not (bytes_eq (take 4 header) (0x7f ∷ codes "ELF"))) invalid_magic) _
        e in
    let (u2, class, e2) =
      >>=-eq-ok
        (reject_if (not (byte_at header 4 == elfclass64)) (unsupported_class (byte_at header 4))) _
        e1 in
    let (u3, endian, e3) =
      >>=-eq-ok
        (reject_if (not (byte_at header 5 == elfdata2lsb)) (unsupported_endian (byte_at header 5)))
        _ e2 in
    let (u4, ident, e4) =
      >>=-eq-ok
        (reject_if (not (byte_at header 6 == ev_current)) (unsupported_version (byte_at header 6)))
        _ e3 in
    let kinds = read_u16 header 16 == et_exec || read_u16 header 16 == et_dyn in
    let (u5, kind, e5) =
      >>=-eq-ok (reject_if (not kinds) (unsupported_type (read_u16 header 16))) _ e4 in
    let (u6, machine, e6) =
      >>=-eq-ok
        (reject_if (not (read_u16 header 18 == elf_machine arch))
          (unsupported_machine (read_u16 header 18) arch))
        _ e5 in
    (
      not-false (bytes_eq (take 4 header) (0x7f ∷ codes "ELF")) (
          reject_if-ok (not (bytes_eq (take 4 header) (0x7f ∷ codes "ELF"))) invalid_magic u1
            magic),
      not-false kinds (reject_if-ok (not kinds) (unsupported_type (read_u16 header 16)) u5 kind),
      not-false (read_u16 header 18 == elf_machine arch) (
          reject_if-ok (not (read_u16 header 18 == elf_machine arch))
            (unsupported_machine (read_u16 header 18) arch) u6 machine),
    )

kind_cases :
    (k : ℕ)
    → (k == et_exec || k == et_dyn) ≡ true
    → ((k ≡ et_exec) × ((k == et_dyn) ≡ false)) ⊎ ((k ≡ et_dyn) × ((k == et_dyn) ≡ true))
kind_cases k h = elim (Bool-cases (k == et_exec)) [
  | inl t ↦ inl (ground arith, ground arith)
  | inr f ↦ let dyn = rw f at h in inr (ground arith, dyn)
]

-- A file that inspect_elf_for_arch accepts has at least 64 bytes, begins with the ELF magic, is
-- for the machine given and of type ET_EXEC or ET_DYN, the latter exactly when it is
-- position-independent; its program headers lie inside it; and either none of them is PT_INTERP
-- and the linkage is static, or exactly one is and the linkage is dynamic with an absolute path
-- without NUL, of at most 4096 bytes with the NUL that ends it, which the file has at the offset
-- that the program header says.
pub inspect_elf_for_arch-IsElf :
    (arch : PlatformArch) (file : List ℕ) (executable : ElfExecutable)
    → inspect_elf_for_arch arch file ≡ ok executable
    → IsElf arch file executable
unfolding inspect_elf_for_arch
inspect_elf_for_arch-IsElf arch file executable e =
    let (u1, long, e1) =
      >>=-eq-ok (reject_if (ltb (length file) elf_header_size) truncated_header) _ e in
    let (header, got, e2) = >>=-eq-ok (read_exact_at file elf_header_size 0) _ e1 in
    let (u2, good, e3) = >>=-eq-ok (check_header arch header) _ e2 in
    let (size, sized, e4) =
      >>=-eq-ok
        (ok_or (checked (read_u16 header 56 * elf64_program_header_size))
          invalid_program_header_table)
        _ e3 in
    let (end_, ended, e5) =
      >>=-eq-ok (ok_or (checked (read_u64 header 32 + size)) invalid_program_header_table) _ e4 in
    let (u3, before, e6) =
      >>=-eq-ok (reject_if (ltb (length file) end_) invalid_program_header_table) _ e5 in
    let (table, tabled, e7) = >>=-eq-ok (read_exact_at file size (read_u64 header 32)) _ e6 in
    let (interpreter, found, last) =
      >>=-eq-ok (find_interpreter file (read_u16 header 56) table none) _ e7 in
    accepted header u2 size table interpreter (read_exact_at-ok file elf_header_size 0 header got).0
      (read_exact_at-ok file elf_header_size 0 header got).1 good
      (checked-ok (read_u16 header 56 * elf64_program_header_size) invalid_program_header_table size
        sized)
      (read_exact_at-ok file size (read_u64 header 32) table tabled) found (ok_inj last)
  where
    accepted :
        (header : List ℕ) (u : Unit {0}) (size : ℕ) (table : List ℕ) (interpreter : Option (List ℕ))
        → header ≡ take elf_header_size file
        → 0 + elf_header_size ≤ length file
        → check_header arch header ≡ ok u
        → read_u16 header 56 * elf64_program_header_size ≡ size
        → (table ≡ take size (drop (read_u64 header 32) file))
          × (read_u64 header 32 + size ≤ length file)
        → find_interpreter file (read_u16 header 56) table none ≡ ok interpreter
        → ◌≡◌ {A = ElfExecutable}
            (record {
              linkage = linkage_of interpreter;
              position_independent = read_u16 header 16 == et_dyn;
            })
            executable
        → IsElf arch file executable
    accepted header u size table interpreter front long good sized (tabled, inside) found same =
        let (magic, kind, machine) = check_header-eq arch header u good in
        let linked =
          find_interpreter-HasLinkage file (read_u16 header 56) table interpreter found in
        let pie : (read_u16 header 16 == et_dyn) ≡ executable.position_independent =
          ap (λ (x : ElfExecutable). x.position_independent) same in
        let link : linkage_of interpreter ≡ executable.linkage =
          ap (λ (x : ElfExecutable). x.linkage) same in
        let is = (==_iff (read_u16 header 18) (elf_machine arch)).0 machine in
        record {
          long = omega (arith, long);
          magic =
              subst (λ h. take 4 h ≡ 0x7f ∷ codes "ELF") front
                (eq_of_bytes_eq (take 4 header) (0x7f ∷ codes "ELF") magic);
          machine = subst (λ h. read_u16 h 18 ≡ elf_machine arch) front is;
          kind =
              subst
                (λ h.
                  ((read_u16 h 16 ≡ et_exec) × (executable.position_independent ≡ false))
                  ⊎ ((read_u16 h 16 ≡ et_dyn) × (executable.position_independent ≡ true)))
                front
                (elim (kind_cases (read_u16 header 16) kind) [
                  | inl (k, off) ↦ inl (k, sym pie ∙ off)
                  | inr (k, on) ↦ inr (k, sym pie ∙ on)
                ]);
          table =
              subst (λ h. read_u64 h 32 + read_u16 h 56 * elf64_program_header_size ≤ length file)
                front (subst (λ n. read_u64 header 32 + n ≤ length file) (sym sized) inside);
          linked =
              subst
                (λ h.
                  HasLinkage file
                    (program_headers (read_u16 h 56) (
                      take (read_u16 h 56 * elf64_program_header_size) (drop (read_u64 h 32) file)))
                    executable.linkage)
                front
                (subst
                  (λ n.
                    HasLinkage file
                      (program_headers (read_u16 header 56)
                        (take n (drop (read_u64 header 32) file)))
                      executable.linkage)
                  (sym sized)
                  (subst
                    (λ t.
                      HasLinkage file (program_headers (read_u16 header 56) t) executable.linkage)
                    tabled
                    (subst (HasLinkage file (program_headers (read_u16 header 56) table)) link
                      linked)));
        }
