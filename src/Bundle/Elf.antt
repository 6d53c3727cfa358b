-- ===== src/Bundle/Elf.antt =====
-- `inspect_elf_for_arch` of bobr-bundle-launcher/src/elf.rs, on the bytes of a file that is open.
pub mod Interpreter
pub mod Accept
mod Tests
use bobr.Base.{
  ℕ, zero, suc, ◌+◌, ◌*◌, ◌^◌, Bool, true, false, not, ◌||◌, Option, none, some, List, [], ◌∷◌,
  length, take, drop, get_elem?, ltb, leb, ◌==◌, if◌then◌else◌, bytes_eq, Result, ok, err, ok_or,
  ◌>>=◌,
}
use bobr.Base.Bytes.{from_le_bytes}
use bobr.Base.Text.{codes}
use bobr.Repo.Tar.{starts_with_slash}

abbrev pub elf_header_size : ℕ
elf_header_size = 64

abbrev pub elf64_program_header_size : ℕ
elf64_program_header_size = 56

abbrev pub elfclass64 : ℕ
elfclass64 = 2

abbrev pub elfdata2lsb : ℕ
elfdata2lsb = 1

abbrev pub ev_current : ℕ
ev_current = 1

abbrev pub et_exec : ℕ
et_exec = 2

abbrev pub et_dyn : ℕ
et_dyn = 3

abbrev pub pt_interp : ℕ
pt_interp = 3

abbrev pub max_interpreter_size : ℕ
max_interpreter_size = 4096

pub data PlatformArch : Type 0 where
  x86_64 aarch64 : PlatformArch

unfoldable pub elf_machine : PlatformArch → ℕ
elf_machine x86_64 = 62
elf_machine aarch64 = 183

pub data ElfLinkage : Type 0 where
  static : ElfLinkage
  dynamic : List ℕ → ElfLinkage

pub record ElfExecutable : Type 0 where
  pub linkage : ElfLinkage
  pub position_independent : Bool

pub data ElfError : Type 0 where
  read truncated_header invalid_magic invalid_program_header_table duplicate_interpreter
        invalid_interpreter :
      ElfError
  unsupported_class unsupported_endian unsupported_version unsupported_type : ℕ → ElfError
  unsupported_machine : ℕ → PlatformArch → ElfError
  invalid_header_size invalid_program_header_size : ℕ → ElfError
  relative_interpreter : List ℕ → ElfError

abbrev pub read_u16 : List ℕ → ℕ → ℕ
read_u16 bytes offset = from_le_bytes (take 2 (drop offset bytes))

abbrev pub read_u32 : List ℕ → ℕ → ℕ
read_u32 bytes offset = from_le_bytes (take 4 (drop offset bytes))

abbrev pub read_u64 : List ℕ → ℕ → ℕ
read_u64 bytes offset = from_le_bytes (take 8 (drop offset bytes))

-- A byte of the header, which has all of them.
abbrev pub byte_at : List ℕ → ℕ → ℕ
byte_at bytes offset = elim (get_elem? bytes offset) [ none ↦ 0 | some b ↦ b ]

-- `u64::checked_add` and `u64::checked_mul`.
abbrev pub checked : ℕ → Option ℕ
checked n = if ltb n (2 ^ 64) then some n else none

-- `FileExt::read_exact_at`, of so many bytes.
unfoldable pub read_exact_at : List ℕ → ℕ → ℕ → Result ElfError (List ℕ)
read_exact_at file size offset =
    if leb (offset + size) (length file) then ok (take size (drop offset file)) else err read

abbrev pub reject_if : Bool → ElfError → Result ElfError (Unit {0})
reject_if true e = err e
reject_if false e = ok tt

abbrev pub has_nul : List ℕ → Bool
has_nul [] = false
has_nul (b ∷ bytes) = (b == 0) || has_nul bytes

-- The bytes before the last one, and that one.
unfoldable pub unsnoc : List ℕ → Option (List ℕ × ℕ)
unsnoc [] = none
unsnoc (b ∷ bytes) = elim (unsnoc bytes) [
  | none ↦ some ([], b)
  | some (front, last) ↦ some (b ∷ front, last)
]

-- The end of the loop's body: the text of the interpreter.
unfoldable pub interpreter_path : List ℕ → Result ElfError (List ℕ)
interpreter_path bytes = elim (unsnoc bytes) [
  | none ↦ err invalid_interpreter
  | some (path, last) ↦
      if not (last == 0) || has_nul path
      then err invalid_interpreter
      else if starts_with_slash path
      then ok path
      else err (relative_interpreter path)
]

unfoldable pub read_interpreter : List ℕ → List ℕ → Result ElfError (List ℕ)
read_interpreter file program_header =
    let offset = read_u64 program_header 8 in
    let size = read_u64 program_header 32 in
    reject_if (ltb size 2 || ltb max_interpreter_size size) invalid_interpreter >>= λ small.
    ok_or (checked (offset + size)) invalid_interpreter >>= λ end_.
    reject_if (ltb (length file) end_) invalid_interpreter >>= λ inside.
    read_exact_at file size offset >>= λ bytes. interpreter_path bytes

-- The loop over `chunks_exact`, for the number of program headers.
unfoldable pub find_interpreter :
    List ℕ → ℕ → List ℕ → Option (List ℕ) → Result ElfError (Option (List ℕ))
find_interpreter file zero table interpreter = ok interpreter
find_interpreter file (suc count) table interpreter =
    let program_header = take elf64_program_header_size table in
    let rest = drop elf64_program_header_size table in
    if read_u32 program_header 0 == pt_interp
    then elim interpreter [
      | some path ↦ err duplicate_interpreter
      | none ↦ read_interpreter file program_header >>= λ path.
          find_interpreter file count rest (some path)
    ]
    else find_interpreter file count rest interpreter

abbrev pub linkage_of : Option (List ℕ) → ElfLinkage
linkage_of none = static
linkage_of (some path) = dynamic path

-- The checks of the header, in their order.
unfoldable pub check_header : PlatformArch → List ℕ → Result ElfError (Unit {0})
check_header arch header =
    reject_if (not (bytes_eq (take 4 header) (0x7f ∷ codes "ELF"))) invalid_magic >>= λ magic.
    reject_if (not (byte_at header 4 == elfclass64)) (unsupported_class (byte_at header 4))
    >>= λ class.
        reject_if (not (byte_at header 5 == elfdata2lsb)) (unsupported_endian (byte_at header 5))
        >>= λ endian.
            reject_if (not (byte_at header 6 == ev_current))
              (unsupported_version (byte_at header 6))
            >>= λ ident.
                reject_if (not (read_u16 header 16 == et_exec || read_u16 header 16 == et_dyn))
                  (unsupported_type (read_u16 header 16))
                >>= λ kind.
                    reject_if (not (read_u16 header 18 == elf_machine arch))
                      (unsupported_machine (read_u16 header 18) arch)
                    >>= λ machine.
                        reject_if (not (read_u32 header 20 == ev_current))
                          (unsupported_version (read_u32 header 20))
                        >>= λ version.
                            reject_if (not (read_u16 header 52 == elf_header_size))
                              (invalid_header_size (read_u16 header 52))
                            >>= λ size.
                                reject_if (not (read_u16 header 54 == elf64_program_header_size))
                                  (invalid_program_header_size (read_u16 header 54))

unfoldable pub inspect_elf_for_arch : PlatformArch → List ℕ → Result ElfError ElfExecutable
inspect_elf_for_arch arch file =
    reject_if (ltb (length file) elf_header_size) truncated_header >>= λ long.
    read_exact_at file elf_header_size 0 >>= λ header.
    check_header arch header >>= λ checked_header.
    ok_or (checked (read_u16 header 56 * elf64_program_header_size)) invalid_program_header_table
    >>= λ table_size.
        ok_or (checked (read_u64 header 32 + table_size)) invalid_program_header_table
        >>= λ table_end.
            reject_if (ltb (length file) table_end) invalid_program_header_table >>= λ inside.
            read_exact_at file table_size (read_u64 header 32) >>= λ table.
            find_interpreter file (read_u16 header 56) table none >>= λ interpreter. ok (record {
              linkage = linkage_of interpreter;
              position_independent = read_u16 header 16 == et_dyn;
            })
