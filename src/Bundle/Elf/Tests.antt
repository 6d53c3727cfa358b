-- ===== src/Bundle/Elf/Tests.antt =====
-- Tests of the inspection: a file with one program header, which names `/ld`.
use bobr.Base.{ℕ, ◌≡◌, refl, true, List, [], ◌∷◌, ◌++◌, ok, err, bytes_eq}
use bobr.Base.Text.{codes}
use bobr.Bundle.Elf.{
  x86_64, aarch64, dynamic, ElfExecutable, unsupported_machine, elf_machine, read_exact_at, unsnoc,
  interpreter_path, read_interpreter, find_interpreter, check_header, inspect_elf_for_arch,
}
use bobr.Bundle.Elf.Accept.{IsElf, inspect_elf_for_arch-IsElf}

abbrev zeros_8 : List ℕ
zeros_8 = 0 ∷ 0 ∷ 0 ∷ 0 ∷ 0 ∷ 0 ∷ 0 ∷ 0 ∷ []

abbrev small_u64 : ℕ → List ℕ
small_u64 n = n ∷ 0 ∷ 0 ∷ 0 ∷ 0 ∷ 0 ∷ 0 ∷ 0 ∷ []

abbrev header : List ℕ
header =
    (0x7f ∷ codes "ELF")
    ++ (2 ∷ 1 ∷ 1 ∷ 0 ∷ [])
    ++ zeros_8
    ++ (3 ∷ 0 ∷ 62 ∷ 0 ∷ 1 ∷ 0 ∷ 0 ∷ 0 ∷ [])
    ++ zeros_8
    ++ small_u64 64
    ++ zeros_8
    ++ (0 ∷ 0 ∷ 0 ∷ 0 ∷ 64 ∷ 0 ∷ 56 ∷ 0 ∷ [])
    ++ small_u64 1

abbrev program_header : List ℕ
program_header =
    (3 ∷ 0 ∷ 0 ∷ 0 ∷ 0 ∷ 0 ∷ 0 ∷ 0 ∷ [])
    ++ small_u64 120
    ++ zeros_8
    ++ zeros_8
    ++ small_u64 4
    ++ zeros_8
    ++ zeros_8

abbrev file : List ℕ
file = header ++ program_header ++ codes "/ld" ++ 0 ∷ []

abbrev executable : ElfExecutable
executable = record { linkage = dynamic (codes "/ld"); position_independent = true }

inspected : inspect_elf_for_arch x86_64 file ≡ ok executable
unfolding inspect_elf_for_arch check_header read_exact_at find_interpreter read_interpreter
    interpreter_path unsnoc elf_machine bytes_eq
inspected = refl

other_machine : inspect_elf_for_arch aarch64 file ≡ err (unsupported_machine 62 aarch64)
unfolding inspect_elf_for_arch check_header read_exact_at elf_machine bytes_eq
other_machine = refl

inspect_elf_for_arch-IsElf_example : IsElf x86_64 file executable
inspect_elf_for_arch-IsElf_example = inspect_elf_for_arch-IsElf x86_64 file executable inspected
