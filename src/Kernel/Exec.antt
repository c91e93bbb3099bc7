-- ===== src/Kernel/Exec.antt =====
-- kernel/exec.c: the start of a program. `program` stands for the program's own code from its entry
-- point on: it gets the arguments and the system, and `none` means that it does not return. The
-- unused `setup_stack_and_call` is left out.
pub mod Closing
pub mod Tests
use hazle_os.Prelude.{
  ℕ, zero, suc, ◌+◌, Bool, true, false, not, List, Option, none, some, ◌==◌, if◌then◌else◌, Buffer,
  ℤ, pos, negsuc, stored,
}
use hazle_os.Device.{BlockDevice}
use hazle_os.Ports.{Ports}
use hazle_os.Libc.{CString}
use hazle_os.Fat32.File.{Files}
use hazle_os.Fat32.File.Calls.{open_file, read, close, size}
use hazle_os.Kernel.Heap
use hazle_os.Kernel.Elf.{file_at, validate, load}
use hazle_os.Kernel.System.{System, at_address, put_back, with_files}

abbrev pub exit_failure : ℤ
exit_failure = pos 1

abbrev pub exit_not_exec : ℤ
exit_not_exec = pos 126

abbrev pub exit_not_found : ℤ
exit_not_found = pos 127

abbrev pub Program : BlockDevice → Ports → Type 0
Program B P = (entry : ℕ) → List CString → System B P → Option (ℤ × System B P)

module _ {B : BlockDevice} {P : Ports} where
  pub init : System B P → System B P
  init s = record s { heap_offset = Heap.init s.heap_offset; last_status = pos 0 }

  pub exit : (code : ℤ) → System B P → System B P
  exit code s = record s { last_status = code }

  -- `exec_run` once the file is in memory.
  pub start :
      Program B P → (address file_size : ℕ) → List CString → System B P → Option (ℤ × System B P)
  start program address file_size argv s = elim (validate (file_at s.memory address) file_size) [
    | false ↦ some (exit_not_exec, s)
    | true ↦
        let (entry, memory) = load address file_size s.memory in
        let loaded = record s { memory = memory } in
        elim (entry == 0) [
          | true ↦ some (exit_not_exec, loaded)
          | false ↦ elim (program entry argv loaded) [
            | none ↦ none
            | some (result, t) ↦ some (result, record t { last_status = result })
          ]
        ]
  ]

  -- `exec_run` once the heap has given a buffer at `address`.
  pub load_file :
      Program B P
      → (fuel : ℕ) (fd : ℤ) (file_size address : ℕ) → List CString
      → System B P
      → Option (ℤ × System B P)
  unfolding start
  load_file program fuel fd file_size address argv s =
      elim (read s.fs fuel fd (at_address s.memory address) file_size s.files) [
        | none ↦ none
        | some ((bytes_read, buffer), files) ↦ elim (close s.fs fuel fd files) [
          | none ↦ none
          | some closed ↦
              let filled = record s {
                files = closed;
                memory = put_back s.memory address file_size buffer;
              } in
              elim (stored bytes_read == file_size) [
                | false ↦ some (exit_failure, filled)
                | true ↦ start program address file_size argv filled
              ]
        ]
      ]

  -- Closes the file, and returns the code.
  abbrev pub close_and : (fuel : ℕ) (fd : ℤ) → ℤ → System B P → Option (ℤ × System B P)
  close_and fuel fd code s = elim (close s.fs fuel fd s.files) [
    | none ↦ none
    | some files ↦ some (code, with_files s files)
  ]

  -- `exec_run` once the file is open.
  pub run_file :
      Program B P → (fuel : ℕ) (fd : ℤ) → List CString → System B P → Option (ℤ × System B P)
  unfolding load_file
  run_file program fuel fd argv s =
      let file_size = size fd s.files.open_files in
      elim (file_size == 0) [
        | true ↦ close_and fuel fd exit_not_exec s
        | false ↦
            let (address, offset) = Heap.alloc file_size (Heap.reset s.heap_offset) in
            let taken = record s { heap_offset = offset } in
            elim address [
              | none ↦ close_and fuel fd exit_failure taken
              | some a ↦ load_file program fuel fd file_size a argv taken
            ]
      ]

  pub run :
      Program B P
      → (fuel : ℕ) (path : CString) → List CString
      → System B P
      → Option (ℤ × System B P)
  unfolding run_file
  run program fuel path argv s = elim s.fs.mounted [
    | false ↦ some (exit_not_found, s)
    | true ↦ elim (open_file s.fs fuel path s.files) [
      | none ↦ none
      | some (negsuc n, files) ↦ some (exit_not_found, with_files s files)
      | some (pos fd, files) ↦ run_file program fuel (pos fd) argv (with_files s files)
    ]
  ]

  pub get_last_status : System B P → ℤ
  get_last_status s = s.last_status
