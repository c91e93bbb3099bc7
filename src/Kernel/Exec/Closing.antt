-- ===== src/Kernel/Exec/Closing.antt =====
-- `exec_run` leaves no descriptor open.
use hazle_os.Prelude.{
  ℕ, ◌≡◌, refl, ◌∙◌, inl, inr, Bool, true, ◌==◌, Bool-cases, Option, none, some, Option-cases, ℤ,
  pos, negsuc, List, stored,
}
use hazle_os.Device.{BlockDevice}
use hazle_os.Ports.{Ports}
use hazle_os.Libc.{CString}
use hazle_os.Fat32.File.{Files}
use hazle_os.Fat32.File.Calls.{open_file, read, close, size}
use hazle_os.Fat32.File.Calls.Descriptors.{in_use, open_file-Marked}
use hazle_os.Fat32.File.Calls.Opened.{IsOpened, open_file-IsOpened, read-IsOpened, close-restores}
use hazle_os.Kernel.Heap
use hazle_os.Kernel.Elf.{file_at, validate, load}
use hazle_os.Kernel.System.{System, at_address, put_back, with_files}
use hazle_os.Kernel.Exec.{Program, start, load_file, run_file, run, close_and}

-- The places of the table of open files are marked as `before` in what a call returns.
abbrev pub Leaves : {B : BlockDevice} {P : Ports} → (ℕ → Bool) → Option (ℤ × System B P) → Type 0
Leaves before none = Unit
Leaves before (some (code, t)) = (i : ℕ) → in_use t.files i ≡ before i

module _ {B : BlockDevice} {P : Ports} (program : Program B P)
    (tidy : (entry : ℕ) (argv : List CString) (s : System B P)
      → Leaves (in_use s.files) (program entry argv s)) where
  start-Leaves :
      (address n : ℕ) (argv : List CString) (s : System B P)
      → Leaves (in_use s.files) (start program address n argv s)
  unfolding start
  start-Leaves address n argv s = elim (Bool-cases (validate (file_at s.memory address) n)) [
    | inr bad ↦ rw (bad, start) (λ i. refl)
    | inl good ↦
        let entry = (load address n s.memory).0 in
        let loaded : System B P = record s { memory = (load address n s.memory).1 } in
        elim (Bool-cases (entry == 0)) [
          | inl none_found ↦ rw (good, none_found, start) (λ i. refl)
          | inr found ↦ elim (Option-cases (program entry argv loaded)) [
            | inl lost ↦ rw (good, found, start) (rw lost tt)
            | inr (r, ran) ↦ rw (good, found, start) (rw ran (rw ran at (tidy entry argv loaded)))
          ]
        ]
  ]

  close_and-Leaves :
      (before : ℕ → Bool) (fuel fd : ℕ) (code : ℤ) (s : System B P)
      → IsOpened before fd s.files
      → Leaves before (close_and fuel (pos fd) code s)
  close_and-Leaves before fuel fd code s h =
      elim (Option-cases (close s.fs fuel (pos fd) s.files)) [
        | inl stuck ↦ rw (stuck, Leaves) tt
        | inr (files, closed) ↦
            rw (closed, Leaves) (close-restores s.fs before fuel fd s.files h closed)
      ]

  -- The marks before, from one function to another that agrees with it.
  Leaves-same :
      (f g : ℕ → Bool)
      → ((i : ℕ) → f i ≡ g i)
      → (o : Option (ℤ × System B P)) → Leaves f o
      → Leaves g o
  Leaves-same f g same none h = tt
  Leaves-same f g same (some (code, t)) h = λ i. h i ∙ same i

  load_file-Leaves :
      (before : ℕ → Bool) (fuel fd n address : ℕ) (argv : List CString) (s : System B P)
      → IsOpened before fd s.files
      → Leaves before (load_file program fuel (pos fd) n address argv s)
  unfolding load_file
  load_file-Leaves before fuel fd n address argv s h =
      elim (Option-cases (read s.fs fuel (pos fd) (at_address s.memory address) n s.files)) [
        | inl stuck ↦ rw (stuck, load_file) tt
        | inr (r, got) ↦ elim (Option-cases (close s.fs fuel (pos fd) r.1)) [
          | inl stuck ↦ rw (got, load_file) (rw stuck tt)
          | inr (files, closed) ↦
              let opened = read-IsOpened s.fs before fuel fd _ n s.files h got in
              let restored = close-restores s.fs before fuel fd r.1 opened closed in
              let filled : System B P = record s {
                files = files;
                memory = put_back s.memory address n r.0.1;
              } in
              rw (got, load_file)
                (rw closed (elim (Bool-cases (stored r.0.0 == n)) [
                  | inr short ↦ rw short restored
                  | inl full ↦ rw full (
                      Leaves-same (in_use files) before restored
                        (start program address n argv filled) (start-Leaves address n argv filled))
                ]))
        ]
      ]

  run_file-Leaves :
      (before : ℕ → Bool) (fuel fd : ℕ) (argv : List CString) (s : System B P)
      → IsOpened before fd s.files
      → Leaves before (run_file program fuel (pos fd) argv s)
  unfolding run_file
  run_file-Leaves before fuel fd argv s h =
      let n = size (pos fd) s.files.open_files in
      let grant = Heap.alloc n (Heap.reset s.heap_offset) in
      let taken : System B P = record s { heap_offset = grant.1 } in
      elim (Bool-cases (n == 0)) [
        | inl empty_file ↦ rw (empty_file, run_file) (close_and-Leaves before fuel fd _ s h)
        | inr some_bytes ↦ elim (Option-cases grant.0) [
          | inl no_room ↦
              rw (some_bytes, run_file) (rw no_room (close_and-Leaves before fuel fd _ taken h))
          | inr (a, room) ↦
              rw (some_bytes, run_file) (rw room (load_file-Leaves before fuel fd n a argv taken h))
        ]
      ]

  -- Whichever way `exec_run` ends (no volume, no file, an empty file, one that is too large for the
  -- heap or cut short, no program, or the program's own return), the descriptors that are open are
  -- those that were open before, if the program leaves them so.
  pub run-Leaves :
      (fuel : ℕ) (path : CString) (argv : List CString) (s : System B P)
      → Leaves (in_use s.files) (run program fuel path argv s)
  unfolding run
  run-Leaves fuel path argv s = elim (Bool-cases s.fs.mounted) [
    | inr unmounted ↦ rw (unmounted, run) (λ i. refl)
    | inl mounted ↦ go mounted (open_file s.fs fuel path s.files) refl
  ]
    where
      go :
          s.fs.mounted ≡ true
          → (o : Option (ℤ × Files B)) → open_file s.fs fuel path s.files ≡ o
          → Leaves (in_use s.files) (run program fuel path argv s)
      go mounted none e = rw (mounted, run) (rw e tt)
      go mounted (some (negsuc n, files)) e =
          rw (mounted, run) (rw e (open_file-Marked s.fs fuel path s.files e))
      go mounted (some (pos fd, files)) e =
          rw (mounted, run)
            (rw e (
              run_file-Leaves (in_use s.files) fuel fd argv (with_files s files)
                (open_file-IsOpened s.fs fuel path fd s.files e)))
