-- ===== src/Fat32/File/Calls/Descriptors.antt =====
-- The table of open files: which descriptors the calls give out, refuse and take back.
use hazle_os.Prelude.{
  ==_refl, Returned, leb, blank, sub32, u32, ◌%◌, ℕ, zero, suc, ◌+◌, ◌<◌, ◌≡◌, refl, ap, sym, ◌∙◌,
  inl, inr, Bool, true, false, ◌&&◌, arith, ltb, ◌==◌, if◌then◌else◌, Bool-cases, Option, none,
  some, Option-cases, Buffer, ℤ, pos, negsuc, update,
}
use hazle_os.Device.{BlockDevice}
use hazle_os.Libc.{CString}
use hazle_os.Fat32.{Fs, Volume, overflows}
use hazle_os.Fat32.Directory.Entry.{FileInfo, is_directory}
use hazle_os.Fat32.Directory.Walk.{find_entry}
use hazle_os.Fat32.Path.{parse_path}
use hazle_os.Fat32.Table.{get_fat_entry}
use hazle_os.Fat32.Bpb.{read_cluster, is_eoc}
use hazle_os.Fat32.File.{
  chunk, read_loop, OpenFile, Files, Transfer, find_free_from, find_free_fd, lookup, read_file,
  opened,
}
use hazle_os.Fat32.File.Calls.{open_file, read, close, store_size}

-- Which places of the table are in use.
abbrev pub in_use : {B : BlockDevice} → Files B → ℕ → Bool
in_use s i = (s.open_files i).in_use

find_free_from-free :
    (files : ℕ → OpenFile) (n i : ℕ) {fd : ℕ}
    → find_free_from files n i ≡ some fd
    → ((files fd).in_use ≡ false) × (fd < i + n)
unfolding find_free_from
find_free_from-free files zero i e = absurd (cc)
find_free_from-free files (suc n) i {fd} e = elim (Bool-cases (files i).in_use) [
  | inl used ↦ ground (arith, find_free_from-free files n (i + 1) (rw used at e))
  | inr free ↦
      let here : i ≡ fd = ap (λ o. elim o [ none ↦ i | some k ↦ k ]) (rw free at e) in
      (rw (← here) free, omega (arith, here))
]

-- The state that a call returns, if it does.
abbrev state_of : {A S : Type 0} → S → Option (A × S) → S
state_of s none = s
state_of s (some (a, t)) = t

-- A file put in the place of one with the same mark.
update-in_use :
    (files : ℕ → OpenFile) (k : ℕ) (f : OpenFile)
    → f.in_use ≡ (files k).in_use
    → (i : ℕ) → (update files k f i).in_use ≡ (files i).in_use
update-in_use files k f e i = elim (Bool-cases (i == k)) [
  | inl here ↦
      let same : i ≡ k = ground arith in rw here (e ∙ ap (λ j. (files j).in_use) (sym same))
  | inr there ↦ rw there refl
]

-- The marks after a call that gave out the descriptor, or failed.
abbrev pub Marked : {B : BlockDevice} → Files B → ℤ → Files B → Type 0
Marked s (negsuc n) t = (i : ℕ) → in_use t i ≡ in_use s i
Marked s (pos fd) t =
    (in_use s fd ≡ false)
    × (lookup (pos fd) t.open_files ≡ some fd)
    × ((i : ℕ) → in_use t i ≡ (if i == fd then true else in_use s i))

abbrev pub Marks : {B : BlockDevice} → Files B → Option (ℤ × Files B) → Type 0
Marks s none = Unit
Marks s (some (r, t)) = Marked s r t

module _ {B : BlockDevice} (fs : Fs) where
  -- A file keeps its mark through the loop of `fat32_read`.
  read_loop-in_use :
      (fuel n done : ℕ) (out : Buffer) (f : OpenFile) (v : Volume B)
      → Returned (λ (t : Transfer). t.file.in_use ≡ f.in_use) (read_loop fs fuel n done out f v)
  unfolding read_loop
  read_loop-in_use zero n done out f v = tt
  read_loop-in_use (suc fuel) n done out f v =
      elim (Bool-cases (ltb done n && leb 2 f.current_cluster)) [
        | inr ended ↦ rw (ended, read_loop) refl
        | inl more ↦ elim (Bool-cases (overflows fs)) [
          | inl over ↦ rw (more, over, read_loop) tt
          | inr fits ↦
              let w = (get_fat_entry fs f.current_cluster v).1 in
              elim (Option-cases (read_cluster fs f.current_cluster blank w).0) [
                | inl failed ↦ rw (more, fits, failed, read_loop) refl
                | inr (b, got) ↦
                    let count = chunk fs f.position (sub32 n done) in
                    let f' : OpenFile = record f { position = u32 (f.position + count) } in
                    elim (Bool-cases
                      ((f'.position % fs.bytes_per_cluster == 0) && ltb (u32 (done + count)) n)) [
                        | inr within ↦
                            rw (more, fits, got, within, read_loop)
                              (read_loop-in_use fuel n (u32 (done + count)) _ f' _)
                        | inl at_end ↦
                            elim (Bool-cases (is_eoc (get_fat_entry fs f.current_cluster v).0)) [
                              | inl last ↦ rw (more, fits, got, at_end, last, read_loop) refl
                              | inr next ↦
                                  rw (more, fits, got, at_end, next, read_loop)
                                    (read_loop-in_use fuel n (u32 (done + count)) _ _ _)
                            ]
                      ]
              ]
        ]
      ]

  read_file-in_use :
      (fuel n : ℕ) (out : Buffer) (f : OpenFile) (v : Volume B)
      → Returned (λ (t : Transfer). t.file.in_use ≡ f.in_use) (read_file fs fuel n out f v)
  unfolding read_file
  read_file-in_use fuel n out f v = elim (Bool-cases (leb f.size f.position)) [
    | inl at_end ↦ rw (at_end, read_file) refl
    | inr more ↦ rw (more, read_file) (read_loop-in_use fuel _ 0 out f v)
  ]

  -- `fat32_read` changes no mark.
  pub read-in_use :
      (fuel : ℕ) (fd : ℤ) (out : Buffer) (n : ℕ) (s : Files B) {r : ℤ × Buffer} {t : Files B}
      → read fs fuel fd out n s ≡ some (r, t)
      → (i : ℕ) → in_use t i ≡ in_use s i
  unfolding read
  read-in_use fuel fd out n s {r} {t} e i = elim (Option-cases (lookup fd s.open_files)) [
    | inl refused ↦
        let same : s ≡ t = ap (state_of s) (rw (refused, read) at e) in
        ap (λ u. in_use u i) (sym same)
    | inr (k, found) ↦ elim (Option-cases (read_file fs fuel n out (s.open_files k) s.volume)) [
      | inl stuck ↦ let never = rw (found, stuck, read) at e in absurd (cc)
      | inr (p, got) ↦
          let same = ap (state_of s) (rw (found, got, read) at e) in
          let kept = rw got at (read_file-in_use fuel n out (s.open_files k) s.volume) in
          ap (λ u. in_use u i) (sym same) ∙ update-in_use s.open_files k p.0.file kept i
    ]
  ]

  -- `fat32_close` clears the mark of an open file, and no other.
  pub close-in_use :
      (fuel fd : ℕ) (s : Files B) {t : Files B}
      → lookup (pos fd) s.open_files ≡ some fd
      → close fs fuel (pos fd) s ≡ some t
      → (i : ℕ) → in_use t i ≡ (if i == fd then false else in_use s i)
  unfolding close
  close-in_use fuel fd s {t} found e i =
      elim (Option-cases (store_size fs fuel (s.open_files fd) s.volume)) [
        | inl stuck ↦ let never = rw (found, stuck, close) at e in absurd (cc)
        | inr (p, stored) ↦
            let same =
              ap (λ o. elim o [ none ↦ s | some u ↦ u ]) (rw (found, stored, close) at e) in
            ap (λ u. in_use u i) (sym same) ∙ cleared
      ]
    where
      cleared :
          (update s.open_files fd (record (s.open_files fd) { in_use = false }) i).in_use
          ≡ (if i == fd then false else in_use s i)
      cleared = elim (Bool-cases (i == fd)) [ inl here ↦ rw here refl | inr there ↦ rw there refl ]

  opened-Marked :
      (fd : ℕ) (f : OpenFile) (v : Volume B) (s : Files B)
      → f.in_use ≡ true
      → find_free_fd s.open_files ≡ some fd
      → Marked s (pos fd) (record { volume = v; open_files = update s.open_files fd f })
  unfolding find_free_fd lookup
  opened-Marked fd f v s marked free =
      let (was_free, below) = find_free_from-free s.open_files 8 0 free in
      let small : ltb fd 8 ≡ true = ground arith in
      let here = ==_refl fd in (was_free, rw (small, here, marked) refl, marks_at)
    where
      marks_at :
          (i : ℕ) → (update s.open_files fd f i).in_use ≡ (if i == fd then true else in_use s i)
      marks_at i = elim (Bool-cases (i == fd)) [
        | inl here ↦ rw here marked
        | inr other ↦ rw other refl
      ]

  pub open_file-Marks :
      (fuel : ℕ) (path : CString) (s : Files B) → Marks s (open_file fs fuel path s)
  unfolding open_file opened
  open_file-Marks fuel path s = elim (Option-cases (find_free_fd s.open_files)) [
    | inl full ↦ rw (full, open_file) (λ i. refl)
    | inr (fd, free) ↦ go fd free (parse_path fs fuel path s.volume) refl
  ]
    where
      find :
          (fd : ℕ)
          → find_free_fd s.open_files ≡ some fd
          → (at : ℕ × CString) (v : Volume B) → parse_path fs fuel path s.volume ≡ some (some at, v)
          → (r : Option FileInfo × Volume B) → find_entry fs fuel at.0 at.1 v ≡ some r
          → Marks s (open_file fs fuel path s)
      find fd free at v e (none, w) got = rw (free, e, open_file) (rw got (λ i. refl))
      find fd free at v e (some info, w) got = elim (Bool-cases (is_directory info.attributes)) [
        | inl dir ↦ rw (free, e, open_file) (rw got (rw dir (λ i. refl)))
        | inr plain ↦
            rw (free, e, open_file)
              (rw got (rw plain (opened-Marked fd (opened info at.0 at.1) w s refl free)))
      ]

      go :
          (fd : ℕ)
          → find_free_fd s.open_files ≡ some fd
          → (p : Option (Option (ℕ × CString) × Volume B)) → parse_path fs fuel path s.volume ≡ p
          → Marks s (open_file fs fuel path s)
      go fd free none e = rw (free, e, open_file) tt
      go fd free (some (none, v)) e = rw (free, e, open_file) (λ i. refl)
      go fd free (some (some at, v)) e = elim (Option-cases (find_entry fs fuel at.0 at.1 v)) [
        | inl stuck ↦ rw (free, e, open_file) (rw stuck tt)
        | inr (r, got) ↦ find fd free at v e r got
      ]

  pub open_file-Marked :
      (fuel : ℕ) (path : CString) (s : Files B) {r : ℤ} {t : Files B}
      → open_file fs fuel path s ≡ some (r, t)
      → Marked s r t
  open_file-Marked fuel path s e = rw e at (open_file-Marks fuel path s)
