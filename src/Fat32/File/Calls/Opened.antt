-- ===== src/Fat32/File/Calls/Opened.antt =====
-- A file between its opening and its closing.
use hazle_os.Prelude.{
  ℕ, ◌≡◌, refl, ap, sym, ◌∙◌, inl, inr, Bool, true, false, ◌==◌, if◌then◌else◌, Bool-cases, arith,
  some, Buffer, ℤ, pos,
}
use hazle_os.Device.{BlockDevice}
use hazle_os.Libc.{CString}
use hazle_os.Fat32.{Fs}
use hazle_os.Fat32.File.{Files, lookup}
use hazle_os.Fat32.File.Calls.{open_file, read, close}
use hazle_os.Fat32.File.Calls.Descriptors.{in_use, open_file-Marked, read-in_use, close-in_use}

-- The descriptor is open, was not before, and every other place is marked as before.
pub record IsOpened {B : BlockDevice} (before : ℕ → Bool) (fd : ℕ) (s : Files B) : Type 0 where
  pub was_free : before fd ≡ false
  pub found : lookup (pos fd) s.open_files ≡ some fd
  pub marks : (i : ℕ) → in_use s i ≡ (if i == fd then true else before i)

lookup-same :
    {B : BlockDevice} (fd : ℕ) (s t : Files B)
    → in_use t fd ≡ in_use s fd
    → lookup (pos fd) t.open_files ≡ lookup (pos fd) s.open_files
unfolding lookup
lookup-same fd s t e = rw e refl

module _ {B : BlockDevice} (fs : Fs) where
  pub open_file-IsOpened :
      (fuel : ℕ) (path : CString) (fd : ℕ) (s : Files B) {t : Files B}
      → open_file fs fuel path s ≡ some (pos fd, t)
      → IsOpened (in_use s) fd t
  open_file-IsOpened fuel path fd s e =
      let (free, found, marks) = open_file-Marked fs fuel path s e in
      record { was_free = free; found = found; marks = marks }

  pub read-IsOpened :
      (before : ℕ → Bool) (fuel fd : ℕ) (out : Buffer) (n : ℕ) (s : Files B) {r : ℤ × Buffer}
      {t : Files B}
      → IsOpened before fd s
      → read fs fuel (pos fd) out n s ≡ some (r, t)
      → IsOpened before fd t
  read-IsOpened before fuel fd out n s {t = t} h e =
      let same = read-in_use fs fuel (pos fd) out n s e in
      record {
        was_free = h.was_free;
        found = lookup-same fd s t (same fd) ∙ h.found;
        marks = λ i. same i ∙ h.marks i;
      }

  -- Closing the file leaves every place marked as before the opening.
  pub close-restores :
      (before : ℕ → Bool) (fuel fd : ℕ) (s : Files B) {t : Files B}
      → IsOpened before fd s
      → close fs fuel (pos fd) s ≡ some t
      → (i : ℕ) → in_use t i ≡ before i
  close-restores before fuel fd s h e i =
      close-in_use fs fuel fd s h.found e i ∙ (elim (Bool-cases (i == fd)) [
        | inl here ↦ rw here (sym h.was_free ∙ ap before (sym (ground arith)))
        | inr there ↦ rw there (h.marks i ∙ rw there refl)
      ])
