-- ===== src/Shell/Tests.antt =====
-- A line typed with a correction, and times.
use hazle_os.Prelude.{◌≡◌, refl, [], ◌∷◌, blank, codes, arith, ◌<◌}
use hazle_os.Shell.Line.{Line, type_keys, command}
use hazle_os.Shell.Line.Editing.{Holds, edit, type_keys-edit}

abbrev empty_line : Line
empty_line = record { input_buffer = blank; buffer_pos = 0 }

empty_line-Holds : Holds empty_line []
empty_line-Holds = record {
  position = refl;
  room = omega arith;
  bytes = λ j inside. refl;
  chars = tt;
}

type_keys-edit_example :
    (command (type_keys (b'l' ∷ b'x' ∷ 8 ∷ b's' ∷ []) empty_line)
      ≡ edit (b'l' ∷ b'x' ∷ 8 ∷ b's' ∷ []) [])
    × ((type_keys (b'l' ∷ b'x' ∷ 8 ∷ b's' ∷ []) empty_line).buffer_pos < 256)
type_keys-edit_example =
    type_keys-edit (b'l' ∷ b'x' ∷ 8 ∷ b's' ∷ []) empty_line (ground arith) empty_line-Holds

corrected : edit (b'l' ∷ b'x' ∷ 8 ∷ b's' ∷ []) [] ≡ codes "ls"
corrected = refl
