-- ===== src/Shell/Line.antt =====
-- shell/shell.c: the line that is typed, in its array of 256 characters.
pub mod Editing
use hazle_os.Prelude.{
  ℕ, zero, suc, ◌+◌, ◌-◌, List, [], ◌∷◌, ltb, ◌==◌, if◌then◌else◌, Buffer, update,
}
use hazle_os.Libc.{CString, string_in, memset}

abbrev pub shell_buffer_size : ℕ
shell_buffer_size = 256

-- `input_buffer` and `buffer_pos`.
pub record Line : Type 0 where
  pub input_buffer : Buffer
  pub buffer_pos : ℕ

-- `buffer_pos = 0; memset(input_buffer, 0, SHELL_BUFFER_SIZE);`
pub empty : Line → Line
empty l = record { buffer_pos = 0; input_buffer = memset l.input_buffer 0 0 shell_buffer_size }

-- A key other than the return key: the backspace key removes a character.
pub type_key : ℕ → Line → Line
type_key c l =
    if c == 8
    then (if ltb 0 l.buffer_pos
        then record {
          buffer_pos = l.buffer_pos - 1;
          input_buffer = update l.input_buffer (l.buffer_pos - 1) 0;
        }
        else l)
    else if ltb l.buffer_pos (shell_buffer_size - 1)
    then record {
      buffer_pos = l.buffer_pos + 1;
      input_buffer = update l.input_buffer l.buffer_pos c;
    }
    else l

pub type_keys : List ℕ → Line → Line
unfolding type_key
type_keys [] l = l
type_keys (c ∷ keys) l = type_keys keys (type_key c l)

-- What the return key hands to `execute_command`.
pub command : Line → CString
command l = string_in shell_buffer_size 0 (update l.input_buffer l.buffer_pos 0)
