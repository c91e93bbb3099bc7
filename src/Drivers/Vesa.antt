-- ===== src/Drivers/Vesa.antt =====
-- drivers/vesa.c: the table of video modes, and the one that is in use.
use hazle_os.Prelude.{
  ℕ, ◌+◌, ◌*◌, ◌/◌, Bool, true, false, ◌&&◌, List, [], ◌∷◌, none, some, leb, ◌==◌, if◌then◌else◌,
  u16, get, codes,
}
use hazle_os.Libc.{CString}

-- `vesa_mode_entry_t`
pub record ModeEntry : Type 0 where
  pub mode_number : ℕ
  pub width : ℕ
  pub height : ℕ
  pub bpp : ℕ
  pub name : CString

abbrev entry : (mode_number width height : ℕ) → CString → ModeEntry
entry mode_number width height name = record {
  mode_number = mode_number;
  width = width;
  height = height;
  bpp = 32;
  name = name;
}

pub vesa_modes : List ModeEntry
vesa_modes =
    entry 0x101 640 480 (codes "640x480")
    ∷ entry 0x103 800 600 (codes "800x600")
    ∷ entry 0x105 1024 768 (codes "1024x768")
    ∷ entry 0x107 1280 720 (codes "1280x720")
    ∷ entry 0x109 1280 1024 (codes "1280x1024")
    ∷ entry 0x10B 1920 1080 (codes "1920x1080")
    ∷ []

abbrev pub mode_count : ℕ
mode_count = 6

abbrev pub vesa_1024x768 : ℕ
vesa_1024x768 = 2

-- The static variables of vesa.c.
pub record Vesa : Type 0 where
  pub framebuffer_addr : ℕ
  pub screen_width : ℕ
  pub screen_height : ℕ
  pub screen_pitch : ℕ
  pub screen_bpp : ℕ
  pub current_mode : ℕ

abbrev pub use_mode : (mode : ℕ) → ModeEntry → Vesa → Vesa
use_mode mode m v = record v {
  current_mode = mode;
  screen_width = m.width;
  screen_height = m.height;
  screen_bpp = m.bpp;
  screen_pitch = u16 (m.width * (m.bpp / 8));
}

pub set_mode : (mode : ℕ) → Vesa → Bool × Vesa
unfolding vesa_modes
set_mode mode v = elim (get vesa_modes mode) [
  | none ↦ (false, v)
  | some m ↦ (true, use_mode mode m v)
]

pub init : (mode : ℕ) → Vesa → Bool × Vesa
unfolding set_mode
init mode v = (true, (set_mode (if leb mode_count mode then vesa_1024x768 else mode) v).1)

-- The loop of `vesa_init_with_info` over the modes from index `i` on.
pub find_mode : List ModeEntry → (i width height mode : ℕ) → ℕ
find_mode [] i width height mode = mode
find_mode (m ∷ modes) i width height mode =
    let rest = find_mode modes (i + 1) width height mode in
    if (m.width == width) && (m.height == height) then i else rest

pub init_with_info : (fb_addr width height pitch bpp : ℕ) → Vesa → Bool × Vesa
unfolding vesa_modes find_mode
init_with_info fb_addr width height pitch bpp v = (
  true,
  record {
    framebuffer_addr = fb_addr;
    screen_width = width;
    screen_height = height;
    screen_pitch = pitch;
    screen_bpp = bpp;
    current_mode = find_mode vesa_modes 0 width height v.current_mode;
  },
)

pub get_mode_name : (mode : ℕ) → CString
unfolding vesa_modes
get_mode_name mode = elim (get vesa_modes mode) [ none ↦ codes "Unknown" | some m ↦ m.name ]
