-- ===== src/Kernel/Sysconf/Fields.antt =====
-- The strings of the configuration always end within their arrays.
use hazle_os.Prelude.{
  Returned, ℕ, zero, suc, ◌+◌, ◌<◌, ◌≡◌, refl, ◌∙◌, Bool, true, false, List, [], arith, length,
  ◌==◌, inr, inl, Option, some, none, Bool-cases, Option-cases, if◌then◌else◌, Buffer, ℤ, pos,
  negsuc, codes, ltb, ◌||◌, blank,
}
use hazle_os.Device.{BlockDevice}
use hazle_os.Libc.{CString, strcmp, is_zero, strcpy, strncpy}
use hazle_os.Libc.Copy.{strncpy_lem}
use hazle_os.Fat32.{Fs}
use hazle_os.Fat32.File.{Files}
use hazle_os.Fat32.File.Calls.{open_file, read, close}
use hazle_os.Kernel.Sysconf.{
  Sysconf, sysconf_path, set_defaults, set_option, key_value, parse_line, until_zero, feed,
  feed_buffer, feed_end, load_loop, load_from, load,
}

-- The last byte of each array of characters is zero, and each field of a byte holds a byte.
pub record IsEnded (c : Sysconf) : Type 0 where
  pub bin_path_ends : c.bin_path 63 ≡ 0
  pub prompt_ends : c.prompt 31 ≡ 0
  pub version_ends : c.version 15 ≡ 0
  pub name_ends : c.name 31 ≡ 0
  pub fg_byte : c.default_fg < 256
  pub bg_byte : c.default_bg < 256

strncpy-behind : (b : Buffer) (s : CString) (n : ℕ) → strncpy b 0 s n n ≡ b n
strncpy-behind b s n = (strncpy_lem b 0 s n).1 n (inr (omega arith))

set_defaults-IsEnded : (c : Sysconf) → IsEnded c → IsEnded (set_defaults c)
unfolding set_defaults strcpy
set_defaults-IsEnded c h = record {
  bin_path_ends = h.bin_path_ends;
  prompt_ends = h.prompt_ends;
  version_ends = h.version_ends;
  name_ends = h.name_ends;
  fg_byte = omega arith;
  bg_byte = omega arith;
}

if-IsEnded : (b : Bool) {x y : Sysconf} → IsEnded x → IsEnded y → IsEnded (if b then x else y)
if-IsEnded true hx hy = hx
if-IsEnded false hx hy = hy

set_option-IsEnded :
    (key value : CString) (c : Sysconf) → IsEnded c → IsEnded (set_option key value c)
unfolding set_option
set_option-IsEnded key value c h =
    if-IsEnded (is_zero (strcmp key (codes "bin")))
      (record {
        bin_path_ends = strncpy-behind c.bin_path value 63 ∙ h.bin_path_ends;
        prompt_ends = h.prompt_ends;
        version_ends = h.version_ends;
        name_ends = h.name_ends;
        fg_byte = h.fg_byte;
        bg_byte = h.bg_byte;
      })
      (if-IsEnded (is_zero (strcmp key (codes "prompt")))
        (record {
          bin_path_ends = h.bin_path_ends;
          prompt_ends = strncpy-behind c.prompt value 31 ∙ h.prompt_ends;
          version_ends = h.version_ends;
          name_ends = h.name_ends;
          fg_byte = h.fg_byte;
          bg_byte = h.bg_byte;
        })
        (if-IsEnded (is_zero (strcmp key (codes "default_fg")))
          (record {
            bin_path_ends = h.bin_path_ends;
            prompt_ends = h.prompt_ends;
            version_ends = h.version_ends;
            name_ends = h.name_ends;
            fg_byte = omega arith;
            bg_byte = h.bg_byte;
          })
          (if-IsEnded (is_zero (strcmp key (codes "default_bg")))
            (record {
              bin_path_ends = h.bin_path_ends;
              prompt_ends = h.prompt_ends;
              version_ends = h.version_ends;
              name_ends = h.name_ends;
              fg_byte = h.fg_byte;
              bg_byte = omega arith;
            })
            (if-IsEnded (is_zero (strcmp key (codes "history_size")))
              (record {
                bin_path_ends = h.bin_path_ends;
                prompt_ends = h.prompt_ends;
                version_ends = h.version_ends;
                name_ends = h.name_ends;
                fg_byte = h.fg_byte;
                bg_byte = h.bg_byte;
              })
              (if-IsEnded (is_zero (strcmp key (codes "version")))
                (record {
                  bin_path_ends = h.bin_path_ends;
                  prompt_ends = h.prompt_ends;
                  version_ends = strncpy-behind c.version value 15 ∙ h.version_ends;
                  name_ends = h.name_ends;
                  fg_byte = h.fg_byte;
                  bg_byte = h.bg_byte;
                })
                (if-IsEnded (is_zero (strcmp key (codes "name")))
                  (record {
                    bin_path_ends = h.bin_path_ends;
                    prompt_ends = h.prompt_ends;
                    version_ends = h.version_ends;
                    name_ends = strncpy-behind c.name value 31 ∙ h.name_ends;
                    fg_byte = h.fg_byte;
                    bg_byte = h.bg_byte;
                  })
                  h))))))

parse_line-IsEnded : (line : CString) (c : Sysconf) → IsEnded c → IsEnded (parse_line line c)
unfolding parse_line
parse_line-IsEnded line c h = elim (Option-cases (key_value line)) [
  | inl nothing_set ↦ rw (nothing_set, parse_line) h
  | inr (kv, e) ↦ rw (e, parse_line) (set_option-IsEnded kv.0 kv.1 c h)
]

feed_end-IsEnded : (s : List ℕ × Sysconf) → IsEnded s.1 → IsEnded (feed_end s)
unfolding feed_end
feed_end-IsEnded (line, conf) h =
    if-IsEnded (ltb 0 (length line)) (parse_line-IsEnded (until_zero line) conf h) h

feed-IsEnded : (c : ℕ) (s : List ℕ × Sysconf) → IsEnded s.1 → IsEnded (feed c s).1
unfolding feed
feed-IsEnded c (line, conf) h = elim (Bool-cases ((c == 10) || (c == 13))) [
  | inl ending ↦
      rw ending (if-IsEnded (ltb 0 (length line)) (parse_line-IsEnded (until_zero line) conf h) h)
  | inr inside ↦
      rw inside
        (elim (Bool-cases (ltb (length line) 127)) [ inl room ↦ rw room h | inr full ↦ rw full h ])
]

feed_buffer-IsEnded :
    (n i : ℕ) (b : Buffer) (s : List ℕ × Sysconf) → IsEnded s.1 → IsEnded (feed_buffer n i b s).1
unfolding feed_buffer
feed_buffer-IsEnded zero i b s h = h
feed_buffer-IsEnded (suc n) i b s h =
    feed_buffer-IsEnded n (i + 1) b (feed (b i) s) (feed-IsEnded (b i) s h)

module _ {B : BlockDevice} (fs : Fs) where
  load_loop-IsEnded :
      (rounds fuel : ℕ) (fd : ℤ) (s : List ℕ × Sysconf) (files : Files B)
      → IsEnded s.1
      → Returned (λ t. IsEnded t.1) (load_loop fs rounds fuel fd s files)
  unfolding load_loop
  load_loop-IsEnded zero fuel fd s files h = tt
  load_loop-IsEnded (suc rounds) fuel fd s files h =
      go (load_loop-IsEnded rounds fuel fd) (read fs fuel fd blank 512 files) refl
    where
      go :
          ((s : List ℕ × Sysconf) (t : Files B)
            → IsEnded s.1
            → Returned (λ r. IsEnded r.1) (load_loop fs rounds fuel fd s t))
          → (r : Option ((ℤ × Buffer) × Files B)) → read fs fuel fd blank 512 files ≡ r
          → Returned (λ r. IsEnded r.1) (load_loop fs (suc rounds) fuel fd s files)
      go ih none e = rw (e, load_loop) tt
      go ih (some ((negsuc n, b), t)) e = rw (e, load_loop) h
      go ih (some ((pos zero, b), t)) e = rw (e, load_loop) h
      go ih (some ((pos (suc n), b), t)) e =
          rw (e, load_loop) (ih (feed_buffer (suc n) 0 b s) t (feed_buffer-IsEnded (suc n) 0 b s h))

  load_from-IsEnded :
      (rounds fuel : ℕ) (fd : ℤ) (conf : Sysconf) (files : Files B)
      → IsEnded conf
      → Returned (λ r. IsEnded r.1) (load_from fs rounds fuel fd conf files)
  unfolding load_from
  load_from-IsEnded rounds fuel fd conf files h =
      go (load_loop fs rounds fuel fd ([], conf) files) refl
    where
      go :
          (r : Option ((List ℕ × Sysconf) × Files B))
          → load_loop fs rounds fuel fd ([], conf) files ≡ r
          → Returned (λ r. IsEnded r.1) (load_from fs rounds fuel fd conf files)
      go none e = rw (e, load_from) tt
      go (some (s, t)) e = elim (Option-cases (close fs fuel fd t)) [
        | inl stuck ↦ rw (e, load_from) (rw stuck tt)
        | inr (u, closed) ↦ rw (e, load_from) (rw closed (feed_end-IsEnded s ended))
      ]
        where
          ended : IsEnded s.1
          ended = rw e at (load_loop-IsEnded rounds fuel fd ([], conf) files h)

  -- Whatever the configuration file holds, each string of the configuration that `sysconf_load`
  -- leaves, if it returns, ends within its array: its last byte is zero, if it was before. A colour
  -- is a byte.
  pub load-IsEnded :
      (rounds fuel : ℕ) (conf : Sysconf) (files : Files B)
      → IsEnded conf
      → Returned (λ r. IsEnded r.1) (load fs rounds fuel conf files)
  unfolding load
  load-IsEnded rounds fuel conf files h = elim (Bool-cases fs.mounted) [
    | inr unmounted ↦ rw (unmounted, load) (set_defaults-IsEnded conf h)
    | inl mounted ↦ go mounted (open_file fs fuel sysconf_path files) refl
  ]
    where
      go :
          fs.mounted ≡ true
          → (r : Option (ℤ × Files B)) → open_file fs fuel sysconf_path files ≡ r
          → Returned (λ r. IsEnded r.1) (load fs rounds fuel conf files)
      go mounted none e = rw (mounted, load) (rw e tt)
      go mounted (some (negsuc n, t)) e = rw (mounted, load) (rw e (set_defaults-IsEnded conf h))
      go mounted (some (pos fd, t)) e =
          rw (mounted, load)
            (rw e (
              load_from-IsEnded rounds fuel (pos fd) (set_defaults conf) t
                (set_defaults-IsEnded conf h)))
