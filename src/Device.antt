-- ===== src/Device.antt =====
-- The block device as the file system uses it (drivers/block.c): one sector at a time, each call
-- with its success. `sector` is what the medium holds.
use hazle_os.Prelude.{ℕ, ◌≡◌, ◌≢◌, Bool, true, false, Option, none, some, Buffer, update}

pub record BlockDevice : Type 1 where
  pub Dev : Type 0
  pub block_read : ℕ → Dev → Option Buffer × Dev
  pub block_write : ℕ → Buffer → Dev → Bool × Dev
  pub block_flush : Dev → Bool × Dev
  pub sector : Dev → ℕ → Buffer
  pub read_same : (n : ℕ) (d : Dev) → sector (block_read n d).1 ≡ sector d
  pub read_value : (n : ℕ) (d : Dev) (s : Buffer) → (block_read n d).0 ≡ some s → s ≡ sector d n
  pub write_value :
      (n : ℕ) (s : Buffer) (d : Dev)
      → (block_write n s d).0 ≡ true
      → sector (block_write n s d).1 ≡ update (sector d) n s
  pub write_failed :
      (n : ℕ) (s : Buffer) (d : Dev)
      → (block_write n s d).0 ≡ false
      → sector (block_write n s d).1 ≡ sector d
  pub flush_same : (d : Dev) → sector (block_flush d).1 ≡ sector d

-- A device on which no call fails.
pub record IsReliable (B : BlockDevice) : Type 0 where
  pub reads : (n : ℕ) (d : BlockDevice.Dev B) → (BlockDevice.block_read B n d).0 ≢ none
  pub writes :
      (n : ℕ) (s : Buffer) (d : BlockDevice.Dev B) → (BlockDevice.block_write B n s d).0 ≡ true
