-- ===== src/Drivers/Block.antt =====
-- drivers/block.c: the disk behind a flag that says whether there is one.
use hazle_os.Prelude.{ℕ, Bool, false, if◌then◌else◌, Buffer}
use hazle_os.Ports.{Ports}
use hazle_os.Drivers.Ata.{Drive, read_sectors, write_sectors, flush}
use hazle_os.Drivers.Ata.Identify

-- `initialized`, and `primary_drive` of ata.c.
pub record Block : Type 0 where
  pub initialized : Bool
  pub primary_drive : Drive

module _ (P : Ports) where
  pub init : Ports.State P → (Bool × Block) × Ports.State P
  init m =
      let (drive, m') = Identify.init P m in
      ((drive.present, record { initialized = drive.present; primary_drive = drive }), m')

  pub block_read :
      (lba count : ℕ) → Buffer → Block → Ports.State P → (Bool × Buffer) × Ports.State P
  block_read lba count buffer b m =
      if b.initialized
      then read_sectors P b.primary_drive lba count buffer m
      else ((false, buffer), m)

  pub block_write : (lba count : ℕ) → Buffer → Block → Ports.State P → Bool × Ports.State P
  block_write lba count buffer b m =
      if b.initialized then write_sectors P b.primary_drive lba count buffer m else (false, m)

  pub block_flush : Block → Ports.State P → Bool × Ports.State P
  block_flush b m = if b.initialized then flush P b.primary_drive m else (false, m)

pub get_sector_count : Block → ℕ
get_sector_count b = if b.initialized then b.primary_drive.sector_count else 0

pub is_available : Block → Bool
is_available b = b.initialized
