-- ===== src/Firmware/Safety.antt =====
-- components/home_io_control/lr1121_firmware_decisions.h: when a write goes ahead unasked, and what
-- the upgrade of the bootloader is for.
use home_io_control_wio_b2b.Base.{ℕ, ◌≡◌, ◌<◌, Bool, true, false, arith}
use home_io_control_wio_b2b.Firmware.{
  BootloaderSupport, supported, unsupported, unknown_target, proceed, lr1121_flash_decision,
  decide_target, lr1121_bootloader_supports_target, lr1121_bootloader_upgrade_path,
  lr1121_bootloader_mismatch_kind, available, target_needs_newer, lr1121_bootloader_is_lr1121,
}

decide_unasked :
    (support : BootloaderSupport) (installed_fw target_fw : ℕ)
    → decide_target support installed_fw target_fw false ≡ proceed
    → (support ≡ supported) × (0 < installed_fw) × (installed_fw < target_fw)
unfolding decide_target
decide_unasked supported installed_fw target_fw h = ground arith
decide_unasked unsupported installed_fw target_fw h = ground arith
decide_unasked unknown_target installed_fw target_fw h = ground arith

-- A write goes ahead without a confirmation only on a chip that names itself an LR1121, with an
-- LR1121 bootloader that is known to support the target, and only to a firmware that is newer than the
-- installed one, whose version is known.
pub flash_unasked :
    (device_type chip_type bootloader_version installed_fw target_fw : ℕ)
    → lr1121_flash_decision device_type chip_type bootloader_version installed_fw target_fw false
      ≡ proceed
    → (device_type ≡ 3)
      × (chip_type ≡ 0xdf)
      × (lr1121_bootloader_is_lr1121 bootloader_version ≡ true)
      × (lr1121_bootloader_supports_target target_fw bootloader_version ≡ supported)
      × (0 < installed_fw)
      × (installed_fw < target_fw)
unfolding lr1121_flash_decision
flash_unasked device_type chip_type bootloader_version installed_fw target_fw h = ground (
  arith,
  decide_unasked (lr1121_bootloader_supports_target target_fw bootloader_version) installed_fw
      target_fw,
)

-- If the bootloader can be upgraded for a target, then the target needs a newer bootloader than the
-- one that runs, which is an LR1121 bootloader of a known version, the one that the loader names.
pub upgrade_available :
    (present known : Bool) (bootloader_version loader_fw target_fw : ℕ)
    → lr1121_bootloader_upgrade_path present known bootloader_version loader_fw target_fw
      ≡ available
    → (lr1121_bootloader_mismatch_kind target_fw bootloader_version ≡ target_needs_newer)
      × (known ≡ true)
      × (lr1121_bootloader_is_lr1121 bootloader_version ≡ true)
      × (loader_fw ≡ bootloader_version)
unfolding lr1121_bootloader_upgrade_path lr1121_bootloader_mismatch_kind
upgrade_available present known bootloader_version loader_fw target_fw h = ground arith
