-- ===== src/Firmware/Tests.antt =====
-- Runs of the firmware decisions.
use home_io_control_wio_b2b.Base.{ℕ, ◌≡◌, ◌<◌, refl, true, false}
use home_io_control_wio_b2b.Firmware.{
  proceed, supported, support_loop, lr1121_bootloader_upgrade_path, lr1121_required_bootloader_for,
  required_loop, available, decide_target, lr1121_flash_decision, lr1121_bootloader_is_lr1121,
  lr1121_bootloader_supports_target,
}
use home_io_control_wio_b2b.Firmware.Safety.{flash_unasked}

upgrade_proceeds : lr1121_flash_decision 3 0xdf 0x2100 0x0101 0x0103 false ≡ proceed
unfolding lr1121_flash_decision decide_target lr1121_bootloader_is_lr1121
    lr1121_bootloader_supports_target support_loop
upgrade_proceeds = refl

flash_unasked_example :
    ◌≡◌ {A = ℕ} 3 3
    × ◌≡◌ {A = ℕ} 0xdf 0xdf
    × (lr1121_bootloader_is_lr1121 0x2100 ≡ true)
    × (lr1121_bootloader_supports_target 0x0103 0x2100 ≡ supported)
    × (0 < 0x0101)
    × (0x0101 < 0x0103)
flash_unasked_example = flash_unasked 3 0xdf 0x2100 0x0101 0x0103 upgrade_proceeds

upgrade_offered : lr1121_bootloader_upgrade_path true true 0x2100 0x2100 0x0104 ≡ available
unfolding lr1121_bootloader_upgrade_path lr1121_bootloader_is_lr1121 lr1121_required_bootloader_for
    required_loop
upgrade_offered = refl
