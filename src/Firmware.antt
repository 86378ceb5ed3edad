-- ===== src/Firmware.antt =====
-- components/home_io_control/lr1121_firmware_decisions.h: whether a radio firmware may be written.
pub mod Safety
mod Text
mod Tests
use home_io_control_wio_b2b.Base.{
  ℕ, Bool, true, false, not, ◌||◌, ◌==◌, ltb, if◌then◌else◌, List, [], ◌∷◌,
}

abbrev pub lr1121_device_type : ℕ
lr1121_device_type = 0x03

abbrev pub lr1121_bootloader_type : ℕ
lr1121_bootloader_type = 0xdf

abbrev pub lr1121_bootloader_2100 : ℕ
lr1121_bootloader_2100 = 0x2100

abbrev pub lr1121_bootloader_2101 : ℕ
lr1121_bootloader_2101 = 0x2101

unfoldable pub lr1121_bootloader_is_lr1121 : ℕ → Bool
lr1121_bootloader_is_lr1121 bootloader_version =
    bootloader_version == lr1121_bootloader_2100 || bootloader_version == lr1121_bootloader_2101

-- `Lr1121BootloaderRequirement`.
pub record Requirement : Type 0 where
  pub target_fw : ℕ
  pub bootloader : ℕ

-- `LR1121_KNOWN_BOOTLOADER_REQUIREMENTS`.
abbrev pub known_requirements : List Requirement
known_requirements =
    record { target_fw = 0x0101; bootloader = lr1121_bootloader_2100 }
    ∷ record { target_fw = 0x0102; bootloader = lr1121_bootloader_2100 }
    ∷ record { target_fw = 0x0103; bootloader = lr1121_bootloader_2100 }
    ∷ record { target_fw = 0x0104; bootloader = lr1121_bootloader_2101 }
    ∷ []

pub data BootloaderSupport : Type 0 where
  supported unsupported unknown_target : BootloaderSupport

unfoldable pub support_loop : List Requirement → ℕ → ℕ → BootloaderSupport
support_loop [] target_fw bootloader_version = unknown_target
support_loop (requirement ∷ rest) target_fw bootloader_version =
    let later = support_loop rest target_fw bootloader_version in
    if requirement.target_fw == target_fw
    then if requirement.bootloader == bootloader_version then supported else unsupported
    else later

unfoldable pub lr1121_bootloader_supports_target : ℕ → ℕ → BootloaderSupport
unfolding support_loop
lr1121_bootloader_supports_target target_fw bootloader_version =
    support_loop known_requirements target_fw bootloader_version

unfoldable pub required_loop : List Requirement → ℕ → ℕ
required_loop [] target_fw = 0
required_loop (requirement ∷ rest) target_fw =
    let later = required_loop rest target_fw in
    if requirement.target_fw == target_fw then requirement.bootloader else later

unfoldable pub lr1121_required_bootloader_for : ℕ → ℕ
unfolding required_loop
lr1121_required_bootloader_for target_fw = required_loop known_requirements target_fw

pub data BootloaderMismatch : Type 0 where
  no_mismatch target_needs_newer target_needs_older : BootloaderMismatch

unfoldable pub lr1121_bootloader_mismatch_kind : ℕ → ℕ → BootloaderMismatch
lr1121_bootloader_mismatch_kind target_fw bootloader_version =
    let required = lr1121_required_bootloader_for target_fw in
    if required == 0 || required == bootloader_version
    then no_mismatch
    else if ltb bootloader_version required
    then target_needs_newer
    else target_needs_older

pub data BootloaderUpgradePath : Type 0 where
  not_applicable available blocked_unknown_target blocked_bootloader_newer : BootloaderUpgradePath

unfoldable pub lr1121_bootloader_upgrade_path : Bool → Bool → ℕ → ℕ → ℕ → BootloaderUpgradePath
lr1121_bootloader_upgrade_path block_present bootloader_version_known bootloader_version loader_fw
      target_fw =
    let required = lr1121_required_bootloader_for target_fw in
    if not block_present
    then not_applicable
    else if not bootloader_version_known
    then not_applicable
    else if not (lr1121_bootloader_is_lr1121 bootloader_version)
    then not_applicable
    else if not (loader_fw == bootloader_version)
    then not_applicable
    else if required == 0
    then blocked_unknown_target
    else if required == bootloader_version
    then not_applicable
    else if ltb bootloader_version required
    then available
    else blocked_bootloader_newer

pub data FlashDecision : Type 0 where
  proceed already_installed needs_confirmation reject_wrong_chip : FlashDecision
  reject_bootloader_too_old : FlashDecision

abbrev pub confirmed_or : Bool → FlashDecision → FlashDecision
confirmed_or already_confirmed decision = if already_confirmed then proceed else decision

-- The part behind the checks of the chip.
unfoldable pub decide_target : BootloaderSupport → ℕ → ℕ → Bool → FlashDecision
decide_target unsupported installed_fw target_fw already_confirmed = reject_bootloader_too_old
decide_target unknown_target installed_fw target_fw already_confirmed =
    confirmed_or already_confirmed needs_confirmation
decide_target supported installed_fw target_fw already_confirmed =
    if installed_fw == 0
    then confirmed_or already_confirmed needs_confirmation
    else if target_fw == installed_fw
    then confirmed_or already_confirmed already_installed
    else if ltb installed_fw target_fw
    then proceed
    else confirmed_or already_confirmed needs_confirmation

unfoldable pub lr1121_flash_decision : ℕ → ℕ → ℕ → ℕ → ℕ → Bool → FlashDecision
unfolding decide_target
lr1121_flash_decision device_type bootloader_chip_type bootloader_version installed_fw target_fw
      already_confirmed =
    if bootloader_version == 0
    then confirmed_or already_confirmed needs_confirmation
    else if not (bootloader_chip_type == lr1121_bootloader_type)
        || not (lr1121_bootloader_is_lr1121 bootloader_version)
    then reject_wrong_chip
    else if device_type == 0
    then confirmed_or already_confirmed needs_confirmation
    else if not (device_type == lr1121_device_type)
    then reject_wrong_chip
    else decide_target (lr1121_bootloader_supports_target target_fw bootloader_version) installed_fw
        target_fw already_confirmed
