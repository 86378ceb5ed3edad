-- ===== src/Firmware/Text.antt =====
-- components/home_io_control/lr1121_firmware_decisions.h: the name of the chip family in a refusal.
use home_io_control_wio_b2b.Base.{ℕ, ◌||◌, ◌==◌, if◌then◌else◌}
use Prim.Native.String.{String}

unfoldable lr1121_chip_family_for_bootloader : ℕ → String
lr1121_chip_family_for_bootloader bootloader_version =
    if bootloader_version == 0x2000 || bootloader_version == 0x2001
    then "an LR1120"
    else if bootloader_version == 0x6500 || bootloader_version == 0x1001
    then "an LR1110"
    else "an unrecognized chip"

unfoldable lr1121_chip_family_for_device_type : ℕ → String
lr1121_chip_family_for_device_type device_type =
    if device_type == 0x01
    then "an LR1110"
    else if device_type == 0x02
    then "an LR1120"
    else "an unrecognized chip"
