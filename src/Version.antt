-- ===== src/Version.antt =====
-- main/owl/version.c: the version byte and the device classes.
pub mod Halves
mod Tests
use esp_owl.Base.{bit_and, bit_or, ℕ, ◌*◌, ◌/◌}

-- `(uint8_t) ((major << 4) & 0xf0) | (minor & 0x0f)`, for numbers that are not negative
unfoldable pub awdl_version : ℕ → ℕ → ℕ
awdl_version major minor = bit_or (bit_and (major * 16) 0xf0) (bit_and minor 0x0f)

unfoldable pub awdl_version_major : ℕ → ℕ
awdl_version_major version = bit_and (version / 16) 0xf

unfoldable pub awdl_version_minor : ℕ → ℕ
awdl_version_minor version = bit_and version 0xf

-- `enum awdl_devclass`
abbrev pub devclass_macos : ℕ
devclass_macos = 1

abbrev pub devclass_ios : ℕ
devclass_ios = 2

abbrev pub devclass_tvos : ℕ
devclass_tvos = 8
