-- ===== src/Version/Tests.antt =====
-- The version byte of the node, 3.4.
use esp_owl.Base.{refl, ◌≡◌}
use esp_owl.Version.{awdl_version, awdl_version_major, awdl_version_minor}

node_version :
    (awdl_version 3 4 ≡ 0x34) × (awdl_version_major 0x34 ≡ 3) × (awdl_version_minor 0x34 ≡ 4)
unfolding awdl_version awdl_version_major awdl_version_minor
node_version = (refl, refl, refl)
