-- ===== src/Version/Halves.antt =====
-- The version byte of main/owl/version.c: its two halves.
use esp_owl.Base.{Bool, all_below, all_below_lem, arith, ltb, refl, true, ℕ, ◌&&◌, ◌<◌, ◌==◌, ◌≡◌}
use esp_owl.Version.{awdl_version, awdl_version_major, awdl_version_minor}

abbrev are_read_back : ℕ → ℕ → Bool
are_read_back major minor =
    let version = awdl_version major minor in
    (awdl_version_major version == major)
    && ((awdl_version_minor version == minor) && ltb version 256)

all_read_back : all_below 16 (λ (i : ℕ). all_below 16 (are_read_back i)) ≡ true
unfolding awdl_version_major awdl_version_minor awdl_version
all_read_back = refl

three_tests :
    (a b c d version : ℕ)
    → ((a == b) && ((c == d) && ltb version 256)) ≡ true
    → (a ≡ b) × (c ≡ d) × (version < 256)
three_tests a b c d version h = ground (arith, h)

-- Both halves of the byte made of two numbers below 16 are those numbers, and it is a byte.
pub major-minor-version :
    (major minor : ℕ)
    → major < 16
    → minor < 16
    → (awdl_version_major (awdl_version major minor) ≡ major)
      × (awdl_version_minor (awdl_version major minor) ≡ minor)
      × (awdl_version major minor < 256)
major-minor-version major minor h k =
    let row = all_below_lem 16 (λ (i : ℕ). all_below 16 (are_read_back i)) all_read_back major h in
    let both : are_read_back major minor ≡ true =
      all_below_lem 16 (are_read_back major) row minor k in
    three_tests _ _ _ _ _ both
