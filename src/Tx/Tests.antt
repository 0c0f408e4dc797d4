-- ===== src/Tx/Tests.antt =====
-- The headers that main/owl/tx.c writes.
use esp_owl.Base.{[], refl, ◌∷◌, ◌≡◌}
use esp_owl.Tx.Frames.{awdl_init_action, llc_init_awdl_hdr}

-- A MIF at time 0x01020304.
action_hdr :
    awdl_init_action 0x01020304 3
    ≡ 127 ∷ 0x00 ∷ 0x17 ∷ 0xf2 ∷ 8 ∷ 0x10 ∷ 3 ∷ 0 ∷ 4 ∷ 3 ∷ 2 ∷ 1 ∷ 4 ∷ 3 ∷ 2 ∷ 1 ∷ []
unfolding awdl_init_action
action_hdr = refl

llc_hdr : llc_init_awdl_hdr ≡ 0xaa ∷ 0xaa ∷ 3 ∷ 0x00 ∷ 0x17 ∷ 0xf2 ∷ 8 ∷ 0 ∷ []
unfolding llc_init_awdl_hdr
llc_hdr = refl
