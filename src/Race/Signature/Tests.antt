-- ===== src/Race/Signature/Tests.antt =====
-- What is recorded of concrete messages.
use race_slothy.Common.{◌≡◌, refl, [], ◌∷◌, codes}
use race_slothy.Race.Signature.{before_blank, test_id_from_clr_msg, hex_byte, hex_bytes}

run_found : test_id_from_clr_msg (codes "run 0007 x") ≡ codes "run"
unfolding test_id_from_clr_msg before_blank
run_found = refl

none_found : test_id_from_clr_msg (codes "run0007") ≡ []
unfolding test_id_from_clr_msg before_blank
none_found = refl

two_bytes : hex_bytes (10 ∷ 255 ∷ []) ≡ codes "0aff"
unfolding hex_bytes hex_byte
two_bytes = refl
