-- ===== src/Config.antt =====
-- The constants of shared/config.py that the modelled code uses.
use post_quantum_iot_auth.Prelude.{ℕ}

abbrev pub falcon_512_public_key_size : ℕ
falcon_512_public_key_size = 897

abbrev pub falcon_512_private_key_size : ℕ
falcon_512_private_key_size = 1281

abbrev pub falcon_512_signature_size_max : ℕ
falcon_512_signature_size_max = 752

abbrev pub ecdsa_public_key_size : ℕ
ecdsa_public_key_size = 64

abbrev pub ecdsa_signature_size : ℕ
ecdsa_signature_size = 64

abbrev pub ml_dsa_44_public_key_size : ℕ
ml_dsa_44_public_key_size = 1312

abbrev pub ml_dsa_44_signature_size : ℕ
ml_dsa_44_signature_size = 2420

abbrev pub ml_dsa_65_public_key_size : ℕ
ml_dsa_65_public_key_size = 1952

abbrev pub ml_dsa_65_signature_size : ℕ
ml_dsa_65_signature_size = 3309
