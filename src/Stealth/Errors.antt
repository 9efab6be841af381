-- ===== src/Stealth/Errors.antt =====
-- The errors of src/stealth.rs and src/stealth_sign.rs.
use svm_wasi_core.Base.{String}

pub data StealthError : Type 0 where
  invalid_point : String → StealthError
  degenerate_shared_secret : StealthError
  invalid_scalar_hex : String → StealthError

pub data StealthSignError : Type 0 where
  invalid_point : StealthSignError
