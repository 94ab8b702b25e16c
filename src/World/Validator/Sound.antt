-- ===== src/World/Validator/Sound.antt =====
-- `validate_template` as a whole.
