-- ===== src/Uds/Nrc.antt =====
-- flxc1000-uds/src/nrc.rs: the negative response codes.
use flxc1000_rpi.Prelude.{ℕ, List, [], ◌∷◌}

pub data Nrc : Type 0 where
  service_not_supported : Nrc
  sub_function_not_supported : Nrc
  incorrect_message_length_or_invalid_format : Nrc
  conditions_not_correct : Nrc
  request_sequence_error : Nrc
  request_out_of_range : Nrc
  security_access_denied : Nrc
  invalid_key : Nrc
  exceeded_number_of_attempts : Nrc

-- The enum's discriminants.
unfoldable pub code : Nrc → ℕ
code service_not_supported = 0x11
code sub_function_not_supported = 0x12
code incorrect_message_length_or_invalid_format = 0x13
code conditions_not_correct = 0x22
code request_sequence_error = 0x24
code request_out_of_range = 0x31
code security_access_denied = 0x33
code invalid_key = 0x35
code exceeded_number_of_attempts = 0x36

unfoldable pub response : Nrc → ℕ → List ℕ
unfolding code
response nrc request_sid = 0x7F ∷ request_sid ∷ code nrc ∷ []

-- `Result<A, Nrc>`
pub data Result (A : Type 0) : Type 0 where
  ok : A → Result A
  err : Nrc → Result A
