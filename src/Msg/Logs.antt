-- ===== src/Msg/Logs.antt =====
-- msgservice/logs.go: what a line of the log shows of a message.

use postee.Prelude.{ℕ, zero, suc, String, List, [], ◌∷◌}

-- An argument of the line: bytes, or what fmt shows of anything else.
pub data Argument : Type 0 where
  bytes : String → Argument
  shown : String → Argument

abbrev max_len : ℕ
max_len = 20

-- string(b[:n]); a shorter one is kept.
unfoldable take_bytes : ℕ → String → String
take_bytes zero b = ""
take_bytes (suc n) String.[] = ""
take_bytes (suc n) (String.◌∷◌ c b) = String.◌∷◌ c (take_bytes n b)

-- The arguments that are handed to log.Printf.
unfoldable pub prn_input_logs : List Argument → List Argument
unfolding take_bytes
prn_input_logs [] = []
prn_input_logs (bytes b ∷ v) = bytes (take_bytes max_len b) ∷ prn_input_logs v
prn_input_logs (shown text ∷ v) = shown text ∷ prn_input_logs v
