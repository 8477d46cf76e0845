-- ===== src/Telnet/Examples.antt =====
-- The reader with the codes of RFC 854; the world is what the two callbacks were called with.
use kongjaexpress.Prelude.{ℕ, ◌≡◌, refl, List, [], ◌∷◌, ◌++◌, take, replicate, arith, write_at}
use kongjaexpress.Telnet.{
  Codes, TelnetReader, start, wait_for_se, telnet_reader_feed, telnet_reader_state_machine,
  telnet_reader_handle_command,
}
use kongjaexpress.Telnet.Command.{IsBounded, storing, feed-subnegotiation, feed-IsBounded}

abbrev rfc854 : Codes
rfc854 = record {
  iac = 255;
  do_code = 253;
  dont_code = 254;
  will_code = 251;
  wont_code = 252;
  sb_code = 250;
  se_code = 240;
}

abbrev Log : Type 0
Log = List (List ℕ)

abbrev log_data : TelnetReader → ℕ → Log → Log
log_data tr d log = (d ∷ []) ∷ log

abbrev log_command : TelnetReader → Log → Log
log_command tr log = (tr.command ∷ tr.opt ∷ take tr.buf_ndx tr.buffer) ∷ log

abbrev reader : TelnetReader
reader = record { buffer = replicate 32 0; buf_ndx = 0; state = start; command = 0; opt = 0 }

-- `a`, IAC WILL 1, `b`
negotiation_logged :
    (telnet_reader_feed rfc854 log_data log_command reader (97 ∷ 255 ∷ 251 ∷ 1 ∷ 98 ∷ []) []).1
    ≡ (98 ∷ []) ∷ (251 ∷ 1 ∷ []) ∷ (97 ∷ []) ∷ []
unfolding telnet_reader_feed telnet_reader_state_machine telnet_reader_handle_command
negotiation_logged = refl

feed-subnegotiation_example :
    telnet_reader_feed rfc854 log_data log_command reader
      (255 ∷ 250 ∷ ((24 ∷ 1 ∷ []) ++ 255 ∷ 240 ∷ []))
      []
    ≡ (
      storing rfc854 log_data log_command reader start (write_at reader.buffer 0 (24 ∷ 1 ∷ [])) 2,
      log_command
          (storing rfc854 log_data log_command reader wait_for_se
            (write_at reader.buffer 0 (24 ∷ 1 ∷ []))
            2)
          [],
    )
feed-subnegotiation_example =
    feed-subnegotiation rfc854 log_data log_command (24 ∷ 1 ∷ []) reader []
      (omega arith, omega arith, omega arith, omega arith, omega arith)
      (omega arith, (omega arith, tt)) (omega arith)

feed-IsBounded_example :
    IsBounded
      (telnet_reader_feed rfc854 log_data log_command reader (255 ∷ 250 ∷ replicate 40 7) []).0
feed-IsBounded_example =
    feed-IsBounded rfc854 log_data log_command (255 ∷ 250 ∷ replicate 40 7) reader []
      (refl, omega arith)
