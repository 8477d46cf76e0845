-- ===== src/Telnet/World.antt =====
-- What the telnet reader's callbacks keep of their world, the reader keeps.
use kongjaexpress.Prelude.{ℕ, List, [], ◌∷◌, ◌==◌, if◌then◌else◌, true, false}
use kongjaexpress.Telnet.{
  Codes, TelnetReader, ReaderState, start, rx_iac, rx_do_dont_will_wont, rx_sb, wait_for_se,
  in_state, in_start, in_rx_iac, in_option, in_rx_sb, in_wait_for_se, telnet_reader_move_state,
  telnet_reader_handle_command, telnet_reader_state_machine, telnet_reader_feed,
}

module _ (k : Codes) {W : Type 0} (databack : TelnetReader → ℕ → W → W)
    (cmdback : TelnetReader → W → W) (Q : W → Type 0)
    (keeps_data : (tr : TelnetReader) (d : ℕ) (w : W) → Q w → Q (databack tr d w))
    (keeps_command : (tr : TelnetReader) (w : W) → Q w → Q (cmdback tr w)) where
  byte-keeps :
      (st : ReaderState) (tr : TelnetReader) (d : ℕ) (w : W)
      → Q w
      → Q (in_state k databack cmdback st tr d w).1
  unfolding in_state in_start in_rx_iac in_option in_rx_sb in_wait_for_se
  byte-keeps start tr d w q =
      elim (d == k.iac)
        as (λ b.
          Q
            (if◌then◌else◌ {A = TelnetReader × W} b (telnet_reader_move_state tr rx_iac, w)
              (tr, databack tr d w)).1) [ true ↦ q | false ↦ keeps_data tr d w q ]
  byte-keeps rx_iac tr d w q =
      let tr₁ = telnet_reader_move_state tr start in
      let (known, tr₂) = telnet_reader_handle_command k tr d in
      elim (d == k.iac)
        as (λ b.
          Q
            (if◌then◌else◌ {A = TelnetReader × W} b (tr₁, databack tr₁ k.iac w)
              (if known then tr₂ else telnet_reader_move_state tr₂ start, w)).1) [
                | true ↦ keeps_data tr₁ k.iac w q
                | false ↦ q
              ]
  byte-keeps rx_do_dont_will_wont tr d w q = keeps_command _ w q
  byte-keeps rx_sb tr d w q = q
  byte-keeps wait_for_se tr d w q =
      elim (d == k.se_code) as (λ b. Q (if b then cmdback tr w else w)) [
        | true ↦ keeps_command tr w q
        | false ↦ q
      ]

  pub feed-keeps :
      (ds : List ℕ) (tr : TelnetReader) (w : W)
      → Q w
      → Q (telnet_reader_feed k databack cmdback tr ds w).1
  unfolding telnet_reader_feed telnet_reader_state_machine
  feed-keeps [] tr w q = q
  feed-keeps (d ∷ ds) tr w q =
      let (tr', w') = in_state k databack cmdback tr.state tr d w in
      feed-keeps ds tr' w' (byte-keeps tr.state tr d w q)
