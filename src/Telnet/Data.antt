-- ===== src/Telnet/Data.antt =====
-- Data bytes through the telnet reader.
use kongjaexpress.Prelude.{
  ℕ, ◌≡◌, ◌∙◌, ap, sym, refl, List, [], ◌∷◌, ◌++◌, Bool, true, false, Bool-cases, inl, inr, ==_iff,
  ◌==◌, if◌then◌else◌,
}
use kongjaexpress.Telnet.{
  Codes, TelnetReader, start, rx_iac, telnet_reader_move_state, telnet_reader_state_machine,
  telnet_reader_feed,
}

module _ (k : Codes) where
  -- what a telnet sender makes of data: each IAC doubled
  abbrev pub escape : List ℕ → List ℕ
  escape [] = []
  escape (x ∷ xs) = if x == k.iac then x ∷ x ∷ escape xs else x ∷ escape xs

  module _ {W : Type 0} (databack : TelnetReader → ℕ → W → W) (cmdback : TelnetReader → W → W) where
    -- one call of the data callback for each byte, in order
    abbrev pub data_all : TelnetReader → List ℕ → W → W
    data_all tr [] w = w
    data_all tr (x ∷ xs) w = data_all tr xs (databack tr x w)

    pub feed_nil :
        (tr : TelnetReader) (w : W) → telnet_reader_feed k databack cmdback tr [] w ≡ (tr, w)
    unfolding telnet_reader_feed
    feed_nil tr w = refl

    -- A stream may be fed in parts.
    pub feed-append :
        (xs ys : List ℕ) (tr : TelnetReader) (w : W)
        → telnet_reader_feed k databack cmdback tr (xs ++ ys) w ≡ (
            let (tr', w') = telnet_reader_feed k databack cmdback tr xs w in
            telnet_reader_feed k databack cmdback tr' ys w')
    unfolding telnet_reader_feed
    feed-append [] ys tr w = refl
    feed-append (x ∷ xs) ys tr w =
        let (tr', w') = telnet_reader_state_machine k databack cmdback tr x w in
        feed-append xs ys tr' w'

    -- one byte, and a stream after it
    pub feed_step :
        (d : ℕ) (ys : List ℕ) (tr tr' : TelnetReader) (w w' : W)
        → ◌≡◌ {A = TelnetReader × W}
            (telnet_reader_state_machine k databack cmdback tr d w)
            (tr', w')
        → telnet_reader_feed k databack cmdback tr (d ∷ ys) w
          ≡ telnet_reader_feed k databack cmdback tr' ys w'
    unfolding telnet_reader_feed
    feed_step d ys tr tr' w w' e =
        ap (λ (p : TelnetReader × W). telnet_reader_feed k databack cmdback p.0 ys p.1) e

    plain_byte :
        (d : ℕ) (tr : TelnetReader) (w : W)
        → (d == k.iac) ≡ false
        → let tr₀ = telnet_reader_move_state tr start in
          ◌≡◌ {A = TelnetReader × W}
            (telnet_reader_state_machine k databack cmdback tr₀ d w)
            (tr₀, databack tr₀ d w)
    unfolding telnet_reader_state_machine
    plain_byte d tr w e = rw e refl

    pub first_iac :
        (d : ℕ) (tr : TelnetReader) (w : W)
        → (d == k.iac) ≡ true
        → ◌≡◌ {A = TelnetReader × W}
            (telnet_reader_state_machine k databack cmdback (telnet_reader_move_state tr start) d w)
            (telnet_reader_move_state tr rx_iac, w)
    unfolding telnet_reader_state_machine
    first_iac d tr w e = rw e refl

    second_iac :
        (d : ℕ) (tr : TelnetReader) (w : W)
        → (d == k.iac) ≡ true
        → let tr₀ = telnet_reader_move_state tr start in
          ◌≡◌ {A = TelnetReader × W}
            (telnet_reader_state_machine k databack cmdback
              (telnet_reader_move_state tr rx_iac)
              d
              w)
            (tr₀, databack tr₀ d w)
    unfolding telnet_reader_state_machine
    second_iac d tr w e = rw e (
        ap
          (λ (x : ℕ).
            (telnet_reader_move_state tr start, databack (telnet_reader_move_state tr start) x w))
          (sym ((==_iff d k.iac).0 e)))

    -- A reader at the start of its state machine is fed data in which each IAC is doubled: the data
    -- callback is called once for each byte of the data, in order, and the reader is as before.
    pub feed-escape :
        (xs : List ℕ) (tr : TelnetReader) (w : W)
        → let tr₀ = telnet_reader_move_state tr start in
          telnet_reader_feed k databack cmdback tr₀ (escape xs) w ≡ (tr₀, data_all tr₀ xs w)
    feed-escape [] tr w = feed_nil (telnet_reader_move_state tr start) w
    feed-escape (x ∷ xs) tr w =
        let tr₀ = telnet_reader_move_state tr start in
        let rest = feed-escape xs tr (databack tr₀ x w) in
        elim (Bool-cases (x == k.iac)) [
          | inl e ↦
              ap
                (λ (b : Bool).
                  telnet_reader_feed k databack cmdback tr₀
                    (if b then x ∷ x ∷ escape xs else x ∷ escape xs) w)
                e
              ∙ feed_step x (x ∷ escape xs) tr₀ (telnet_reader_move_state tr rx_iac) w w
                  (first_iac x tr w e)
              ∙ feed_step x (escape xs) (telnet_reader_move_state tr rx_iac) tr₀ w
                  (databack tr₀ x w) (second_iac x tr w e)
              ∙ rest
          | inr e ↦
              ap
                (λ (b : Bool).
                  telnet_reader_feed k databack cmdback tr₀
                    (if b then x ∷ x ∷ escape xs else x ∷ escape xs) w)
                e
              ∙ feed_step x (escape xs) tr₀ tr₀ w (databack tr₀ x w) (plain_byte x tr w e)
              ∙ rest
        ]
