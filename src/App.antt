-- ===== src/App.antt =====
-- flxc1000-app/src/main.rs: the application that answers UDS requests. Its state is shared between
-- the hooks, which the UDS server of the crate ace-server calls, and the main loop.
pub mod DtcServices
pub mod Memory
pub mod Vin
pub mod Handler
pub mod Hooks
pub mod Identity
pub mod Reset
pub mod Routine
pub mod Turn
pub mod Restart
pub mod Config
pub mod Network
pub mod Leds
mod Tests
use flxc1000_rpi.Prelude.{ℕ, Option, List, [], ◌∷◌}
use flxc1000_rpi.App.Leds.{PinEffect, Gpio, boot_blink}

pub record Dtc : Type 0 where
  pub code : List ℕ  -- [u8; 3]
  pub status : ℕ  -- u8

-- `leds` is the log of what is done to the pins, and `boot_state` the file /data/boot_state.
pub record SharedState : Type 0 where
  pub pending_reset : ℕ  -- u8
  pub session_type : ℕ  -- u8
  pub routine_status : ℕ  -- u8
  pub vin : List ℕ  -- [u8; 17]
  pub dtcs : List Dtc
  pub flux_capacitor_power : ℕ  -- i32, as the number of its 32 bits
  pub gpio : Option Gpio
  pub leds : List PinEffect
  pub boot_state : Option (List ℕ)

abbrev pub ecu_address : ℕ
ecu_address = 0x1000

-- FLXC1000TEST00001
abbrev pub initial_vin : List ℕ
initial_vin =
    b'F' ∷ b'L' ∷ b'X' ∷ b'C' ∷ b'1' ∷ b'0' ∷ b'0' ∷ b'0' ∷ b'T' ∷ b'E' ∷ b'S' ∷ b'T' ∷ b'0' ∷ b'0'
    ∷ b'0' ∷ b'0' ∷ b'1' ∷ []

abbrev pub variant_id : List ℕ
variant_id = 0x00 ∷ 0x01 ∷ 0x01 ∷ []

abbrev pub reset_none : ℕ
reset_none = 0

abbrev pub reset_hard : ℕ
reset_hard = 1

abbrev pub dtc_code1 : List ℕ
dtc_code1 = 0x01 ∷ 0xE2 ∷ 0x40 ∷ []

abbrev pub dtc_code2 : List ℕ
dtc_code2 = 0x03 ∷ 0x94 ∷ 0x47 ∷ []

abbrev pub initial_dtcs : List Dtc
initial_dtcs =
    record { code = dtc_code1; status = 0x2F } ∷ record { code = dtc_code2; status = 0x24 } ∷ []

-- The state in which `main` begins to serve, on a card with the given boot state.
abbrev pub initial_state : Option Gpio → Option (List ℕ) → SharedState
initial_state gpio boot_state = record {
  pending_reset = reset_none;
  session_type = 0x01;
  routine_status = 0x00;
  vin = initial_vin;
  dtcs = initial_dtcs;
  flux_capacitor_power = 1210;
  gpio = gpio;
  leds = boot_blink gpio [];
  boot_state = boot_state;
}
