-- ===== src/GpFrame.antt =====
-- src/ezsp/zbmessage/green-power-frame.cpp: the Green Power frame in the payload of an
-- EZSP_GPEP_INCOMING_MESSAGE_HANDLER.
pub mod Mic
pub mod Ccm
use libezsp.Common.{ℕ, ◌+◌, ◌!=◌, ◌==◌, leb, if◌then◌else◌, length, ◌&&◌, drop, take}
use libezsp.Common.{Bool, false, List, [], Option, none, some}
use libezsp.ByteManip.{quad_u8_to_u32}
use libezsp.GpStruct.{GpAddress, read_gp_address}
use libezsp.Structs.{byte, bytes_at}
use libezsp.Structs.SinkEntry.{address_source_id}

pub record GpFrame : Type 0 where
  pub application_id : ℕ
  pub link_value : ℕ
  pub sequence_number : ℕ
  pub source_id : ℕ
  pub security : ℕ
  pub key_type : ℕ
  pub auto_commissioning : Bool
  pub rx_after_tx : Bool
  pub security_frame_counter : ℕ
  pub command_id : ℕ
  pub mic : ℕ
  pub proxy_table_entry : ℕ
  pub payload : List ℕ

abbrev pub gpd_no_security : ℕ
gpd_no_security = 0

unfoldable pub new_gp_frame : GpFrame
new_gp_frame = record {
  application_id = 0;
  link_value = 0;
  sequence_number = 0;
  source_id = 0;
  security = gpd_no_security;
  key_type = 0;
  auto_commissioning = false;
  rx_after_tx = false;
  security_frame_counter = 0;
  command_id = 0xff;
  mic = 0;
  proxy_table_entry = 0xff;
  payload = [];
}

-- A frame that is addressed by a source ID.
unfoldable pub read_source_id_frame : GpAddress → List ℕ → Option GpFrame
unfolding byte bytes_at
read_source_id_frame g raw =
    if leb 28 (length raw) && leb (28 + byte raw 27) (length raw)
    then some (record {
      application_id = g.application_id;
      link_value = byte raw 1;
      sequence_number = byte raw 2;
      source_id = address_source_id g;
      security = byte raw 13;
      key_type = byte raw 14;
      auto_commissioning = byte raw 15 != 0;
      rx_after_tx = byte raw 16 != 0;
      security_frame_counter =
          quad_u8_to_u32 (byte raw 20) (byte raw 19) (byte raw 18) (byte raw 17);
      command_id = byte raw 21;
      mic = quad_u8_to_u32 (byte raw 25) (byte raw 24) (byte raw 23) (byte raw 22);
      proxy_table_entry = byte raw 26;
      payload = take (byte raw 27) (drop 28 raw);
    })
    else none

-- The raw constructor; another application ID leaves the other fields as they are by default.
unfoldable pub read_gp_frame : List ℕ → Option GpFrame
unfolding new_gp_frame read_source_id_frame
read_gp_frame raw = elim (read_gp_address (drop 3 raw)) [
  | none ↦ none
  | some g ↦
      if g.application_id == 0
      then read_source_id_frame g raw
      else some (record new_gp_frame { application_id = g.application_id })
]
