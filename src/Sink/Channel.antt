-- ===== src/Sink/Channel.antt =====
-- The channel switches of CGpSink (src/ezsp/zigbee-tools/green-power-sink.cpp): one at a time, until
-- the adapter has acknowledged the transmission.
use libezsp.Common.{ℕ, ◌+◌, ◌≡◌, ◌≢◌, arith, u8, IsU8}
use libezsp.Common.{true, List, [], ◌∷◌}
use libezsp.GpFrame.{GpFrame}
use libezsp.Effects.{ran}
use libezsp.EzspEnum.{ember_success}
use libezsp.Sink.{GpSink}
use libezsp.Sink.Incoming.{switch_channel, handle_d_gp_sent, is_channel_switch}
use libezsp.Sink.Incoming.{is_channel_attribute, send_channel}

-- A channel switch that an idle sink sends under the next handle is acknowledged by the success of
-- that handle, after which the sink is as it was before; a success of another handle, and any other
-- status, leave it waiting. The device's source ID is not 0 and the last handle is a byte.
pub switch_channel-handle_d_gp_sent :
    (f : GpFrame) (s : GpSink) (status handle : ℕ) (rest : List ℕ)
    → is_channel_switch f ≡ true
    → is_channel_attribute f.payload ≡ true
    → s.sent_channel_switch_source_id ≡ 0
    → f.source_id ≢ 0
    → IsU8 s.gpd_sent_last_handler_nb
    → let number = u8 (s.gpd_sent_last_handler_nb + 1) in
      let (waiting, es) = switch_channel f s in
      (es ≡ send_channel f.source_id 1000 number s ∷ [])
      × (handle_d_gp_sent (ember_success ∷ number ∷ rest) waiting ≡ ran s [])
      × (handle ≢ number → handle_d_gp_sent (status ∷ handle ∷ rest) waiting ≡ ran waiting [])
      × (status ≢ ember_success
          → handle_d_gp_sent (status ∷ handle ∷ rest) waiting ≡ ran waiting [])
unfolding switch_channel handle_d_gp_sent
switch_channel-handle_d_gp_sent f s status handle rest switches attribute idle known small =
    ground arith

-- While a channel switch waits for its acknowledgement, no other one is sent, whatever frame arrives.
pub switch_channel_waits :
    (f : GpFrame) (s : GpSink) → s.sent_channel_switch_source_id ≢ 0 → switch_channel f s ≡ (s, [])
unfolding switch_channel
switch_channel_waits f s waits = ground arith
