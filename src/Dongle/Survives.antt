-- ===== src/Dongle/Survives.antt =====
-- CEzspDongle on whatever the serial port delivers (src/ezsp/ezsp-dongle.cpp with
-- src/ezsp/ash-driver.cpp and src/ezsp/ashv2-codec.cpp below it).
use libezsp.Common.{ℕ, refl, List, All, IsU8, Option, none, some}
use libezsp.Driver.Feed.{Fed}
use libezsp.Driver.Safe.{FedBy, KeptBy, Holder, handle_input_data-FedBy, handled-FedBy}
use libezsp.Dongle.{EzspDongle}
use libezsp.Dongle.Receive.{handle_payloads, receive_serial, get_ash, put_ash}
use libezsp.Dongle.Receive as Receive
use libezsp.Dongle.Well.{IsWell, IsKept, put_ash-IsWell}
use libezsp.Dongle.Calls.{same_core-IsWell, ash_cb_info-IsWell, handle_payloads-IsWell}

-- The pass comes to an end, and whether it returns or raises an exception, the invariant holds.
abbrev pub IsSafe : Fed EzspDongle → Type 0
IsSafe r = FedBy IsWell r

kept : (o : Option EzspDongle) → IsKept o → KeptBy IsWell o
kept none k = k
kept (some d) k = k

holder : Holder IsWell get_ash put_ash Receive.ash_cb_info
holder = record {
  valid = λ d w. w.codec_valid;
  codec_kept = λ c d v w. put_ash-IsWell (record (d.ash) { ash_codec = c }) d v w;
  timer_kept = λ d w. same_core-IsWell d _ refl refl refl refl w;
  info_kept = λ i d w. kept (Receive.ash_cb_info i d) (ash_cb_info-IsWell i d w);
}

-- Whatever bytes arrive, the driver of the adapter handles them to the end: its codec, the frames
-- that it sends again from within the codec's callbacks, the acknowledgements and the commands that
-- responses free. The invariant holds afterwards, also where an exception leaves the codec.
pub receive_serial-IsSafe :
    (bs : List ℕ) (d : EzspDongle) → All IsU8 bs → IsWell d → IsSafe (receive_serial bs d)
unfolding receive_serial
receive_serial-IsSafe bs d hb w =
    handled-FedBy IsWell handle_payloads _
      (λ ps d' w'. kept (handle_payloads ps d') (handle_payloads-IsWell ps d' w'))
      (handle_input_data-FedBy IsWell get_ash put_ash Receive.ash_cb_info holder bs d hb w)
