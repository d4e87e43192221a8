-- ===== src/Lib.antt =====
-- libezsp drives an EZSP adapter, a Zigbee radio on a serial port, from the host.
--
-- The parts and how they interact. The bytes of the serial port go to AshDriver
-- (src/ezsp/ash-driver.cpp), whose AshCodec (src/ezsp/ashv2-codec.cpp) takes frames apart and calls
-- CEzspDongle (src/ezsp/ezsp-dongle.cpp) back while it does. CEzspDongle keeps the queue of EZSP
-- commands, of which one at a time is under way, sends them through AshDriver and reads the
-- received EZSP messages. When the adapter does not answer, it turns to BootloaderPromptDriver
-- (src/ezsp/bootloader-prompt-driver.cpp). EzspAdapterVersion (src/ezsp/ezsp-adapter-version.cpp)
-- decides the format of the messages. include/ezsp/byte-manip.h has the functions on bytes. Above
-- CEzspDongle, CLibEzspMain (src/ezsp/lib-ezsp-main.cpp) is the state machine that the application
-- talks to. It observes the dongle, together with three parts that it owns, in
-- src/ezsp/zigbee-tools: CZigbeeMessaging, CZigbeeNetworking, which forms and joins networks, and
-- CGpSink, which keeps the adapter's tables of Green Power devices and tells the library of their
-- frames. Each received message goes to the four of them, and each of them sends commands.
--
-- The files. ByteManip: byte-manip.h. Ash/Stuffing, Ash/Randomize, Ash/Crc: the static functions of
-- AshCodec. Ash/Codec: its state and forgeResetNCPFrame, forgeAckFrame, forgeDataFrame.
-- Ash/Codec/Decode: processInterFlagStream and appendIncoming. Driver: AshDriver and its sending
-- functions; Driver/Feed: handleInputData with the codec's callbacks in the middle of the loop.
-- AdapterVersion: the setters and cmp with its operators; AdapterVersion/Printing: how it is
-- printed. BootloaderPrompt: the operations of BootloaderPromptDriver that CEzspDongle calls;
-- BootloaderPrompt/Console: its parser. Dongle: CEzspDongle's queue, modes and sending;
-- Dongle/Receive: ashCbInfo, reset, handleInputData and the callbacks that setMode registers;
-- Dongle/Console: the dongle over the console. Aps and Zcl: the headers of src/ezsp/zbmessage
-- (apsoption.cpp, aps.cpp, zclframecontrol.cpp, zclheader.cpp). DeviceDb:
-- src/ezsp/zigbee-tools/green-power-device-db.cpp. GpStruct: the options of a sink table entry and
-- the device address, in src/ezsp/ezsp-protocol/struct. EzspEnum: the commands and statuses of
-- include/ezsp/ezsp-protocol/ezsp-enum.h that the code uses; EzspEnum/Commands and EzspEnum/Names:
-- the names of src/ezsp/ezsp-protocol/ezsp-enum.cpp. Effects: what an operation asks of the dongle
-- and tells the application, and the public states. Structs and the files under it: the other
-- structures of src/ezsp/ezsp-protocol, as far as the handlers read or send them. GpFrame,
-- Commissioning, ZigbeeMsg: green-power-frame.cpp, gpd-commissioning-command-payload.cpp and
-- zigbee-message.cpp of src/ezsp/zbmessage, with zigbee-messaging.cpp. Networking:
-- zigbee-networking.cpp. Sink: the state and requests of green-power-sink.cpp; Sink/Answers and
-- Sink/Incoming: its handlers; Sink/Builtin: what the build option USE_BUILTIN_MIC_PROCESSING
-- changes. LibMain: the state of lib-ezsp-main.cpp; LibMain/Config: stackInit; LibMain/Requests:
-- what the application calls; LibMain/Init and LibMain/Handlers: the handlers of the adapter's
-- states and messages. Api: the calls of src/ezsp/ezsp.cpp. Host: the library over the dongle;
-- Host/Link: with the link and the console below it; Host/Events: its histories. GpFrame/Mic:
-- validateMIC of green-power-frame.cpp. Gbl: src/spi/gbl-info-extractor/get_gbl_version.c. The
-- other files under these hold proofs. Common has the shared names, Runs the runs on concrete
-- inputs.
--
-- How the code is represented. State is a record that each operation takes and returns. Bytes and
-- words are natural numbers with every cast written out. A C++ exception of at() is `out_of_range`
-- or `raised`, with the state that it leaves. A loop that never ends is `none`, `endless` or
-- `hung`. Callbacks of the codec are events in the order of the calls; what observers are told is a
-- list in the state. Fuel occurs three times: dataRandomize's loop has 256 rounds, which is enough
-- for every buffer of up to 255 bytes, and a longer buffer makes the loop endless with any fuel;
-- the loop over the tags of a GBL image has a round for every byte and one more, and each round
-- takes at least eight bytes; a number is printed with a round more than its value, and each takes
-- a digit.
--
-- In the parts above CEzspDongle an operation returns its new state and the list of its effects, in
-- the order of the calls; `thrown` is an exception, with the state and the effects before it. Host
-- hands these effects to the dongle. The vectors of the sink, which are used from the back, have
-- their last element first; a std::map is a list sorted by its keys. The four observers are called
-- in the order in which the library declares its parts, which is that of their addresses.
--
-- Parameters. The write function of the serial port is a function of all that was written before
-- and of the new bytes. Nothing is assumed of its answers. AES is a function of a key and a block;
-- where its CBC mode is used it is another function, which is assumed to do with one block what CBC
-- means. What the random engine draws while a message is handled, a network key and a PAN
-- identifier, is an argument of the handlers.
--
-- Not modelled: mutexes and threads, the registration of observers with the dongle (the library is
-- taken to be registered), copying and swapping of objects, log messages and the printing of the
-- structures, the names of the ZDP enumeration, and the options of the command get_gbl_version. An
-- observer that sends from within its notification is a call that follows in the model. The last
-- round of getLastXiAESCBC reads a block from behind the end of its bytes and does not use it; the
-- model has zeros there. The copies of other projects (src/spi/custom-aes and
-- src/spi/georges-menie-thuffir-xmodem) and the platform code under src/spi are left aside.
pub mod Common
pub mod ByteManip
pub mod AdapterVersion
pub mod Ash
pub mod Driver
pub mod BootloaderPrompt
pub mod Dongle
pub mod Aps
pub mod Zcl
pub mod GpStruct
pub mod DeviceDb
pub mod Runs
pub mod EzspEnum
pub mod Effects
pub mod Structs
pub mod GpFrame
pub mod Commissioning
pub mod Gbl
pub mod ZigbeeMsg
pub mod Networking
pub mod Sink
pub mod LibMain
pub mod Host
pub mod Api
