-- ===== src/Lib.antt =====
-- A model of go-dmr, a Go library for the Digital Mobile Radio standard: the codecs of the air
-- interface and the Homebrew protocol, by which repeaters and a master exchange frames over UDP.
--
-- Base holds what every part uses: Boolean tests, lists with their out-of-range behaviour, words and
-- big-endian numbers, the results of fallible code (`ok`, `err`, `panic`), and exclusive or in terms of
-- arithmetic. A byte, a uint16 or a uint32 is a number; each conversion and each shift that can
-- lose bits has its `% 2 ^ w` written out.
--
-- Dmr is the repository's root package. Dmr/Bits models bits.go, Dmr/Packet packet.go, Dmr/Crc crc.go,
-- Dmr/ControlBlock controlblock.go, Dmr/DataHeader dataheader.go and Dmr/Sync sync.go, with child modules
-- for longer proofs. A mutable receiver becomes a result: `bytes` of a control block also returns the
-- block with the new checksum.
--
-- Dmr/DataBlock models the blocks and fragments of data.go, Dmr/MessageData its texts, Dmr/Voice voice.go.
--
-- Checks is crc/: Checks/QuadRes models quadres_16_7/, Checks/Crc16 crc16/.
--
-- Homebrew is homebrew/. Homebrew/Packet models buildData and parseData, Homebrew/State the types of
-- homebrew.go and peer.go with Link, Unlink, handleAuth and WriteToPeer, Homebrew/Handle the function
-- handle with all it calls. Peers are shared between two indexes and the handler, so they live in
-- a heap and a pointer is a place in it. A handler returns the new state, what was sent and
-- delivered in order, and the error if any; or it panics. The clock, random numbers, SHA-256,
-- case-insensitive comparison, the outcome of a write and of a callback, and the texts of a
-- configuration are fields of `Env`, about which a theorem assumes only what it names.
--
-- Homebrew/Keepalive models keepalive, one peer's turn in a round and the round, and Send. Homebrew/Run models
-- New, Close and ListenAndServe, and the steps that a running package can take.
--
-- Lc is lc/. Lc/ServiceOptions models lc/serviceoptions/, Lc/Pdu the units of voicechanneluser.go, gpsinfo.go
-- and talkeralias.go, Lc/Message the messages of lc.go, Lc/Message/Full its
-- ParseFullLC.
--
-- Fec is fec/. Fec/ReedSolomon models rs_12_9.go, Fec/Hamming hamming_15_13_3.go, Fec/Golay golay_20_8.go and
-- golay_23_12.go.
--
-- Vbptc is vbptc/vbptc.go: the matrix with its cursor, and the repair of its rows.
--
-- Trellis is trellis/trellis.go. Trellis/Encode is the encoder of the standard, which the code does not
-- have: the decoder is measured by it.
--
-- Bptc is bptc/bptc.go: Encode, Decode and the Hamming checks, whose error Decode drops.
--
-- Terminal is terminal/terminal.go. An action takes the state and gives a result and the state that it
-- leaves, also when it fails; the actions of Terminal/Action, Terminal/DataCall and Terminal/VoiceCall are composed
-- as the methods are, and Terminal/Dispatch is handlePacket. The slots are a list, and a pointer to a slot
-- is its place in it. What the terminal hands on, voice frames and the texts of messages, is a list in
-- its state. Terminal/Invariant is a logic for actions: an action keeps the invariant, and a
-- panic is made up for by a type that the theorem chooses.
--
-- Ipsc is ipsc/. Ipsc/Config models what New makes of its options, Ipsc/Network the state, the handling of a
-- datagram and peerMaintenance. HMAC-SHA1 and the hexadecimal encoding are parameters.
--
-- A loop is over a list or over a fixed number of rounds. The one that has fuel is sendToMaster: a write that
-- takes at least one byte leaves less to write, so as many rounds as there are bytes are enough.
--
-- Not modelled: what is only printed or logged, locks, sockets, and what a callback does to the state. Of
-- the terminal's slots, the times: only the software delay reads one of them, `last.packetReceived`, and it
-- does no more than sleep.
-- The text encodings are those of a library.
pub mod Base
pub mod Bptc
pub mod Checks
pub mod Dmr
pub mod Fec
pub mod Homebrew
pub mod Ipsc
pub mod Lc
pub mod Terminal
pub mod Trellis
pub mod Vbptc
