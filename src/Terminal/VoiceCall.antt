-- ===== src/Terminal/VoiceCall.antt =====
-- terminal/terminal.go: voice frames and the signalling embedded in them.
use go_dmr.Base.{
  ℕ, ◌==◌, ◌||◌, not, if◌then◌else◌, Option, none, some, List, zeros, set, get_or, bit_xor,
}
use go_dmr.Dmr.Bits.{bits_to_bytes}
use go_dmr.Dmr.Packet.{Packet, sync_bits, voice_bits}
use go_dmr.Dmr.Sync.{sync_pattern}
use go_dmr.Dmr.Voice.{
  parse_emb, parse_emb_bits_from_sync, parse_embedded_signalling_lc_from_sync_bits,
  deinterleave_embedded_signalling_lc, check_lc,
}
use go_dmr.Vbptc
use go_dmr.Vbptc.{Vbptc, clear, add_burst, check_and_repair, get_data}
use go_dmr.Lc.Message.{Lc, parse_lc}
use go_dmr.Lc.Message.Full.{parse_full_lc}
use go_dmr.Bptc
use go_dmr.Terminal.{voice_call_active, voice_frame}
use go_dmr.Terminal.Action.{
  checksum_failed, of_bptc, of_vbptc, of_lc, of_full_lc, of_voice, Action, ◌>>=◌, ◌>>◌, done, when,
  fail, current, call, slot_of, put_slot, emit, need, read_info_bits, voice_call_start,
}

abbrev pub single_fragment : ℕ
single_fragment = 0

abbrev pub first_fragment : ℕ
first_fragment = 1

abbrev pub last_fragment : ℕ
last_fragment = 2

abbrev pub continuation : ℕ
continuation = 3

-- `SyncPatternUnknown`
abbrev pub unknown_pattern : ℕ
unknown_pattern = 9

unfoldable pub put_signalling : Packet → Vbptc → Action (Unit {0})
put_signalling p v = do slot ← slot_of p; put_slot p (record slot { embedded_signalling = v })

-- A fragment of embedded signalling.
unfoldable pub add_fragment : Packet → List ℕ → Action (Unit {0})
add_fragment p sync = do
  frag ← call of_voice (parse_embedded_signalling_lc_from_sync_bits sync)
  slot ← slot_of p
  added ← call of_vbptc (add_burst frag slot.embedded_signalling)
  put_signalling p added

unfoldable pub report : Option Vbptc.Error → Action (Unit {0})
report none = done tt
report (some e) = fail (of_vbptc e)

-- `CheckAndRepair` of the slot, which leaves what it repaired also when it fails.
unfoldable pub repair : Packet → Action (Unit {0})
repair p = do
  slot ← slot_of p
  put_signalling p (check_and_repair slot.embedded_signalling).0
  report (check_and_repair slot.embedded_signalling).1

-- What is done behind the last fragment: the link control message is read, and only logged.
unfoldable pub read_signalling : Packet → Action Lc
read_signalling p = do
  repair p
  slot ← slot_of p
  signalling ← call of_vbptc (get_data slot.embedded_signalling (zeros 77))
  eslc ← call of_voice (deinterleave_embedded_signalling_lc signalling)
  (if check_lc eslc then done tt else fail checksum_failed)
  call of_lc (parse_lc (bits_to_bytes eslc.bits))

-- The fragment of a frame whose `LCSS` is not that of a single one.
unfoldable pub handle_fragment : Packet → List ℕ → ℕ → Action (Unit {0})
handle_fragment p sync lcss = do
  slot ← slot_of p
  when (lcss == first_fragment) (put_signalling p (clear slot.embedded_signalling))
  when (lcss == first_fragment || lcss == continuation || lcss == last_fragment)
      (add_fragment p sync)
  when (lcss == last_fragment) (read_signalling p >>= λ lc. done tt)

-- The frame is handed on.
unfoldable pub hand_on : Packet → Action (Unit {0})
hand_on p = do t ← current; when t.has_voice_func (do need 156 p; emit (voice_frame (voice_bits p)))

-- A frame with an EMB field in place of a sync pattern. A single fragment ends the handler before the frame
-- is handed on.
unfoldable pub handle_emb : Packet → List ℕ → Action (Unit {0})
handle_emb p sync = do
  bits ← call of_voice (parse_emb_bits_from_sync sync)
  emb ← call of_voice (parse_emb bits)
  when (not (emb.lcss == single_fragment)) (do handle_fragment p sync emb.lcss; hand_on p)

-- A frame of the stream that is active.
unfoldable pub handle_frame : Packet → Action (Unit {0})
handle_frame p = do
  need 156 p
  let sync : List ℕ = sync_bits p
  if sync_pattern sync == unknown_pattern then handle_emb p sync else hand_on p

-- The time of the frame, `slot.last.packetReceived`, is not modelled: a frame that is ignored here is noted
-- there by the code too.
unfoldable pub handle_voice : Packet → Action (Unit {0})
handle_voice p = do
  slot ← slot_of p
  t ← current
  if t.state == voice_call_active
      then when (p.stream_id == slot.stream_id) (handle_frame p)
      else (voice_call_start p >> handle_frame p)

-- `data[i] ^= mask` for the last three of the twelve bytes.
unfoldable pub unmask : ℕ → List ℕ → List ℕ
unmask mask bytes =
    let flip : List ℕ → ℕ → List ℕ = λ b i. set b i (bit_xor (get_or b i 0) mask) in
    flip (flip (flip bytes 9) 10) 11

-- The link control message of a packet, which is only logged.
unfoldable pub read_full_lc : ℕ → Packet → Action Lc
read_full_lc mask p = do
  bits ← read_info_bits p
  bytes ← call of_bptc (Bptc.decode bits (zeros 12))
  call of_full_lc (parse_full_lc (unmask mask bytes))

unfoldable pub handle_voice_lc : Packet → Action (Unit {0})
handle_voice_lc p = do lc ← read_full_lc 0x96 p; done tt
