-- ===== src/Terminal/Dispatch.antt =====
-- terminal/terminal.go: control blocks, terminators, and the function that a repeater calls for every
-- packet.
use go_dmr.Base.{ℕ, leb, ◌==◌, ◌&&◌, if◌then◌else◌, Option, none, some, List, [], ◌∷◌, zeros}
use go_dmr.Base.Outcome.{Outcome, ok, err, panic}
use go_dmr.Dmr.Packet.{Packet, voice_lc, terminator_with_lc, voice_burst_a, voice_burst_f}
use go_dmr.Dmr.DataBlock.{data_type_data, rate34_data}
use go_dmr.Dmr.ControlBlock.{parse_control_block}
use go_dmr.Dmr.MessageData.{Codec}
use go_dmr.Bptc
use go_dmr.Terminal.{Terminal}
use go_dmr.Terminal.Action.{
  Error, of_bptc, of_control_block, Action, ◌>>=◌, ◌>>◌, done, call, slot_of, read_info_bits,
  call_end,
}
use go_dmr.Terminal.DataCall.{handle_data, handle_rate34_data}
use go_dmr.Terminal.VoiceCall.{handle_voice, handle_voice_lc, read_full_lc}

abbrev pub csbk : ℕ
csbk = 3

-- The control block is read, and only logged.
unfoldable pub handle_control_block : Packet → Action (Unit {0})
handle_control_block p = do
  slot ← slot_of p
  call_end p
  bits ← read_info_bits p
  bytes ← call of_bptc (Bptc.decode bits (zeros 12))
  cb ← call of_control_block (parse_control_block bytes)
  done tt

unfoldable pub handle_terminator_with_lc : Packet → Action (Unit {0})
handle_terminator_with_lc p = do call_end p; lc ← read_full_lc 0x99 p; done tt

-- The error of a call is dropped.
abbrev pub no_error : Outcome Error (Unit {0}) × Terminal → Outcome Error (Unit {0}) × Terminal
no_error (ok u, t) = (ok tt, t)
no_error (err e, t) = (ok tt, t)
no_error (panic, t) = (panic, t)

module _ (codecs : ℕ → Codec) where
  -- `handlePacket`. The test of the destination stands behind `false &&`.
  unfoldable pub handle_packet : Packet → Action (Unit {0})
  handle_packet p t =
      if p.data_type == csbk
      then handle_control_block p t
      else if p.data_type == data_type_data
      then handle_data p t
      else if p.data_type == rate34_data
      then handle_rate34_data codecs p t
      else if leb voice_burst_a p.data_type && leb p.data_type voice_burst_f
      then handle_voice p t
      else if p.data_type == voice_lc
      then handle_voice_lc p t
      else if p.data_type == terminator_with_lc
      then no_error (handle_terminator_with_lc p t)
      else (ok tt, t)

-- A terminal that did not panic goes on, with or without an error.
abbrev pub survived : Outcome Error (Unit {0}) × Terminal → Option Terminal
survived (ok u, t) = some t
survived (err e, t) = some t
survived (panic, t) = none

-- The packets that a repeater hands over, one after the other.
unfoldable pub handle_all : (ℕ → Codec) → List Packet → Terminal → Option Terminal
handle_all codecs [] t = some t
handle_all codecs (p ∷ packets) t = elim (survived (handle_packet codecs p t)) [
  | none ↦ none
  | some t' ↦ handle_all codecs packets t'
]
