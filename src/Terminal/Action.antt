-- ===== src/Terminal/Action.antt =====
-- What a method of the terminal does: a result and the state it leaves, also when it fails.
use go_dmr.Base.{
  ℕ, ltb, ◌==◌, ◌||◌, not, Bool, false, if◌then◌else◌, List, ◌∷◌, get_elem?, set, length,
}
use go_dmr.Base.Outcome.{Outcome, ok, err, panic, or_panic}
use go_dmr.Dmr.Packet.{Packet, info_bits}
use go_dmr.Bptc
use go_dmr.Trellis
use go_dmr.Vbptc
use go_dmr.Lc.Pdu
use go_dmr.Lc.Message.Full
use go_dmr.Dmr.ControlBlock
use go_dmr.Dmr.DataHeader
use go_dmr.Dmr.DataBlock
use go_dmr.Dmr.MessageData
use go_dmr.Dmr.Voice
use go_dmr.Terminal.{Slot, Event, Terminal, idle, data_call_active, voice_call_active}

-- The errors of the terminal and of what it calls.
pub data Error : Type 0 where
  header_nil checksum_failed : Error
  of_bptc : Bptc.Error → Error
  of_trellis : Trellis.Error → Error
  of_vbptc : Vbptc.Error → Error
  of_lc : Pdu.Error → Error
  of_full_lc : Full.FullError → Error
  of_control_block : ControlBlock.Error → Error
  of_data_header : DataHeader.Error → Error
  of_data_block : DataBlock.Error → Error
  of_message : MessageData.Error → Error
  of_voice : Voice.Error → Error

abbrev pub Action : Type 0 → Type 0
Action A = Terminal → Outcome Error A × Terminal

unfoldable pub next :
    {A B : Type 0} → Outcome Error A × Terminal → (A → Action B) → Outcome Error B × Terminal
next (ok a, t) f = f a t
next (err e, t) f = (err e, t)
next (panic, t) f = (panic, t)

infixl 5 ◌>>=◌ ◌>>◌
abbrev pub ◌>>=◌ : {A B : Type 0} → Action A → (A → Action B) → Action B
m >>= f = λ t. next (m t) f

abbrev pub ◌>>◌ : {B : Type 0} → Action (Unit {0}) → Action B → Action B
m >> k = m >>= λ _. k

abbrev pub done : {A : Type 0} → A → Action A
done a t = (ok a, t)

abbrev pub fail : {A : Type 0} → Error → Action A
fail e t = (err e, t)

abbrev pub crash : {A : Type 0} → Action A
crash t = (panic, t)

unfoldable pub when : Bool → Action (Unit {0}) → Action (Unit {0})
when b m = if b then m else done tt

unfoldable pub current : Action Terminal
current t = (ok t, t)

-- A call whose error is returned under the constructor `f`.
abbrev pub relabel : {E A : Type 0} → (E → Error) → Outcome E A → Outcome Error A
relabel f (ok a) = ok a
relabel f (err e) = err (f e)
relabel f panic = panic

unfoldable pub call : {E A : Type 0} → (E → Error) → Outcome E A → Action A
call f r t = (relabel f r, t)

-- `t.slot[p.Timeslot]`
unfoldable pub slot_of : Packet → Action Slot
slot_of p t = (or_panic (get_elem? t.slots p.timeslot), t)

unfoldable pub put_slot : Packet → Slot → Action (Unit {0})
put_slot p s t = (ok tt, record t { slots = set t.slots p.timeslot s })

unfoldable pub set_state : ℕ → Action (Unit {0})
set_state n t = (ok tt, record t { state = n })

unfoldable pub emit : Event → Action (Unit {0})
emit e t = (ok tt, record t { events = e ∷ t.events })

-- The bits from `n` on are sliced, which panics in a shorter frame.
unfoldable pub need : ℕ → Packet → Action (Unit {0})
need n p t = (if ltb (length p.bits) n then panic else ok tt, t)

unfoldable pub read_info_bits : Packet → Action (List ℕ)
read_info_bits p = do need 166 p; done (info_bits p)

unfoldable pub data_call_end : Packet → Action (Unit {0})
data_call_end p = do
  slot ← slot_of p
  t ← current
  if not (t.state == data_call_active)
      then done tt
      else do put_slot p (record slot { packet_header_valid = false }); set_state idle

unfoldable pub voice_call_end : Packet → Action (Unit {0})
voice_call_end p = do
  slot ← slot_of p
  t ← current
  if not (t.state == voice_call_active)
      then done tt
      else do put_slot p (record slot { stream_id = 0 }); set_state idle

unfoldable pub call_end : Packet → Action (Unit {0})
call_end p = do
  t ← current
  if t.state == data_call_active
      then data_call_end p
      else if t.state == voice_call_active
      then voice_call_end p
      else done tt

unfoldable pub data_call_start : Packet → Action (Unit {0})
data_call_start p = do
  old ← slot_of p
  t ← current
  when
      (not (old.dst_id == p.dst_id)
        || not (old.src_id == p.src_id)
        || not (old.data_type == p.data_type))
      (when (t.state == data_call_active) (data_call_end p))
  slot ← slot_of p
  put_slot p (record slot { packet_header_valid = false; dst_id = p.dst_id; src_id = p.src_id })
  set_state data_call_active

unfoldable pub voice_call_start : Packet → Action (Unit {0})
voice_call_start p = do
  old ← slot_of p
  when (not (old.dst_id == p.dst_id) || not (old.src_id == p.src_id)) (voice_call_end p)
  slot ← slot_of p
  put_slot p (record slot { stream_id = p.stream_id })
  set_state voice_call_active
