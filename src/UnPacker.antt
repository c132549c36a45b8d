-- ===== src/UnPacker.antt =====
-- containers::UnPacker: include/containers/unpacker.hpp.
-- The two `for` loops of `FindKey` run on `scan_fuel` and the `while` loop of a mode on `rounds`;
-- `none` is fuel that ran out, or undefined behaviour. The callbacks are pure functions of the bytes
-- from their pointer to the end of its block. Log calls are left out.
pub mod Finding
mod Search
pub mod Contiguous
pub mod Missed
mod Packets
pub mod HeadTail
mod Streams
mod Skipping
pub mod EverySecond
pub mod HeadOnly
pub mod Callback
pub mod Safety
pub mod Termination
mod Tests
unfoldable pub use Finding.{find_key}
use nebula_toolkit.Prelude.{
  ℕ, zero, suc, ◌-◌, ◌^◌, Bool, true, false, not, ◌&&◌, ◌||◌, Option, none, some, List, [], ◌∷◌,
  ◌++◌, Bytes, length, min, drop, replicate, ltb, ◌==◌, if◌then◌else◌, ◌>>=◌, add_size, sub_size,
  mod_size, memcpy,
}
use nebula_toolkit.RingBuffer
use nebula_toolkit.RingBuffer.{RingBuffer, capacity, available_to_read, wrap_copy, commit_read_size}

-- `enum UnpackerModel`
pub data UnpackerModel : Type 0 where
  k_none head_only head_tail head_tail_cb : UnpackerModel

-- head size, data size and tail size, from the bytes behind the head pointer
abbrev pub DataSzCb : Type 0
DataSzCb = Bytes → ℕ × ℕ × ℕ

abbrev pub CheckValidCb : Type 0
CheckValidCb = Bytes → Bool

pub record UnPacker : Type 0 where
  pub ring : RingBuffer
  pub head_key : Bytes
  pub tail_key : Bytes
  pub data_sz_cb : Option DataSzCb
  pub check_sz_cb : Option CheckValidCb
  pub model : UnpackerModel

abbrev pub is_set {ℓ} : {A : Type ℓ} → Option A → Bool
is_set none = false
is_set (some a) = true

abbrev pub empty : Bytes → Bool
empty b = length b == 0

unfoldable pub check_model : Bytes → Bytes → Option DataSzCb → Option CheckValidCb → UnpackerModel
check_model head tail dc cc =
    if is_set dc && (is_set cc && (not (empty head) && not (empty tail)))
    then head_tail_cb
    else if not (empty head) && empty tail
    then head_only
    else if not (empty head) && not (empty tail)
    then head_tail
    else k_none

-- the constructor with callbacks, and the one without
unfoldable pub create_with_callbacks :
    Bytes → Bytes → Option DataSzCb → Option CheckValidCb → ℕ → UnPacker
unfolding check_model
create_with_callbacks head tail dc cc buffer_size = record {
  ring = RingBuffer.create buffer_size;
  head_key = head;
  tail_key = tail;
  data_sz_cb = dc;
  check_sz_cb = cc;
  model = check_model head tail dc cc;
}

unfoldable pub create_basic : Bytes → Bytes → ℕ → UnPacker
unfolding create_with_callbacks
create_basic head tail buffer_size = create_with_callbacks head tail none none buffer_size

-- the packet of `packet_size` bytes from `head_offset` on, copied out
unfoldable pub copy_packet : RingBuffer → ℕ → ℕ → Option Bytes
copy_packet r head_offset packet_size = do
  abs_head ← mod_size (add_size r.read_index head_offset) (capacity r)
  let part1_size = min packet_size (sub_size (capacity r) abs_head)
  d ← memcpy (replicate packet_size 0) 0 r.buffer abs_head part1_size
  wrap_copy d part1_size r.buffer 0 part1_size packet_size

-- the variables of a mode's loop: the buffer, `current_pos`, and `read_data`
pub record Progress : Type 0 where
  pub ring : RingBuffer
  pub current_pos : ℕ
  pub packs : List Bytes

-- `read_data.push_back(packet); current_pos = ...; CommitReadSize(packet_size)`
abbrev pub deliver : Progress → Bytes → ℕ → ℕ → Option (Option Progress)
deliver s packet pos packet_size = do
  (_, r') ← commit_read_size s.ring packet_size
  some (some (record { ring = r'; current_pos = pos; packs = s.packs ++ packet ∷ [] }))

-- `!check_sz_cb_ || check_sz_cb_(packet.data())`
abbrev pub accepted : Option CheckValidCb → Bytes → Bool
accepted none packet = true
accepted (some check) packet = check packet

-- A round of a loop: `some none` is `break`.
module _ (scan_fuel : ℕ) (u : UnPacker) where
  -- the body of the loop of `ProcessHeadOnlyMode`
  unfoldable pub head_only_round : Progress → Option (Option Progress)
  head_only_round s = do
    head_offset ← find_key scan_fuel s.ring u.head_key s.current_pos
    if head_offset == capacity s.ring then some none else do
      next_head ← find_key scan_fuel s.ring u.head_key (add_size head_offset (length u.head_key))
      if next_head == capacity s.ring then some none else do
        let packet_size = sub_size next_head head_offset
        packet ← copy_packet s.ring head_offset packet_size
        deliver s packet (add_size head_offset packet_size) packet_size

  -- the body of the loop of `ProcessHeadTailMode`
  unfoldable pub head_tail_round : Progress → Option (Option Progress)
  head_tail_round s = do
    head_offset ← find_key scan_fuel s.ring u.head_key s.current_pos
    if head_offset == capacity s.ring then some none else do
      tail_offset ← find_key scan_fuel s.ring u.tail_key (add_size head_offset (length u.head_key))
      if tail_offset == capacity s.ring then some none else do
        let packet_end = add_size tail_offset (length u.tail_key)
        let packet_size = sub_size packet_end head_offset
        packet ← copy_packet s.ring head_offset packet_size
        deliver s packet packet_end packet_size

  -- `current_pos = head_offset + 1`
  abbrev skip_byte : Progress → ℕ → Option (Option Progress)
  skip_byte s head_offset = some (some (record s { current_pos = add_size head_offset 1 }))

  -- the packet is made, checked by the callback, and delivered or passed over
  unfoldable pub check_packet : Progress → ℕ → ℕ → Option (Option Progress)
  check_packet s head_offset packet_size = do
    packet ← copy_packet s.ring head_offset packet_size
    if accepted u.check_sz_cb packet
        then deliver s packet (add_size head_offset packet_size) packet_size
        else skip_byte s head_offset

  -- the sizes that `data_sz_cb_` gave are too small for the keys, or too large for the data
  abbrev malformed : ℕ → ℕ → ℕ → ℕ → ℕ → Bool
  malformed total_size head_offset head_size tail_size packet_size =
      ltb head_size (length u.head_key)
      || (ltb tail_size (length u.tail_key) || ltb total_size (add_size head_offset packet_size))

  -- from the sizes on: the tail key is looked for where they put it
  unfoldable pub sized_packet : ℕ → Progress → ℕ → ℕ → ℕ → ℕ → Option (Option Progress)
  unfolding check_packet
  sized_packet total_size s head_offset head_size data_size tail_size =
      let packet_size = add_size (add_size head_size data_size) tail_size in
      let expected_tail = add_size (add_size head_offset head_size) data_size in
      if malformed total_size head_offset head_size tail_size packet_size
      then skip_byte s head_offset
      else do
        tail_offset ← find_key scan_fuel s.ring u.tail_key expected_tail
        if not (tail_offset == expected_tail)
            then skip_byte s head_offset
            else check_packet s head_offset packet_size

  -- the body of the loop of `ProcessHeadTailAndCbMode`, `cb` being `data_sz_cb_`
  unfoldable pub callback_round : DataSzCb → ℕ → Progress → Option (Option Progress)
  unfolding sized_packet
  callback_round cb total_size s = do
    head_offset ← find_key scan_fuel s.ring u.head_key s.current_pos
    if head_offset == capacity s.ring then some none else do
      abs_head ← mod_size (add_size s.ring.read_index head_offset) (capacity s.ring)
      let (head_size, data_size, tail_size) = cb (drop abs_head s.ring.buffer)
      sized_packet total_size s head_offset head_size data_size tail_size

-- `while (current_pos < total_size)` around a round
unfoldable pub loop : (Progress → Option (Option Progress)) → ℕ → ℕ → Progress → Option Progress
loop round zero total_size s = none
loop round (suc n) total_size s = elim (ltb s.current_pos total_size) [
  | false ↦ some s
  | true ↦ elim (round s) [
    | none ↦ none
    | some none ↦ some s
    | some (some s') ↦ loop round n total_size s'
  ]
]

-- `(size_t)UnPackerResult::kError`
abbrev pub k_error : ℕ
k_error = 2 ^ 64 - 1

-- one pass of a mode over the readable bytes, and `kSuccess`
abbrev pub process :
    (Progress → Option (Option Progress))
    → ℕ
    → UnPacker
    → List Bytes
    → Option (ℕ × List Bytes × UnPacker)
process round rounds u packs = do
  s ←
      loop round rounds (available_to_read u.ring)
        (record { ring = u.ring; current_pos = 0; packs = packs })
  some (0, s.packs, record u { ring = s.ring })

module _ (scan_fuel rounds : ℕ) where
  -- `GetPack` by the mode; an unset `data_sz_cb_` in callback mode would throw
  unfoldable pub run_mode :
      UnpackerModel → Option DataSzCb → UnPacker → List Bytes → Option (ℕ × List Bytes × UnPacker)
  run_mode k_none dc u packs = some (k_error, packs, u)
  run_mode head_only dc u packs = process (head_only_round scan_fuel u) rounds u packs
  run_mode head_tail dc u packs = process (head_tail_round scan_fuel u) rounds u packs
  run_mode head_tail_cb none u packs = none
  run_mode head_tail_cb (some cb) u packs =
      process (callback_round scan_fuel u cb (available_to_read u.ring)) rounds u packs

  unfoldable pub get_pack : UnPacker → List Bytes → Option (ℕ × List Bytes × UnPacker)
  unfolding run_mode
  get_pack u packs = run_mode u.model u.data_sz_cb u packs

  -- `Get`: what `read_data` held is cleared first
  unfoldable pub get : UnPacker → Option (ℕ × List Bytes × UnPacker)
  get u = get_pack u []

  -- `PushAndGet`: a null pointer is `none`
  unfoldable pub push_and_get :
      UnPacker → Option Bytes → ℕ → List Bytes → Option (ℕ × List Bytes × UnPacker)
  push_and_get u none data_size read_data = some (k_error, read_data, u)
  push_and_get u (some write_data) data_size read_data = do
    (write_size, r') ← RingBuffer.write u.ring write_data data_size
    (_, packs, u') ← get_pack (record u { ring = r' }) []
    some (write_size, packs, u')
