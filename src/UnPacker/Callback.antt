-- ===== src/UnPacker/Callback.antt =====
-- `ProcessHeadTailAndCbMode` on readable bytes in one piece.
use nebula_toolkit.Prelude.{
  ℕ, suc, ◌+◌, ◌≤◌, ◌<◌, ◌≡◌, ◌∙◌, ap, true, none, some, [], ◌∷◌, length, take, drop, arith,
  ==_refl, mod-below_double,
}
use nebula_toolkit.RingBuffer.Contents.{IsValid, contents, length-contents, Holds}
use nebula_toolkit.RingBuffer.Linear.{commit_read-Holds}
use nebula_toolkit.RingBuffer.Reading.{consumed, consumed-Holds}
use nebula_toolkit.RingBuffer.{capacity}
use nebula_toolkit.UnPacker.Contiguous.{IsContiguous, first_place, place_or, find_key-first_place}
use nebula_toolkit.UnPacker.HeadTail.{find_key_behind}
use nebula_toolkit.UnPacker.Packets.{copy_packet_lem, loop_once}
use nebula_toolkit.UnPacker.Streams.{first_at-here}
use nebula_toolkit.UnPacker.Search.{occurs}
use nebula_toolkit.UnPacker.{
  UnPacker, Progress, DataSzCb, find_key, head_tail_cb, callback_round, sized_packet, check_packet,
  accepted, loop, get_pack, get,
}

-- The first head key in the readable bytes stands at `h`, the callback `cb` gives the three sizes there,
-- which have room for the keys and lie in the readable bytes, the tail key stands where they put it, and
-- the packet passes the check.
pub record Sized (u : UnPacker) (cb : DataSzCb) (h head_size data_size tail_size : ℕ) : Type 0 where
  pub valid : IsValid u.ring
  pub flat : IsContiguous u.ring
  pub head_pos : 0 < length u.head_key
  pub tail_pos : 0 < length u.tail_key
  pub head_fits : length u.head_key ≤ head_size
  pub tail_fits : length u.tail_key ≤ tail_size
  pub size_fits : h + head_size + data_size + tail_size ≤ u.ring.len
  pub head_at : first_place (contents u.ring) u.head_key 0 ≡ some h
  pub sizes : cb (drop (u.ring.read_index + h) u.ring.buffer) ≡ (head_size, data_size, tail_size)
  pub tail_at : occurs (contents u.ring) (h + head_size + data_size) u.tail_key ≡ true
  pub passes :
      accepted u.check_sz_cb (take (head_size + data_size + tail_size) (drop h (contents u.ring)))
      ≡ true

module _ (fuel : ℕ) (u : UnPacker) (cb : DataSzCb) (h head_size data_size tail_size : ℕ)
    (f : Sized u cb h head_size data_size tail_size) (enough : capacity u.ring < fuel) where
  abbrev packet_size : ℕ
  packet_size = head_size + data_size + tail_size

  abbrev start : Progress
  start = record { ring = u.ring; current_pos = 0; packs = [] }

  after : Progress
  after = record {
    ring = consumed u.ring packet_size;
    current_pos = h + packet_size;
    packs = take packet_size (drop h (contents u.ring)) ∷ [];
  }

  finds_head : find_key fuel u.ring u.head_key 0 ≡ some h
  finds_head =
      find_key-first_place fuel u.ring u.head_key 0 f.valid f.flat f.head_pos
        (omega (arith, f.head_fits, f.size_fits)) enough
      ∙ (rw f.head_at)

  finds_tail :
      find_key fuel u.ring u.tail_key (h + head_size + data_size) ≡ some (h + head_size + data_size)
  finds_tail =
      find_key-first_place fuel u.ring u.tail_key (h + head_size + data_size) f.valid f.flat
        f.tail_pos (omega (arith, f.tail_fits, f.size_fits)) enough
      ∙ ap (λ o. some (place_or o (capacity u.ring)))
          (first_at-here _ (λ i. occurs (contents u.ring) i u.tail_key) (h + head_size + data_size)
            (omega (arith, f.tail_fits, f.size_fits, length-contents u.ring)) f.tail_at)

  packet_checked : check_packet fuel u start h packet_size ≡ some (some after)
  unfolding check_packet after
  packet_checked = ground (
    arith,
    f.valid,
    f.head_fits,
    f.head_pos,
    f.size_fits,
    f.passes,
    copy_packet_lem u.ring h packet_size f.valid,
    commit_read-Holds packet_size f.valid,
  )

  sizes_hold :
      sized_packet fuel u u.ring.len start h head_size data_size tail_size ≡ some (some after)
  unfolding sized_packet
  sizes_hold =
      ground (arith, f.valid, f.head_fits, f.tail_fits, f.size_fits, finds_tail, packet_checked)

  first_round : callback_round fuel u cb u.ring.len start ≡ some (some after)
  unfolding callback_round
  first_round = ground (
    arith,
    f.valid,
    f.flat,
    f.head_pos,
    f.head_fits,
    f.size_fits,
    f.sizes,
    finds_head,
    mod-below_double (u.ring.read_index + h) (capacity u.ring),
    sizes_hold,
  )

  module _ (short : u.ring.len ≤ h + packet_size + packet_size) where
    second_round : callback_round fuel u cb u.ring.len after ≡ some none
    unfolding callback_round after
    second_round = ground (
      arith,
      f.size_fits,
      find_key_behind fuel (consumed u.ring packet_size) u.head_key (h + packet_size),
      ==_refl (capacity u.ring),
    )

    two_rounds :
        (k : ℕ)
        → loop (callback_round fuel u cb u.ring.len) (suc (suc k)) u.ring.len start ≡ some after
    two_rounds =
        loop_once (callback_round fuel u cb u.ring.len) u.ring.len
          (omega (arith, f.head_pos, f.head_fits, f.size_fits)) first_round second_round

    -- With a head key at `h`, sizes from the callback that have room for the keys and end in the readable bytes, the
    -- tail key where they put it, a packet that passes the check, and no more readable bytes than the end of the
    -- packet and its size add up to, one call of `Get` in callback mode delivers the packet of these
    -- sizes from its head key on and no other, and takes its size off the front of the buffer. Two rounds
    -- are enough.
    pub get_sized_packet :
        (k : ℕ)
        → u.model ≡ head_tail_cb
        → u.data_sz_cb ≡ some cb
        → (u' : UnPacker) × (get fuel (suc (suc k)) u
            ≡ some (0, take packet_size (drop h (contents u.ring)) ∷ [], u'))
          × Holds u.ring u'.ring (drop packet_size (contents u.ring))
    unfolding get get_pack after
    get_sized_packet k mode given = (
      record u { ring = consumed u.ring packet_size },
      ground (arith, mode, given, two_rounds k),
      consumed-Holds packet_size f.valid (omega (arith, f.size_fits)),
    )
