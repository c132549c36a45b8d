-- ===== src/UnPacker/HeadTail.antt =====
-- `ProcessHeadTailMode` on readable bytes in one piece.
use nebula_toolkit.Prelude.{
  ℕ, suc, ◌+◌, ◌-◌, ◌≤◌, ◌<◌, ◌≡◌, ◌∙◌, none, some, [], ◌∷◌, Bytes, length, take, drop, arith,
  ==_refl,
}
use nebula_toolkit.RingBuffer.Contents.{IsValid, contents, length-contents, Holds}
use nebula_toolkit.RingBuffer.Linear.{commit_read-Holds}
use nebula_toolkit.RingBuffer.Reading.{consumed, consumed-Holds}
use nebula_toolkit.RingBuffer.{RingBuffer, capacity}
use nebula_toolkit.UnPacker.Contiguous.{IsContiguous, first_place, find_key-first_place}
use nebula_toolkit.UnPacker.Packets.{copy_packet_lem, loop_once}
use nebula_toolkit.UnPacker.Search.{occurs, first_at-bounds}
use nebula_toolkit.UnPacker.{
  UnPacker, Progress, find_key, head_tail, head_tail_round, loop, get_pack, get,
}

-- A search behind the last readable byte finds nothing.
pub find_key_behind :
    (fuel : ℕ) (r : RingBuffer) (key : Bytes) (start : ℕ)
    → r.len ≤ start
    → find_key fuel r key start ≡ some (capacity r)
unfolding find_key
find_key_behind fuel r key start p = ground arith

-- The first head key in the readable bytes stands at `h`, and the first tail key behind it at `t`.
pub record Framed (u : UnPacker) (h t : ℕ) : Type 0 where
  pub valid : IsValid u.ring
  pub flat : IsContiguous u.ring
  pub head_pos : 0 < length u.head_key
  pub tail_pos : 0 < length u.tail_key
  pub tail_fits : h + length u.head_key + length u.tail_key ≤ u.ring.len
  pub head_at : first_place (contents u.ring) u.head_key 0 ≡ some h
  pub tail_at : first_place (contents u.ring) u.tail_key (h + length u.head_key) ≡ some t

module _ (fuel : ℕ) (u : UnPacker) (h t : ℕ) (f : Framed u h t)
    (enough : capacity u.ring < fuel) where
  abbrev packet_end : ℕ
  packet_end = t + length u.tail_key

  abbrev packet_size : ℕ
  packet_size = packet_end - h

  tail_bounds : (h + length u.head_key ≤ t) × (packet_end ≤ u.ring.len)
  tail_bounds =
      let b =
        first_at-bounds (length (contents u.ring) + 1 - length u.tail_key - (h + length u.head_key))
          (λ i. occurs (contents u.ring) i u.tail_key) (h + length u.head_key) t f.tail_at in
      omega (arith, length-contents u.ring)

  finds_head : find_key fuel u.ring u.head_key 0 ≡ some h
  finds_head =
      find_key-first_place fuel u.ring u.head_key 0 f.valid f.flat f.head_pos (omega arith) enough
      ∙ (rw f.head_at)

  finds_tail : find_key fuel u.ring u.tail_key (h + length u.head_key) ≡ some t
  finds_tail =
      find_key-first_place fuel u.ring u.tail_key (h + length u.head_key) f.valid f.flat f.tail_pos
        (omega arith) enough
      ∙ (rw f.tail_at)

  after : Progress
  after = record {
    ring = consumed u.ring packet_size;
    current_pos = packet_end;
    packs = take packet_size (drop h (contents u.ring)) ∷ [];
  }

  first_round :
      head_tail_round fuel u (record { ring = u.ring; current_pos = 0; packs = [] })
      ≡ some (some after)
  unfolding head_tail_round after
  first_round = ground (
    arith,
    f.valid,
    tail_bounds,
    finds_head,
    finds_tail,
    copy_packet_lem u.ring h packet_size f.valid,
    commit_read-Holds packet_size f.valid,
  )

  module _ (short : u.ring.len ≤ packet_end + packet_size) where
    second_round : head_tail_round fuel u after ≡ some none
    unfolding head_tail_round after
    second_round = ground (
      arith,
      tail_bounds,
      find_key_behind fuel (consumed u.ring packet_size) u.head_key packet_end,
      ==_refl (capacity u.ring),
    )

    two_rounds :
        (n : ℕ)
        → loop
            (head_tail_round fuel u)
            (suc (suc n))
            u.ring.len
            (record { ring = u.ring; current_pos = 0; packs = [] })
          ≡ some after
    two_rounds =
        loop_once (head_tail_round fuel u) u.ring.len (omega (arith, f.head_pos, f.tail_fits))
          first_round second_round

    pub get_first_run :
        (n : ℕ)
        → u.model ≡ head_tail
        → get fuel (suc (suc n)) u
          ≡ some (
            0,
            take packet_size (drop h (contents u.ring)) ∷ [],
            record u { ring = consumed u.ring packet_size },
          )
    unfolding get get_pack after
    get_first_run n mode = ground (arith, mode, two_rounds n)

    -- With a head key at `h`, the first tail key behind it, and no more readable bytes than the end of
    -- this packet and its size add up to, one call of `Get` delivers the packet from its head key to
    -- the end of its tail key and no other, and takes the packet's size off the front of the buffer,
    -- not the packet itself: a second packet that is no longer stays behind, and in front of it the
    -- last `h` bytes of the first. Two rounds are enough.
    pub get_first_packet :
        (n : ℕ)
        → u.model ≡ head_tail
        → (u' : UnPacker) × (get fuel (suc (suc n)) u
            ≡ some (0, take packet_size (drop h (contents u.ring)) ∷ [], u'))
          × Holds u.ring u'.ring (drop packet_size (contents u.ring))
    get_first_packet n mode = (
      record u { ring = consumed u.ring packet_size },
      get_first_run n mode,
      consumed-Holds packet_size f.valid (omega (arith, tail_bounds)),
    )
