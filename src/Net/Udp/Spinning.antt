-- ===== src/Net/Udp/Spinning.antt =====
-- The loop of `UdpHandler` on a descriptor whose reads fail.
use nebula_toolkit.Net.{Kernel, failed}
use nebula_toolkit.Net.Udp.{
  UdpHandler, commit_and_get, handle_datagram, datagram_round, receive_all,
}
use nebula_toolkit.Prelude.{
  ℕ, zero, suc, ◌+◌, ◌<◌, ◌≡◌, ◌⊎◌, refl, ap, true, false, none, some, length, arith, ◌==◌,
  Option-cases, inl, inr, length-drop,
}
use nebula_toolkit.Net.Udp.Reading.{commit_write_minus_one}
use nebula_toolkit.RingBuffer.Contents.{IsValid, contents, length-contents}
use nebula_toolkit.RingBuffer.Linear.{linear_write_space_bounds}
use nebula_toolkit.RingBuffer.{capacity, get_linear_write_space}
use nebula_toolkit.UnPacker.Safety.{get-Front}
use nebula_toolkit.UnPacker.{get}

-- Every read of the descriptor fails with an error that is not EAGAIN.
pub record IsBroken (K : Kernel) (fd : ℕ) : Type 0 where
  pub receive-failed : (k : K.State) (room : ℕ) → (K.receive k fd room).0 ≡ failed

module _ (K : Kernel) (scan_fuel rounds : ℕ) where
  failed_round :
      (k : K.State) (h : UdpHandler) (fd : ℕ)
      → IsBroken K fd
      → IsValid h.unpacker.ring
      → h.unpacker.ring.len < capacity h.unpacker.ring
      → (datagram_round K scan_fuel rounds k h fd ≡ none)
        ⊎ ((k' : K.State) × (h' : UdpHandler) × (datagram_round K scan_fuel rounds k h fd
              ≡ some (true, k', h'))
            × IsValid h'.unpacker.ring
            × (h'.unpacker.ring.len < capacity h'.unpacker.ring))
  unfolding datagram_round handle_datagram commit_and_get
  failed_round k h fd broken v free =
      let (_, _, _, some_room) = linear_write_space_bounds v in
      let (at, room) = get_linear_write_space h.unpacker.ring in
      let goes_on : (room == 0) ≡ false = ground arith in
      let bad = broken.receive-failed k room in
      let refused = commit_write_minus_one v in
      rw (goes_on, bad, refused)
        (elim (Option-cases (get scan_fuel rounds h.unpacker)) [
          | inl stuck ↦ inl (rw stuck refl)
          | inr ((code, packs, u'), ran) ↦
              let (j, g) = get-Front scan_fuel rounds h.unpacker v ran in
              let shorter = ap (λ q. length q) g.holds in
              inr (
                (K.receive k fd room).1,
                record h {
                  should_close = true;
                  unpacker = u';
                  packs = packs;
                  scheduled = h.scheduled + 1;
                },
                rw ran refl,
                g.valid,
                omega (
                  arith,
                  shorter,
                  g.same_capacity,
                  length-drop j (contents h.unpacker.ring),
                  length-contents h.unpacker.ring,
                  length-contents u'.ring,
                ),
              )
        ])

  -- Where every read fails with an error other than EAGAIN, and a byte of the buffer is free, the loop
  -- of the datagram handler never ends, whatever fuel it has: `should_close_` is set and not looked at.
  pub receive_all_spins :
      (n : ℕ) (k : K.State) (h : UdpHandler) (fd : ℕ)
      → IsBroken K fd
      → IsValid h.unpacker.ring
      → h.unpacker.ring.len < capacity h.unpacker.ring
      → receive_all K scan_fuel rounds n k h fd ≡ none
  unfolding receive_all
  receive_all_spins zero k h fd broken v free = refl
  receive_all_spins (suc n) k h fd broken v free = elim (failed_round k h fd broken v free) [
    | inl stuck ↦ rw (receive_all, stuck) refl
    | inr (k', h', e, v', free') ↦
        rw (receive_all, e) (receive_all_spins n k' h' fd broken v' free')
  ]
