-- ===== src/Net/Udp/Reading.antt =====
-- What `UdpHandler` makes of the datagrams that it receives.
use mathlib.Core.List.{append-nil}
use nebula_toolkit.Net.{Kernel, IsLawful, Received, got, would_block, failed, bytes_of}
use nebula_toolkit.Net.Udp.{
  UdpHandler, commit_and_get, handle_datagram, datagram_round, receive_all,
}
use nebula_toolkit.Prelude.{
  ℕ, zero, suc, ◌-◌, ◌^◌, ◌≤◌, ◌≡◌, refl, sym, inl, inr, true, some, [], ◌++◌, Bytes, length, arith,
  ◌==◌, Bool-cases,
}
use nebula_toolkit.RingBuffer.Contents.{IsValid, contents, Holds}
use nebula_toolkit.RingBuffer.Linear.{commit_write-Holds}
use nebula_toolkit.RingBuffer.{
  RingBuffer, get_linear_write_space, commit_write_size, Result, error_invalid_size,
}
use nebula_toolkit.UnPacker.{get}
use nebula_toolkit.Net.Streams.{
  get-Extends, Keeps, keeps, Keeps-bind, after_round, Reads, Reads-none, Reads-then, nothing_read,
}

-- -1 as a size is more than any buffer has room for.
pub commit_write_minus_one :
    {r : RingBuffer} → IsValid r → commit_write_size r (2 ^ 64 - 1) ≡ some (error_invalid_size, r)
unfolding commit_write_size
commit_write_minus_one v = ground arith

module _ (K : Kernel) (law : IsLawful K) (scan_fuel rounds : ℕ) where
  commit_and_get-Reads :
      (fd : ℕ) (k k1 : K.State) (h : UdpHandler) (r r' : RingBuffer) (bs : Bytes) (len : ℕ)
      {code : Result}
      → commit_write_size r len ≡ some (code, r')
      → Holds h.unpacker.ring r' (contents h.unpacker.ring ++ bs)
      → K.taken k1 fd ≡ K.taken k fd ++ bs
      → Keeps
          (λ s g. Reads K fd k h.unpacker.ring s g.unpacker.ring)
          (commit_and_get K scan_fuel rounds r len k1 h)
  unfolding commit_and_get
  commit_and_get-Reads fd k k1 h r r' bs len committed held new = rw committed (
      Keeps-bind (λ s g. Reads K fd k h.unpacker.ring s g.unpacker.ring)
        (get scan_fuel rounds (record h.unpacker { ring = r' })) _
        λ (code, ps, w) e. keeps (bs, new, get-Extends scan_fuel rounds h.unpacker r' bs held e))

  handle_datagram-Reads :
      (fd : ℕ) (k k1 : K.State) (h : UdpHandler) (received : Received)
      → IsValid h.unpacker.ring
      → length (bytes_of received) ≤ (get_linear_write_space h.unpacker.ring).1
      → K.taken k1 fd ≡ K.taken k fd ++ bytes_of received
      → Keeps
          (λ s g. Reads K fd k h.unpacker.ring s g.unpacker.ring)
          (handle_datagram K scan_fuel rounds
            (get_linear_write_space h.unpacker.ring).0
            received
            k1
            h)
  unfolding handle_datagram
  handle_datagram-Reads fd k k1 h (got bs) v fits new =
      let (b, r', copied, committed, held) = commit_write-Holds bs v fits in
      rw copied (
        commit_and_get-Reads fd k k1 h (record h.unpacker.ring { buffer = b }) r' bs (length bs)
          committed held new)
  handle_datagram-Reads fd k k1 h would_block v fits new =
      keeps (nothing_read K fd k h.unpacker.ring k1 v new)
  handle_datagram-Reads fd k k1 h failed v fits new =
      commit_and_get-Reads fd k k1 (record h { should_close = true }) h.unpacker.ring
        h.unpacker.ring [] (2 ^ 64 - 1) (commit_write_minus_one v)
        (record {
          valid = v;
          same_capacity = refl;
          holds = sym (append-nil (contents h.unpacker.ring));
        })
        new

  datagram_round-Reads :
      (k : K.State) (h : UdpHandler) (fd : ℕ)
      → IsValid h.unpacker.ring
      → Keeps
          (λ s g. Reads K fd k h.unpacker.ring s g.unpacker.ring)
          (datagram_round K scan_fuel rounds k h fd)
  unfolding datagram_round
  datagram_round-Reads k h fd v =
      let room = (get_linear_write_space h.unpacker.ring).1 in
      elim (Bool-cases (room == 0)) [
        | inl full ↦ rw full (keeps (Reads-none K fd k h.unpacker.ring v))
        | inr free ↦ rw free (
            handle_datagram-Reads fd k (K.receive k fd room).1 h (K.receive k fd room).0 v
              (law.receive-fits k fd room) (law.taken-receive k fd room))
      ]

  -- The same of the loop of the datagram handler, errors included.
  pub receive_all-Reads :
      (n : ℕ) (k : K.State) (h : UdpHandler) (fd : ℕ) {k' : K.State} {h' : UdpHandler}
      → IsValid h.unpacker.ring
      → receive_all K scan_fuel rounds n k h fd ≡ some (k', h')
      → Reads K fd k h.unpacker.ring k' h'.unpacker.ring
  unfolding receive_all
  receive_all-Reads zero k h fd v e = cc
  receive_all-Reads (suc n) k h fd {k'} {h'} v e =
      after_round (λ s g. Reads K fd k h.unpacker.ring s g.unpacker.ring)
        (λ s g. receive_all K scan_fuel rounds n s g fd) (datagram_round-Reads k h fd v) e
        λ k1 h1 p q.
          Reads-then K fd k h.unpacker.ring k1 h1.unpacker.ring k' h'.unpacker.ring p
            (receive_all-Reads n k1 h1 fd p.2.1.valid q)
