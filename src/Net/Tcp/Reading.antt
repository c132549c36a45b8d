-- ===== src/Net/Tcp/Reading.antt =====
-- What `TcpHandler` makes of the bytes of its stream.
use nebula_toolkit.Net.{Kernel, IsLawful, Received, got, would_block, failed, bytes_of}
use nebula_toolkit.Net.Tcp.{TcpHandler, take_in, handle_read, read_round, process_readable_event}
use nebula_toolkit.Prelude.{
  ℕ, zero, suc, ◌≤◌, ◌≡◌, ◌∙◌, refl, inl, inr, some, List, [], ◌∷◌, ◌++◌, Bytes, length, arith,
  ◌==◌, ◌>>=◌, >>=-eq-some, Bool-cases,
}
use nebula_toolkit.RingBuffer.Contents.{IsValid}
use nebula_toolkit.RingBuffer.Linear.{commit_write-Holds}
use nebula_toolkit.RingBuffer.{get_linear_write_space}
use nebula_toolkit.UnPacker.{UnPacker, get}
use nebula_toolkit.Net.Streams.{
  Extends, get-Extends, Keeps, keeps, Keeps-bind, after_round, Reads, Reads-none, Reads-then,
  nothing_read,
}

-- `CommitWriteSize` and `Get` behind a read into the offered space
pub take_in-Extends :
    (scan_fuel rounds : ℕ) (u : UnPacker) (bs : Bytes) {packs : List Bytes} {u' : UnPacker}
    → IsValid u.ring
    → length bs ≤ (get_linear_write_space u.ring).1
    → take_in scan_fuel rounds u (get_linear_write_space u.ring).0 bs ≡ some (packs, u')
    → Extends u.ring u'.ring bs
unfolding take_in
take_in-Extends scan_fuel rounds u bs {packs} {u'} v fits e =
    let (b, r', copied, committed, h) = commit_write-Holds bs v fits in
    let rest : (do (_, ps, w) ← get scan_fuel rounds (record u { ring = r' }); some (ps, w))
        ≡ some (packs, u') =
      rw (copied, committed) at e in
    let ((code, ps, w), ran, eq) =
      >>=-eq-some (get scan_fuel rounds (record u { ring = r' })) _ rest in
    let same : w.ring ≡ u'.ring = ground (arith, eq) in
    rw same at (get-Extends scan_fuel rounds u r' bs h ran)

module _ (K : Kernel) (law : IsLawful K) (scan_fuel rounds : ℕ) where
  handle_read-Reads :
      (k k1 : K.State) (h : TcpHandler) (received : Received)
      → IsValid h.unpacker.ring
      → length (bytes_of received) ≤ (get_linear_write_space h.unpacker.ring).1
      → K.taken k1 h.fd ≡ K.taken k h.fd ++ bytes_of received
      → Keeps
          (λ s g. Reads K h.fd k h.unpacker.ring s g.unpacker.ring × (g.fd ≡ h.fd))
          (handle_read K scan_fuel rounds (get_linear_write_space h.unpacker.ring).0 received k1 h)
  unfolding handle_read
  handle_read-Reads k k1 h (got []) v fits new =
      keeps (nothing_read K h.fd k h.unpacker.ring k1 v new, refl)
  handle_read-Reads k k1 h (got (c ∷ bs)) v fits new =
      Keeps-bind (λ s g. Reads K h.fd k h.unpacker.ring s g.unpacker.ring × (g.fd ≡ h.fd))
        (take_in scan_fuel rounds h.unpacker (get_linear_write_space h.unpacker.ring).0 (c ∷ bs)) _
        λ a e.
          keeps ((c ∷ bs, new, take_in-Extends scan_fuel rounds h.unpacker (c ∷ bs) v fits e), refl)
  handle_read-Reads k k1 h would_block v fits new =
      keeps (nothing_read K h.fd k h.unpacker.ring k1 v new, refl)
  handle_read-Reads k k1 h failed v fits new =
      keeps (nothing_read K h.fd k h.unpacker.ring k1 v new, refl)

  read_round-Reads :
      (k : K.State) (h : TcpHandler)
      → IsValid h.unpacker.ring
      → Keeps
          (λ s g. Reads K h.fd k h.unpacker.ring s g.unpacker.ring × (g.fd ≡ h.fd))
          (read_round K scan_fuel rounds k h)
  unfolding read_round
  read_round-Reads k h v =
      let room = (get_linear_write_space h.unpacker.ring).1 in
      elim (Bool-cases (room == 0)) [
        | inl full ↦ rw full (keeps (Reads-none K h.fd k h.unpacker.ring v, refl))
        | inr free ↦ rw free (
            handle_read-Reads k (K.receive k h.fd room).1 h (K.receive k h.fd room).0 v
              (law.receive-fits k h.fd room) (law.taken-receive k h.fd room))
      ]

  -- What the loop of `ProcessReadableEvent` returns within its fuel has the buffer in order, and in it
  -- the end of the bytes held before followed by all that was read from the descriptor meanwhile: no
  -- byte of the stream is made up, doubled, reordered or lost behind.
  pub process_readable_event-Reads :
      (n : ℕ) (k : K.State) (h : TcpHandler) {k' : K.State} {h' : TcpHandler}
      → IsValid h.unpacker.ring
      → process_readable_event K scan_fuel rounds n k h ≡ some (k', h')
      → Reads K h.fd k h.unpacker.ring k' h'.unpacker.ring × (h'.fd ≡ h.fd)
  unfolding process_readable_event
  process_readable_event-Reads zero k h v e = cc
  process_readable_event-Reads (suc n) k h {k'} {h'} v e =
      after_round (λ s g. Reads K h.fd k h.unpacker.ring s g.unpacker.ring × (g.fd ≡ h.fd))
        (process_readable_event K scan_fuel rounds n) (read_round-Reads k h v) e
        λ k1 h1 (p, f) q.
          let (later, f') = process_readable_event-Reads n k1 h1 p.2.1.valid q in
          (
            Reads-then K h.fd k h.unpacker.ring k1 h1.unpacker.ring k' h'.unpacker.ring p
                (rw f at later),
            f' ∙ f,
          )
