-- ===== src/Net/Tcp/Returning.antt =====
-- The loop of `TcpHandler` returns.
use nebula_toolkit.Net.{Kernel, IsLawful, IsQuiet, Received, got, would_block, failed, bytes_of}
use nebula_toolkit.Net.Streams.{then_returns}
use nebula_toolkit.Net.Tcp.{
  TcpHandler, no_packs, take_in, handle_read, read_round, process_readable_event,
}
use nebula_toolkit.Prelude.{
  ℕ, zero, suc, ◌+◌, ◌≤◌, ◌<◌, ◌≡◌, ◌≢◌, ◌∙◌, refl, inl, inr, Bool, true, false, not, ◌&&◌, Option,
  some, List, [], ◌∷◌, Bytes, length, arith, ◌==◌, if◌then◌else◌, Bool-cases,
}
use nebula_toolkit.RingBuffer.Contents.{IsValid}
use nebula_toolkit.RingBuffer.Linear.{commit_write-Holds}
use nebula_toolkit.RingBuffer.{RingBuffer, capacity, get_linear_write_space}
use nebula_toolkit.UnPacker.Safety.{get-Front, get-Keeps}
use nebula_toolkit.UnPacker.Termination.{get_returns}
use nebula_toolkit.UnPacker.{UnPacker, head_tail, head_tail_cb}

-- A valid buffer of capacity `cap`, keys of one byte where they are looked for, and no callbacks.
pub record IsSimple (cap : ℕ) (u : UnPacker) : Type 0 where
  pub valid : IsValid u.ring
  pub size : capacity u.ring ≡ cap
  pub head_one : length u.head_key ≡ 1
  pub tail_one : u.model ≡ head_tail → length u.tail_key ≡ 1
  pub plain : u.model ≢ head_tail_cb

with_ring-IsSimple :
    (cap : ℕ) (u : UnPacker) (r : RingBuffer)
    → IsSimple cap u
    → IsValid r
    → capacity r ≡ cap
    → IsSimple cap (record u { ring = r })
with_ring-IsSimple cap u r s v e = record {
  valid = v;
  size = e;
  head_one = s.head_one;
  tail_one = s.tail_one;
  plain = s.plain;
}

-- Bytes that fit are taken in, and leave a simple unpacker.
take_in_returns :
    (scan_fuel m cap : ℕ) (u : UnPacker) (bs : Bytes)
    → IsSimple cap u
    → cap < scan_fuel
    → length bs ≤ (get_linear_write_space u.ring).1
    → (packs : List Bytes) × (u' : UnPacker) × (take_in scan_fuel
          (suc (cap + m))
          u
          (get_linear_write_space u.ring).0
          bs
        ≡ some (packs, u'))
      × IsSimple cap u'
unfolding take_in
take_in_returns scan_fuel m cap u bs s enough fits =
    let (b, r', copied, committed, h) = commit_write-Holds bs s.valid fits in
    let w = record u { ring = r' } in
    let ws = with_ring-IsSimple cap u r' s h.valid (h.same_capacity ∙ s.size) in
    let (code, packs, u', ran) =
      get_returns scan_fuel m w ws.valid ws.head_one ws.tail_one ws.plain
        (omega (arith, ws.size)) in
    let ran' = rw ws.size at ran in
    let (k, g) = get-Front scan_fuel (suc (cap + m)) w h.valid ran' in
    (
      packs,
      u',
      rw (copied, committed, ran'),
      rw (get-Keeps scan_fuel (suc (cap + m)) w ran') at
          (with_ring-IsSimple cap w u'.ring ws g.valid (g.same_capacity ∙ ws.size)),
    )

module _ (K : Kernel) (law : IsLawful K) (scan_fuel m cap : ℕ) (enough : cap < scan_fuel) where
  -- A round that returns: it ends the loop, or leaves fewer bytes waiting and a simple unpacker.
  abbrev Goes : (K.State → ℕ) → K.State → TcpHandler → Option (Bool × K.State × TcpHandler) → Type 0
  Goes waiting k h r =
      (b : Bool) × (k' : K.State) × (h' : TcpHandler) × (r ≡ some (b, k', h'))
      × (b ≡ true → (waiting k' < waiting k) × IsSimple cap h'.unpacker × (h'.fd ≡ h.fd))

  handle_read-Goes :
      (waiting : K.State → ℕ) (k k1 : K.State) (h : TcpHandler) (received : Received)
      → IsSimple cap h.unpacker
      → length (bytes_of received) ≤ (get_linear_write_space h.unpacker.ring).1
      → (0 < length (bytes_of received) → waiting k1 < waiting k)
      → Goes waiting k h (
          handle_read K scan_fuel
            (suc (cap + m))
            (get_linear_write_space h.unpacker.ring).0
            received
            k1
            h)
  unfolding handle_read
  handle_read-Goes waiting k k1 h (got []) s fits less = (false, k1, _, refl, λ no. cc)
  handle_read-Goes waiting k k1 h (got (c ∷ bs)) s fits less =
      let (packs, u', ran, s') =
        take_in_returns scan_fuel m cap h.unpacker (c ∷ bs) s enough fits in
      (
        true,
        k1,
        record h {
          unpacker = u';
          packs = packs;
          scheduled = if not (no_packs packs) && h.has_cb then h.scheduled + 1 else h.scheduled;
        },
        rw ran refl,
        λ yes. (less (omega arith), s', refl),
      )
  handle_read-Goes waiting k k1 h would_block s fits less = (false, k1, h, refl, λ no. cc)
  handle_read-Goes waiting k k1 h failed s fits less = (false, k1, _, refl, λ no. cc)

  read_round-Goes :
      (waiting : K.State → ℕ) (k : K.State) (h : TcpHandler)
      → IsQuiet K h.fd waiting
      → IsSimple cap h.unpacker
      → Goes waiting k h (read_round K scan_fuel (suc (cap + m)) k h)
  unfolding read_round
  read_round-Goes waiting k h quiet s =
      let room = (get_linear_write_space h.unpacker.ring).1 in
      elim (Bool-cases (room == 0)) [
        | inl full ↦ (false, k, h, rw full refl, λ no. cc)
        | inr free ↦ rw free (
            handle_read-Goes waiting k (K.receive k h.fd room).1 h (K.receive k h.fd room).0 s
              (law.receive-fits k h.fd room) (quiet.waiting-receive k room))
      ]

  -- On a valid buffer, with keys of one byte and no callbacks in the unpacker, and while nothing more
  -- arrives, the loop of `ProcessReadableEvent` returns, with one round more than bytes wait.
  pub process_readable_event_returns :
      (n : ℕ) (waiting : K.State → ℕ) (k : K.State) (h : TcpHandler)
      → IsQuiet K h.fd waiting
      → IsSimple cap h.unpacker
      → waiting k < n
      → (k' : K.State) × (h' : TcpHandler) × (process_readable_event K scan_fuel
            (suc (cap + m))
            n
            k
            h
          ≡ some (k', h'))
  unfolding process_readable_event
  process_readable_event_returns zero waiting k h quiet s p = absurd (omega arith)
  process_readable_event_returns (suc n) waiting k h quiet s p =
      let (b, k1, h1, e, f) = read_round-Goes waiting k h quiet s in
      then_returns b k1 h1 (process_readable_event K scan_fuel (suc (cap + m)) n) e λ more.
        let (less, s', same) = f more in
        process_readable_event_returns n waiting k1 h1 (rw same quiet) s' (omega arith)
