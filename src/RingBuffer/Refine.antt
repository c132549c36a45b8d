-- ===== src/RingBuffer/Refine.antt =====
-- A ring buffer behaves as the bounded queue of the bytes that it holds.
use mathlib.Core.List.{append-nil}
use native.Mathlib.Nat.{mod-eq_of_lt}
use nebula_toolkit.ByteQueue
use nebula_toolkit.ByteQueue.{Op, put, get, look, reset, Reply}
use nebula_toolkit.Prelude.{
  ℕ, ◌+◌, ◌≡◌, refl, List, [], ◌∷◌, ◌++◌, Option, some, inl, inr, Bool-cases, arith, Bytes, length,
  take, drop, take_all, drop_all, replicate, length-replicate, ltb, ◌==◌, if◌then◌else◌, ◌>>=◌,
}
use nebula_toolkit.RingBuffer.Contents.{IsValid, contents, length-contents, Holds}
use nebula_toolkit.RingBuffer.Reading.{read-Holds, read_refused, peek_lem}
use nebula_toolkit.RingBuffer.Writing.{write-Holds, write_refused}
use nebula_toolkit.RingBuffer.{RingBuffer, capacity, write, read, peek, clear}

-- One request to a ring buffer; a read goes into a block of zeros, a peek into an empty vector.
pub step : RingBuffer → Op → Option (Reply × RingBuffer)
step r (put bs) = do (code, r') ← write r bs (length bs); some ((code, []), r')
step r (get n) = do (code, d, r') ← read r (replicate n 0) n; some ((code, d), r')
step r (look n) = do (code, d) ← peek r [] n; some ((code, d), r)
step r reset = let (done, r') = clear r in some ((if done then 1 else 0, []), r')

unfoldable pub run : RingBuffer → List Op → Option (List Reply)
unfolding step
run r [] = some []
run r (o ∷ ops) = do (reply, r') ← step r o; replies ← run r' ops; some (reply ∷ replies)

-- `m` gives the reply and leaves a ring that holds the bytes that a step of the queue gives.
abbrev Agrees : RingBuffer → Option (Reply × RingBuffer) → Reply × Bytes → Type 0
Agrees r m (reply, q) = (r' : RingBuffer) × (m ≡ some (reply, r')) × Holds r r' q

unchanged : {r : RingBuffer} → IsValid r → Holds r r (contents r)
unchanged v = record { valid = v; same_capacity = refl; holds = refl }

put-Agrees :
    {r : RingBuffer} (bs : Bytes)
    → IsValid r
    → Agrees r (step r (put bs)) (ByteQueue.step (capacity r) (contents r) (put bs))
unfolding step ByteQueue.step
put-Agrees {r} bs v = elim (Bool-cases (length bs == 0)) [
  | inl nothing ↦ rw nothing (r, ground (arith, (write_refused bs (length bs) v).0), unchanged v)
  | inr some_bytes ↦
      rw (some_bytes, length-contents r)
        (elim (Bool-cases (ltb (capacity r) (r.len + length bs))) [
          | inl full ↦ rw full (r, ground (arith, (write_refused bs (length bs) v).1), unchanged v)
          | inr fits ↦
              let (r', e, h) =
                write-Holds bs (length bs) v (ground arith) (ground arith) (omega arith) in
              rw fits (r', rw e, rw (take_all bs) at h)
        ])
]

-- a full read into a block of zeros leaves none of them
filled : (q : Bytes) (n : ℕ) → q ++ drop n (replicate n 0) ≡ q
filled q n =
    rw (rw (length-replicate {A = ℕ} n 0) at (drop_all (replicate {A = ℕ} n 0))) (append-nil q)

get-Agrees :
    {r : RingBuffer} (n : ℕ)
    → IsValid r
    → Agrees r (step r (get n)) (ByteQueue.step (capacity r) (contents r) (get n))
unfolding step ByteQueue.step
get-Agrees {r} n v = elim (Bool-cases (n == 0)) [
  | inl nothing ↦
      let e : n ≡ 0 = ground arith in rw e (r, rw ((read_refused r [] 0).0 refl), unchanged v)
  | inr some_bytes ↦
      rw (some_bytes, length-contents r)
        (elim (Bool-cases (ltb r.len n)) [
          | inl short ↦
              rw short (r, rw ((read_refused r (replicate n 0) n).1 (ground arith)), unchanged v)
          | inr enough ↦
              let (r', e, h) =
                read-Holds (replicate n 0) n v (ground arith) (ground arith)
                  (omega (arith, length-replicate {A = ℕ} n 0)) in
              rw enough (r', rw (e, filled (take n (contents r)) n), h)
        ])
]

look-Agrees :
    {r : RingBuffer} (n : ℕ)
    → IsValid r
    → Agrees r (step r (look n)) (ByteQueue.step (capacity r) (contents r) (look n))
unfolding step ByteQueue.step
look-Agrees {r} n v = elim (Bool-cases (n == 0)) [
  | inl nothing ↦ rw nothing (r, rw (peek_lem [] n v, nothing), unchanged v)
  | inr some_bytes ↦
      rw (some_bytes, length-contents r)
        (elim (Bool-cases (ltb r.len n)) [
          | inl short ↦ rw short (r, rw (peek_lem [] n v, some_bytes, short), unchanged v)
          | inr enough ↦ rw enough (r, rw (peek_lem [] n v, some_bytes, enough), unchanged v)
        ])
]

reset-Agrees :
    {r : RingBuffer}
    → IsValid r
    → Agrees r (step r reset) (ByteQueue.step (capacity r) (contents r) reset)
unfolding step ByteQueue.step clear
reset-Agrees {r} v = (
  record r { read_index = 0; write_index = 0; len = 0 },
  refl,
  record {
    valid = ground (arith, mod-eq_of_lt {n = 0} {m = capacity r});
    same_capacity = refl;
    holds = refl;
  },
)

step-Agrees :
    {r : RingBuffer} (o : Op)
    → IsValid r
    → Agrees r (step r o) (ByteQueue.step (capacity r) (contents r) o)
step-Agrees (put bs) v = put-Agrees bs v
step-Agrees (get n) v = get-Agrees n v
step-Agrees (look n) v = look-Agrees n v
step-Agrees reset v = reset-Agrees v

-- Whatever requests are made of a valid buffer one after the other, none runs into undefined
-- behaviour, and the replies are those of the bounded queue of the same capacity that holds the same
-- bytes.
pub run_refines :
    (ops : List Op) {r : RingBuffer}
    → IsValid r
    → run r ops ≡ some (ByteQueue.run (capacity r) (contents r) ops)
unfolding run ByteQueue.run
run_refines [] v = refl
run_refines (o ∷ ops) {r} v =
    let (r', e, h) = step-Agrees o v in
    rw e (rw (run_refines ops h.valid, h.same_capacity, h.holds))
