-- ===== src/Logger/Rounds.antt =====
-- Rounds of the loop of `CustThreadProc`, from the ring buffer into the log files.
use nebula_toolkit.Logger.{Sinks, file_write}
use nebula_toolkit.Logger.Files.{FileManager, rotate_file_if_needed, append, write_block}
use nebula_toolkit.Logger.Files.Bounds.{
  CanOpen, IsBounded, log_of, write_block-IsBounded, rotate_returns,
}
use nebula_toolkit.Logger.Pipeline.{ReadBlock, read_block, Moved, unmoved}
use nebula_toolkit.Prelude.{
  ℕ, zero, suc, ◌+◌, ◌-◌, ◌*◌, ◌^◌, ◌≤◌, ◌<◌, ◌≡◌, ◌∙◌, refl, sym, ap, true, false, Option, some,
  List, [], ◌∷◌, ◌++◌, Bytes, length, take, drop, min, arith, ltb, ◌==◌, if◌then◌else◌, ◌>>=◌,
  Bool-cases, inl, inr, length-take, length-drop,
}
use nebula_toolkit.RingBuffer.Contents.{IsValid, contents, length-contents}
use nebula_toolkit.RingBuffer.{RingBuffer, read_vector, available_to_read, is_empty}
use mathlib.Core.List.{append-nil, append_assoc}

pub append-take-drop : (n : ℕ) (xs : Bytes) → take n xs ++ drop n xs ≡ xs
append-take-drop zero xs = refl
append-take-drop (suc n) [] = refl
append-take-drop (suc n) (x ∷ xs) = ap (λ q. x ∷ q) (append-take-drop n xs)

-- A batch less, or what is left, and then `k` batches less.
batches_left : (held batch k : ℕ) → held - min held batch - k * batch ≡ held - suc k * batch
batches_left held batch k = omega arith

module _ {Disk : Type 0} (open_at : Disk → Bytes → Option ℕ × Disk) (log_directory : Bytes)
    (limit batch : ℕ) where
  -- a round that begins with the files `m` on the day `date`, under the limit and the batch size
  unfoldable pub cust_round :
      Disk → FileManager → Sinks → Bytes → Option (Disk × FileManager × Sinks)
  cust_round d m s date = if is_empty s.ring then some (d, m, s) else do
    let n = min (available_to_read s.ring) batch
    if n == 0 then some (d, m, s) else do
      (_, v, r') ←
          read_vector s.ring
            (record { elem_size = 1; count = length s.read_buffer; bytes = s.read_buffer }) n
      (d', m') ← rotate_file_if_needed open_at log_directory d m date limit
      w ← file_write [] v.bytes n
      some (
        d',
        record m' { file = append open_at log_directory m'.file w },
        record s { ring = r'; read_buffer = v.bytes; written = s.written ++ w },
      )

  -- rounds one after the other, each on its day
  unfoldable pub cust_rounds :
      Disk → FileManager → Sinks → List Bytes → Option (Disk × FileManager × Sinks)
  cust_rounds d m s [] = some (d, m, s)
  cust_rounds d m s (date ∷ dates) = do
    (d', m', s') ← cust_round d m s date
    cust_rounds d' m' s' dates

  -- what a round leaves of the files `m` and the buffer `s`
  record Carried (n : ℕ) (m : FileManager) (s : Sinks) (m' : FileManager) (s' : Sinks)
      : Type 0 where
    bounded : IsBounded (limit + batch) m'
    moved : Moved n s s'
    log : log_of m' ≡ log_of m ++ take n (contents s.ring)

  round_idle :
      (d : Disk) (m : FileManager) (s : Sinks) (date : Bytes)
      → (min s.ring.len batch == 0) ≡ true
      → cust_round d m s date ≡ some (d, m, s)
  unfolding cust_round
  round_idle d m s date nothing = elim (Bool-cases (s.ring.len == 0)) [
    | inl empty ↦ rw empty refl
    | inr held ↦ rw (held, nothing) refl
  ]

  round_busy :
      (d d1 : Disk) (m m1 : FileManager) (s : Sinks) (date bs : Bytes) (r' : RingBuffer) (n : ℕ)
      → min s.ring.len batch ≡ n
      → 0 < n
      → ReadBlock n s bs r'
      → n ≤ length bs
      → rotate_file_if_needed open_at log_directory d m date limit ≡ some (d1, m1)
      → let w = take n (contents s.ring) in
        cust_round d m s date
        ≡ some (
          d1,
          record m1 { file = append open_at log_directory m1.file w },
          record s { ring = r'; read_buffer = bs; written = s.written ++ w },
        )
  unfolding cust_round
  round_busy d d1 m m1 s date bs r' n e pos q fits rotated =
      let busy : (s.ring.len == 0) ≡ false = ground arith in
      let some_bytes : (n == 0) ≡ false = ground arith in
      let inside : ltb (length bs) n ≡ false = ground arith in
      rw (busy, e, some_bytes, q.runs, rotated, inside, q.in_front) refl

  module _ {usable : Disk → Type 0} (can : CanOpen open_at usable)
      (small : limit < 2 ^ 64 - 1) where
    written_out :
        (d d1 : Disk) (m m1 : FileManager) (date w : Bytes)
        → length w ≤ batch
        → IsBounded (limit + batch) m
        → rotate_file_if_needed open_at log_directory d m date limit ≡ some (d1, m1)
        → let m' = record m1 { file = append open_at log_directory m1.file w } in
          IsBounded (limit + batch) m' × (log_of m' ≡ log_of m ++ w)
    written_out d d1 m m1 date w fits b rotated =
        let ran : write_block open_at log_directory d m date limit w
            ≡ some (d1, record m1 { file = append open_at log_directory m1.file w }) =
          unfold write_block in (rw rotated refl) in
        write_block-IsBounded open_at log_directory (limit + batch) limit batch d m date w small
          (omega arith) fits b ran

    cust_round-Carried :
        (d : Disk) (m : FileManager) (s : Sinks) (date : Bytes)
        → usable d
        → IsValid s.ring
        → batch ≤ length s.read_buffer
        → IsBounded (limit + batch) m
        → (d' : Disk) × (m' : FileManager) × (s' : Sinks) × (cust_round d m s date
            ≡ some (d', m', s'))
          × usable d'
          × Carried (min s.ring.len batch) m s m' s'
    cust_round-Carried d m s date ready v room b = elim (Bool-cases (min s.ring.len batch == 0)) [
      | inl nothing ↦
          let n : min s.ring.len batch ≡ 0 = ground arith in
          (
            d,
            m,
            s,
            round_idle d m s date nothing,
            ready,
            rw n (record { bounded = b; moved = unmoved s v; log = sym (append-nil (log_of m)) }),
          )
      | inr some_bytes ↦
          let n = min s.ring.len batch in
          let pos : 0 < n = ground arith in
          let (bs, r', q) = read_block n s v pos (omega arith) (omega arith) in
          let (d1, m1, rotated, ready') =
            rotate_returns open_at log_directory can d m date limit ready in
          let (b', log) =
            written_out d d1 m m1 date (take n (contents s.ring))
              (omega (arith, length-take n (contents s.ring))) b rotated in
          (
            d1,
            _,
            _,
            round_busy d d1 m m1 s date bs r' n refl pos q (omega (arith, q.same_block)) rotated,
            ready',
            record {
              bounded = b';
              moved = record {
                ring = q.ring;
                written = refl;
                printed = refl;
                same_block = q.same_block;
              };
              log = log;
            },
          )
    ]

    -- Rounds of the consumer, with a batch no larger than its block, on a disk on which the files can be
    -- opened for appending, whatever they hold: they return, and no file gets more than the limit and one
    -- batch from when it is opened to when it is closed. What was appended to the files and behind it in
    -- the ring buffer is there in the same order, and each round takes a batch of it, or what is left, from
    -- the buffer to the files: enough rounds bring all of it into the files.
    pub cust_rounds-drain :
        (d : Disk) (m : FileManager) (s : Sinks) (dates : List Bytes)
        → usable d
        → IsValid s.ring
        → batch ≤ length s.read_buffer
        → IsBounded (limit + batch) m
        → (d' : Disk) × (m' : FileManager) × (s' : Sinks) × (cust_rounds d m s dates
            ≡ some (d', m', s'))
          × IsBounded (limit + batch) m'
          × IsValid s'.ring
          × (log_of m' ++ contents s'.ring ≡ log_of m ++ contents s.ring)
          × (s'.ring.len ≡ s.ring.len - length dates * batch)
    unfolding cust_rounds
    cust_rounds-drain d m s [] ready v room b = (d, m, s, refl, b, v, refl, omega arith)
    cust_rounds-drain d m s (date ∷ dates) ready v room b =
        let n = min s.ring.len batch in
        let (d1, m1, s1, ran, ready', c) = cust_round-Carried d m s date ready v room b in
        let ring = c.moved.ring in
        let (d2, m2, s2, ran', b', v', same, left) =
          cust_rounds-drain d1 m1 s1 dates ready' ring.valid (omega (arith, c.moved.same_block))
            c.bounded in
        let step : log_of m1 ++ contents s1.ring ≡ log_of m ++ contents s.ring =
          rw (c.log, ring.holds)
            (append_assoc (log_of m) (take n (contents s.ring)) (drop n (contents s.ring))
              ∙ ap (λ q. log_of m ++ q) (append-take-drop n (contents s.ring))) in
        let held : s1.ring.len ≡ s.ring.len - n = omega (
          arith,
          length-contents s1.ring,
          ap length ring.holds,
          length-drop n (contents s.ring),
          length-contents s.ring,
        ) in
        (
          d2,
          m2,
          s2,
          rw ran ran',
          b',
          v',
          same ∙ step,
          left
              ∙ ap (λ l. l - length dates * batch) held
              ∙ batches_left s.ring.len batch (length dates),
        )
