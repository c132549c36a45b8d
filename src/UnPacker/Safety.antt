-- ===== src/UnPacker/Safety.antt =====
-- What holds of `Get` in every mode and on any bytes, wrapped or not.
use nebula_toolkit.Prelude.{
  ℕ, zero, suc, ◌+◌, ◌≡◌, ◌∙◌, ap, refl, Bool, true, false, not, Option, none, some, List, [], ◌∷◌,
  ◌++◌, Bytes, length, drop, drop-drop, arith, ltb, ◌==◌, if◌then◌else◌, ◌>>=◌, >>=-eq-some,
  Bool-cases, inl, inr, add_size, sub_size, mod_size,
}
use nebula_toolkit.RingBuffer.Contents.{IsValid, contents, Holds}
use nebula_toolkit.RingBuffer.Linear.{commit_read-Holds, commit_read_refused}
use nebula_toolkit.RingBuffer.{RingBuffer, capacity, commit_read_size}
use nebula_toolkit.UnPacker.{
  UnPacker, Progress, DataSzCb, CheckValidCb, deliver, copy_packet, find_key, head_only_round,
  head_tail_round, callback_round, check_packet, sized_packet, malformed, loop, process, run_mode,
  get_pack, get, UnpackerModel, accepted, k_none, head_only, head_tail, head_tail_cb,
}

-- `P` holds of the state after a round that goes on.
data Goes (P : Progress → Type 0) : Option (Option Progress) → Type 0 where
  stuck : Goes P none
  broke : Goes P (some none)
  goes : {s : Progress} → P s → Goes P (some (some s))

module _ (P : Progress → Type 0) where
  Goes-bind :
      {A : Type 0} (m : Option A) (k : A → Option (Option Progress))
      → ((a : A) → m ≡ some a → Goes P (k a))
      → Goes P (m >>= k)
  Goes-bind none k h = stuck
  Goes-bind (some a) k h = h a refl

  Goes-if :
      (b : Bool) (x y : Option (Option Progress))
      → (b ≡ true → Goes P x)
      → (b ≡ false → Goes P y)
      → Goes P (if b then x else y)
  Goes-if true x y h k = h refl
  Goes-if false x y h k = k refl

  Goes-eq : {m : Option (Option Progress)} {s : Progress} → Goes P m → m ≡ some (some s) → P s
  Goes-eq stuck e = cc
  Goes-eq broke e = cc
  Goes-eq {s} (goes {s = t} h) e = rw (some-inj e) at h
    where
      some-inj : some (some t) ≡ some (some s) → t ≡ s
      some-inj q = cc

  after_round :
      (b : Bool) (m : Option (Option Progress)) (s s' : Progress)
      (rest : Progress → Option Progress)
      → P s
      → Goes P m
      → ((t : Progress) → rest t ≡ some s' → P t → P s')
      → (elim b [
        | false ↦ some s
        | true ↦ elim m [ none ↦ none | some none ↦ some s | some (some t) ↦ rest t ]
      ])
        ≡ some s'
      → P s'
  after_round false m s s' rest p g k e = Goes-eq (goes p) (ap some e)
  after_round true none s s' rest p g k e = cc
  after_round true (some none) s s' rest p g k e = Goes-eq (goes p) (ap some e)
  after_round true (some (some t)) s s' rest p g k e = k t e (Goes-eq g refl)

  -- What every round keeps holds when the loop ends.
  loop_inv :
      (round : Progress → Option (Option Progress))
      → ((s : Progress) → P s → Goes P (round s))
      → (n total : ℕ) (s s' : Progress) → loop round n total s ≡ some s'
      → P s
      → P s'
  unfolding loop
  loop_inv round keep zero total s s' e p = cc
  loop_inv round keep (suc n) total s s' e p =
      after_round (ltb s.current_pos total) (round s) s s' (loop round n total) p (keep s p)
        (λ t q h. loop_inv round keep n total t s' q h) e

-- The bytes left are those at the start but for some in front, and the buffer is in order.
abbrev Front : RingBuffer → Progress → Type 0
Front r s = (k : ℕ) × Holds r s.ring (drop k (contents r))

deliver-Front :
    (r : RingBuffer) (s : Progress) (packet : Bytes) (pos size : ℕ)
    → Front r s
    → Goes (Front r) (deliver s packet pos size)
deliver-Front r s packet pos size (k, h) = elim (Bool-cases (ltb s.ring.len size)) [
  | inl short ↦ rw (commit_read_refused s.ring size (ground arith)) (goes (k, h))
  | inr enough ↦
      let (runs, g) = commit_read-Holds size h.valid (ground arith) in
      rw runs (
        goes (
          k + size,
          record {
            valid = g.valid;
            same_capacity = g.same_capacity ∙ h.same_capacity;
            holds = g.holds ∙ (rw (h.holds, drop-drop));
          },
        ))
]

module _ (fuel : ℕ) (u : UnPacker) (r : RingBuffer) (s : Progress) (front : Front r s) where
  head_only-Front : Goes (Front r) (head_only_round fuel u s)
  unfolding head_only_round
  head_only-Front = Goes-bind (Front r) (find_key fuel s.ring u.head_key s.current_pos) _ λ h _.
      Goes-if (Front r) (h == capacity s.ring) _ _ (λ _. broke)
        λ _.
          Goes-bind (Front r) (find_key fuel s.ring u.head_key (add_size h (length u.head_key))) _
            λ n _.
              Goes-if (Front r) (n == capacity s.ring) _ _ (λ _. broke)
                λ _. Goes-bind (Front r) (copy_packet s.ring h (sub_size n h)) _ λ packet _.
                  deliver-Front r s packet (add_size h (sub_size n h)) (sub_size n h) front

  head_tail-Front : Goes (Front r) (head_tail_round fuel u s)
  unfolding head_tail_round
  head_tail-Front = Goes-bind (Front r) (find_key fuel s.ring u.head_key s.current_pos) _ λ h _.
      Goes-if (Front r) (h == capacity s.ring) _ _ (λ _. broke)
        λ _.
          Goes-bind (Front r) (find_key fuel s.ring u.tail_key (add_size h (length u.head_key))) _
            λ t _.
              Goes-if (Front r) (t == capacity s.ring) _ _ (λ _. broke)
                λ _.
                  let end = add_size t (length u.tail_key) in
                  Goes-bind (Front r) (copy_packet s.ring h (sub_size end h)) _
                    λ packet _. deliver-Front r s packet end (sub_size end h) front

-- A round of callback mode keeps what skipping a byte and delivering a checked packet keep.
module _ (P : Progress → Type 0) (fuel : ℕ) (u : UnPacker) (cb : DataSzCb) (total : ℕ)
    (s : Progress) (skips : (pos : ℕ) → P (record s { current_pos = pos }))
    (delivers : (packet : Bytes) (pos size : ℕ)
      → accepted u.check_sz_cb packet ≡ true
      → Goes P (deliver s packet pos size)) where
  check_packet-Goes : (h size : ℕ) → Goes P (check_packet fuel u s h size)
  unfolding check_packet
  check_packet-Goes h size = Goes-bind P (copy_packet s.ring h size) _ λ packet _.
      Goes-if P (accepted u.check_sz_cb packet) (deliver s packet (add_size h size) size) _
        (λ ok. delivers packet (add_size h size) size ok) λ _. goes (skips (add_size h 1))

  sized_packet-Goes : (h hs ds ts : ℕ) → Goes P (sized_packet fuel u total s h hs ds ts)
  unfolding sized_packet
  sized_packet-Goes h hs ds ts =
      let size = add_size (add_size hs ds) ts in
      let tail_at = add_size (add_size h hs) ds in
      let skipped = goes {s = record s { current_pos = add_size h 1 }} (skips (add_size h 1)) in
      Goes-if P (malformed fuel u total h hs ts size) _ _ (λ _. skipped)
        λ _.
          Goes-bind P (find_key fuel s.ring u.tail_key tail_at) _
            λ t _. Goes-if P (not (t == tail_at)) _ _ (λ _. skipped) λ _. check_packet-Goes h size

  callback-Goes : Goes P (callback_round fuel u cb total s)
  unfolding callback_round
  callback-Goes = Goes-bind P (find_key fuel s.ring u.head_key s.current_pos) _ λ h _.
      Goes-if P (h == capacity s.ring) _ _ (λ _. broke)
        λ _. Goes-bind P (mod_size (add_size s.ring.read_index h) (capacity s.ring)) _ λ at _.
          let sizes = cb (drop at s.ring.buffer) in sized_packet-Goes h sizes.0 sizes.1 sizes.2

-- the state in which a pass over the readable bytes begins
abbrev start : UnPacker → Progress
start u = record { ring = u.ring; current_pos = 0; packs = [] }

-- What every round of a pass keeps holds of the packets and the buffer that it returns.
process_inv :
    (P : Progress → Type 0) (round : Progress → Option (Option Progress)) (n : ℕ) (u : UnPacker)
    {code : ℕ} {packs : List Bytes} {u' : UnPacker}
    → ((s : Progress) → P s → Goes P (round s))
    → process round n u [] ≡ some (code, packs, u')
    → P (start u)
    → (s : Progress) × P s × (s.packs ≡ packs) × (s.ring ≡ u'.ring)
process_inv P round n u keep e p =
    let (s, ends, eq) = >>=-eq-some (loop round n u.ring.len (start u)) _ e in
    (
      s,
      loop_inv P round keep n u.ring.len (start u) s ends p,
      ground (arith, eq),
      ground (arith, eq),
    )

unchanged : {r : RingBuffer} → IsValid r → Holds r r (contents r)
unchanged v = record { valid = v; same_capacity = refl; holds = refl }

pass-Front :
    (round : Progress → Option (Option Progress)) (n : ℕ) (u : UnPacker) {code : ℕ}
    {packs : List Bytes} {u' : UnPacker}
    → IsValid u.ring
    → ((s : Progress) → Front u.ring s → Goes (Front u.ring) (round s))
    → process round n u [] ≡ some (code, packs, u')
    → (k : ℕ) × Holds u.ring u'.ring (drop k (contents u.ring))
pass-Front round n u v keep e =
    let (s, (k, h), _, same) = process_inv (Front u.ring) round n u keep e (0, unchanged v) in
    (k, rw same at h)

run_mode-Front :
    (fuel rounds : ℕ) (m : UnpackerModel) (dc : Option DataSzCb) (u : UnPacker) {code : ℕ}
    {packs : List Bytes} {u' : UnPacker}
    → IsValid u.ring
    → run_mode fuel rounds m dc u [] ≡ some (code, packs, u')
    → (k : ℕ) × Holds u.ring u'.ring (drop k (contents u.ring))
unfolding run_mode
run_mode-Front fuel rounds k_none dc u {u' = u'} v e =
    let same : u.ring ≡ u'.ring = ground arith in (0, rw (← same) (unchanged v))
run_mode-Front fuel rounds head_only dc u v e =
    pass-Front (head_only_round fuel u) rounds u v (λ s. head_only-Front fuel u u.ring s) e
run_mode-Front fuel rounds head_tail dc u v e =
    pass-Front (head_tail_round fuel u) rounds u v (λ s. head_tail-Front fuel u u.ring s) e
run_mode-Front fuel rounds head_tail_cb none u v e = cc
run_mode-Front fuel rounds head_tail_cb (some cb) u v e =
    pass-Front (callback_round fuel u cb u.ring.len) rounds u v
      (λ s f.
        callback-Goes (Front u.ring) fuel u cb u.ring.len s (λ pos. f)
          (λ packet pos size _. deliver-Front u.ring s packet pos size f))
      e

-- `Get` in any mode, on any valid buffer, with any keys and callbacks: what it returns within its fuel
-- leaves a valid buffer of the same capacity, whose bytes are those held before but for some in
-- front. No byte is made up, moved or lost behind.
pub get-Front :
    (fuel rounds : ℕ) (u : UnPacker) {code : ℕ} {packs : List Bytes} {u' : UnPacker}
    → IsValid u.ring
    → get fuel rounds u ≡ some (code, packs, u')
    → (k : ℕ) × Holds u.ring u'.ring (drop k (contents u.ring))
unfolding get get_pack
get-Front fuel rounds u v e = run_mode-Front fuel rounds u.model u.data_sz_cb u v e

process-Keeps :
    (round : Progress → Option (Option Progress)) (n : ℕ) (u : UnPacker) {code : ℕ}
    {packs : List Bytes} {u' : UnPacker}
    → process round n u [] ≡ some (code, packs, u')
    → record u { ring = u'.ring } ≡ u'
process-Keeps round n u e =
    let (s, ends, eq) = >>=-eq-some (loop round n u.ring.len (start u)) _ e in cc

-- `Get` changes the buffer alone: keys, callbacks and mode stay.
pub get-Keeps :
    (fuel rounds : ℕ) (u : UnPacker) {code : ℕ} {packs : List Bytes} {u' : UnPacker}
    → get fuel rounds u ≡ some (code, packs, u')
    → record u { ring = u'.ring } ≡ u'
unfolding get get_pack run_mode
get-Keeps fuel rounds u {code} {packs} {u'} e = by_mode u.model u.data_sz_cb e
  where
    by_mode :
        (m : UnpackerModel) (dc : Option DataSzCb)
        → run_mode fuel rounds m dc u [] ≡ some (code, packs, u')
        → record u { ring = u'.ring } ≡ u'
    by_mode k_none dc q = cc
    by_mode head_only dc q = process-Keeps (head_only_round fuel u) rounds u q
    by_mode head_tail dc q = process-Keeps (head_tail_round fuel u) rounds u q
    by_mode head_tail_cb none q = cc
    by_mode head_tail_cb (some cb) q =
        process-Keeps (callback_round fuel u cb u.ring.len) rounds u q

-- every packet passes the check
abbrev pub AllPass : CheckValidCb → List Bytes → Type 0
AllPass check [] = Unit {0}
AllPass check (p ∷ packs) = (check p ≡ true) × AllPass check packs

AllPass-concat :
    (check : CheckValidCb) (packs : List Bytes) (p : Bytes)
    → AllPass check packs
    → check p ≡ true
    → AllPass check (packs ++ p ∷ [])
AllPass-concat check [] p h ok = (ok, tt)
AllPass-concat check (q ∷ packs) p h ok = (h.0, AllPass-concat check packs p h.1 ok)

deliver-AllPass :
    (check : CheckValidCb) (s : Progress) (packet : Bytes) (pos size : ℕ)
    → AllPass check s.packs
    → check packet ≡ true
    → Goes (λ t. AllPass check t.packs) (deliver s packet pos size)
deliver-AllPass check s packet pos size h ok =
    Goes-bind (λ t. AllPass check t.packs) (commit_read_size s.ring size) _
      λ a _. goes (AllPass-concat check s.packs packet h ok)

-- In callback mode every packet that `Get` delivers has passed the validity callback, on any bytes
-- and whatever sizes the size callback gives.
pub get-AllPass :
    (fuel rounds : ℕ) (u : UnPacker) (cb : DataSzCb) (check : CheckValidCb) {code : ℕ}
    {packs : List Bytes} {u' : UnPacker}
    → u.model ≡ head_tail_cb
    → u.data_sz_cb ≡ some cb
    → u.check_sz_cb ≡ some check
    → get fuel rounds u ≡ some (code, packs, u')
    → AllPass check packs
unfolding get get_pack run_mode
get-AllPass fuel rounds u cb check {code} {packs} {u'} mode sizes checks e =
    let pass : process (callback_round fuel u cb u.ring.len) rounds u [] ≡ some (code, packs, u') =
      ground (arith, e, mode, sizes) in
    let (s, h, same, _) =
      process_inv (λ t. AllPass check t.packs) (callback_round fuel u cb u.ring.len) rounds u
        (λ t p.
          callback-Goes (λ x. AllPass check x.packs) fuel u cb u.ring.len t (λ pos. p)
            λ packet pos size ok. deliver-AllPass check t packet pos size p (rw checks at ok))
        pass tt in
    rw same at h
