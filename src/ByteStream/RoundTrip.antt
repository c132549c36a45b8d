-- ===== src/ByteStream/RoundTrip.antt =====
-- What is written to a stream is what is read from it.
use mathlib.Core.List.{append-nil, append_assoc}
use nebula_toolkit.ByteStream.{put_bytes, get_bytes, put_all, get_all}
use nebula_toolkit.Prelude.{
  ℕ, zero, suc, ◌+◌, ◌≤◌, ◌≡◌, ◌∙◌, refl, ap, some, List, [], ◌∷◌, ◌++◌, Bytes, length, take, drop,
  arith, ◌>>=◌, length-append, take_all, drop_all,
}
use nebula_toolkit.RingBuffer.Contents.{IsValid, contents, length-contents, Holds}
use nebula_toolkit.RingBuffer.Reading.{read-Holds, read_refused}
use nebula_toolkit.RingBuffer.Writing.{write-Holds, write_refused}
use nebula_toolkit.RingBuffer.{RingBuffer, capacity}

abbrev pub concat : List Bytes → Bytes
concat [] = []
concat (d ∷ ds) = d ++ concat ds

-- variables of the same sizes as the data
abbrev pub SameSizes : List Bytes → List Bytes → Type 0
SameSizes [] [] = Unit {0}
SameSizes [] (y ∷ ys) = ⊥
SameSizes (x ∷ xs) [] = ⊥
SameSizes (x ∷ xs) (y ∷ ys) = (length x ≡ length y) × SameSizes xs ys

unchanged : {r : RingBuffer} → IsValid r → Holds r r (contents r)
unchanged v = record { valid = v; same_capacity = refl; holds = refl }

put_bytes-Holds :
    (r : RingBuffer) (d : Bytes)
    → IsValid r
    → r.len + length d ≤ capacity r
    → (r' : RingBuffer) × (put_bytes r d ≡ some r') × Holds r r' (contents r ++ d)
unfolding put_bytes
put_bytes-Holds r [] v room =
    (r, rw ((write_refused [] 0 v).0 refl), rw (append-nil (contents r)) (unchanged v))
put_bytes-Holds r (b ∷ d) v room =
    let (r', e, h) = write-Holds (b ∷ d) (length (b ∷ d)) v (omega arith) room (omega arith) in
    (r', rw e, rw (take_all (b ∷ d)) at h)

put_all-Holds :
    (r : RingBuffer) (ds : List Bytes)
    → IsValid r
    → r.len + length (concat ds) ≤ capacity r
    → (r' : RingBuffer) × (put_all r ds ≡ some r') × Holds r r' (contents r ++ concat ds)
unfolding put_all
put_all-Holds r [] v room = (r, refl, rw (append-nil (contents r)) (unchanged v))
put_all-Holds r (d ∷ ds) v room =
    let l = length-append d (concat ds) in
    let (r', e, h) = put_bytes-Holds r d v (omega arith) in
    let l' = length-append (contents r) d in
    let held = ap (λ q. length q) h.holds in
    let (r'', e', h') =
      put_all-Holds r' ds h.valid
        (omega (arith, h.same_capacity, l, l', held, length-contents r, length-contents r')) in
    (
      r'',
      rw (e, e'),
      record {
        valid = h'.valid;
        same_capacity = h'.same_capacity ∙ h.same_capacity;
        holds =
            h'.holds ∙ ap (λ q. q ++ concat ds) h.holds ∙ append_assoc (contents r) d (concat ds);
      },
    )

take_front : (n : ℕ) (d q : Bytes) → length d ≡ n → (take n (d ++ q) ≡ d) × (drop n (d ++ q) ≡ q)
take_front n [] q e = ground (arith, e)
take_front zero (x ∷ d) q e = absurd (omega arith)
take_front (suc n) (x ∷ d) q e =
    let (t, u) = take_front n d q (omega arith) in (ap (λ z. x ∷ z) t, u)

get_bytes-Holds :
    (r : RingBuffer) (d y q : Bytes)
    → IsValid r
    → contents r ≡ d ++ q
    → length d ≡ length y
    → (r' : RingBuffer) × (get_bytes r y ≡ some (d, r')) × Holds r r' q
unfolding get_bytes
get_bytes-Holds r [] [] q v holds size = (
  r,
  rw ((read_refused r [] 0).0 refl),
  record { valid = v; same_capacity = refl; holds = holds },
)
get_bytes-Holds r [] (y ∷ ys) q v holds size = absurd (omega arith)
get_bytes-Holds r (b ∷ d) y q v holds size =
    let l = ap (λ z. length z) holds in
    let (r', e, h) =
      read-Holds y (length y) v (omega arith)
        (omega (arith, l, length-append (b ∷ d) q, length-contents r)) (omega arith) in
    let (t, u) = take_front (length y) (b ∷ d) q size in
    let got : take (length y) (contents r) ++ drop (length y) y ≡ b ∷ d =
      rw (holds, t, drop_all y) (append-nil (b ∷ d)) in
    (
      r',
      rw (e, got),
      record { valid = h.valid; same_capacity = h.same_capacity; holds = h.holds ∙ rw holds u },
    )

get_all-Holds :
    (r : RingBuffer) (ds ys : List Bytes)
    → IsValid r
    → contents r ≡ concat ds
    → SameSizes ds ys
    → (r' : RingBuffer) × (get_all r ys ≡ some (ds, r')) × Holds r r' []
unfolding get_all
get_all-Holds r [] [] v holds sizes =
    (r, refl, record { valid = v; same_capacity = refl; holds = holds })
get_all-Holds r [] (y ∷ ys) v holds sizes = absurd sizes
get_all-Holds r (d ∷ ds) [] v holds sizes = absurd sizes
get_all-Holds r (d ∷ ds) (y ∷ ys) v holds sizes =
    let (r', e, h) = get_bytes-Holds r d y (concat ds) v holds sizes.0 in
    let (r'', e', h') = get_all-Holds r' ds ys h.valid h.holds sizes.1 in
    (
      r'',
      rw (e, e'),
      record {
        valid = h'.valid;
        same_capacity = h'.same_capacity ∙ h.same_capacity;
        holds = h'.holds;
      },
    )

-- Values that fit together into an empty stream, written one after the other and read in the same order
-- into variables of the same sizes, are read as they were written, and leave the stream empty.
pub get_all-put_all :
    {r : RingBuffer} (ds ys : List Bytes)
    → IsValid r
    → r.len ≡ 0
    → length (concat ds) ≤ capacity r
    → SameSizes ds ys
    → (r' : RingBuffer) × ((do s ← put_all r ds; get_all s ys) ≡ some (ds, r')) × Holds r r' []
get_all-put_all {r} ds ys v nothing room sizes =
    let (s, e, h) = put_all-Holds r ds v (omega arith) in
    let none_held : contents r ≡ [] = rw nothing refl in
    let (r', e', h') =
      get_all-Holds s ds ys h.valid (h.holds ∙ ap (λ q. q ++ concat ds) none_held) sizes in
    (
      r',
      rw (e, e'),
      record {
        valid = h'.valid;
        same_capacity = h'.same_capacity ∙ h.same_capacity;
        holds = h'.holds;
      },
    )
