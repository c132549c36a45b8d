-- ===== src/Net/Streams.antt =====
-- What the handlers' loops make of the bytes that they read.
use mathlib.Core.List.{append-nil, append_assoc}
use nebula_toolkit.Net.{Kernel}
use nebula_toolkit.Prelude.{
  ℕ, zero, suc, ◌+◌, ◌≡◌, ◌∙◌, refl, sym, ap, Bool, true, false, Option, none, some, List, [], ◌∷◌,
  ◌++◌, Bytes, drop, ◌>>=◌, drop-drop,
}
use nebula_toolkit.RingBuffer.Contents.{IsValid, contents, Holds}
use nebula_toolkit.RingBuffer.{RingBuffer}
use nebula_toolkit.UnPacker.Safety.{get-Front}
use nebula_toolkit.UnPacker.{UnPacker, get}

-- `r'` is in order, and holds the end of the bytes of `r` followed by `bs`.
abbrev pub Extends : RingBuffer → RingBuffer → Bytes → Type 0
Extends r r' bs = (k : ℕ) × Holds r r' (drop k (contents r ++ bs))

drop-append : (k : ℕ) (xs ys : Bytes) → (j : ℕ) × (drop k xs ++ ys ≡ drop j (xs ++ ys))
drop-append zero xs ys = (0, refl)
drop-append (suc k) [] ys = (0, refl)
drop-append (suc k) (x ∷ xs) ys = let (j, e) = drop-append k xs ys in (suc j, e)

Extends-none : {r : RingBuffer} → IsValid r → Extends r r []
Extends-none {r} v =
    (0, record { valid = v; same_capacity = refl; holds = sym (append-nil (contents r)) })

Extends-then :
    {r r' r'' : RingBuffer} (bs cs : Bytes)
    → Extends r r' bs
    → Extends r' r'' cs
    → Extends r r'' (bs ++ cs)
Extends-then {r} bs cs (k, h) (k', h') =
    let (j, e) = drop-append k (contents r ++ bs) cs in
    (
      j + k',
      record {
        valid = h'.valid;
        same_capacity = h'.same_capacity ∙ h.same_capacity;
        holds =
            h'.holds
            ∙ (rw (h.holds, e, drop-drop))
            ∙ ap (λ q. drop (j + k') q) (append_assoc (contents r) bs cs);
      },
    )

-- `Get` on a buffer that holds `q`
pub get-Extends :
    (scan_fuel rounds : ℕ) (u : UnPacker) (r : RingBuffer) (bs : Bytes) {code : ℕ}
    {packs : List Bytes} {w : UnPacker}
    → Holds u.ring r (contents u.ring ++ bs)
    → get scan_fuel rounds (record u { ring = r }) ≡ some (code, packs, w)
    → Extends u.ring w.ring bs
get-Extends scan_fuel rounds u r bs h ran =
    let (k, g) = get-Front scan_fuel rounds (record u { ring = r }) h.valid ran in
    (
      k,
      record {
        valid = g.valid;
        same_capacity = g.same_capacity ∙ h.same_capacity;
        holds = rw h.holds at g.holds;
      },
    )

-- `P` holds of what a round leaves.
pub data Keeps {S H : Type 0} (P : S → H → Type 0) : Option (Bool × S × H) → Type 0 where
  stuck : Keeps P none
  keeps : {b : Bool} {s : S} {h : H} → P s h → Keeps P (some (b, s, h))

pub Keeps-bind :
    {S H B : Type 0} (P : S → H → Type 0) (m : Option B) (f : B → Option (Bool × S × H))
    → ((b : B) → m ≡ some b → Keeps P (f b))
    → Keeps P (m >>= f)
Keeps-bind P none f h = stuck
Keeps-bind P (some b) f h = h b refl

-- the rest of a loop behind its first round
abbrev pub then_rest :
    {S H : Type 0} → Option (Bool × S × H) → (S → H → Option (S × H)) → Option (S × H)
then_rest m rest = elim m [
  | none ↦ none
  | some (false, s, h) ↦ some (s, h)
  | some (true, s, h) ↦ rest s h
]

-- How a loop ends, by its first round.
pub after_round :
    {S H : Type 0} (P : S → H → Type 0) {m : Option (Bool × S × H)} (rest : S → H → Option (S × H))
    {s' : S} {h' : H}
    → Keeps P m
    → then_rest m rest ≡ some (s', h')
    → ((s : S) (h : H) → P s h → rest s h ≡ some (s', h') → P s' h')
    → P s' h'
after_round P rest stuck e k = cc
after_round P rest {s'} {h'} (keeps {b = false} {s = s} {h = h} p) e k =
    let es : s ≡ s' = cc in let eh : h ≡ h' = cc in rw (es, eh) at p
after_round P rest (keeps {b = true} {s = s} {h = h} p) e k = k s h p e

-- A loop returns if its first round does and, where it goes on, the rest.
pub then_returns :
    {S H : Type 0} (b : Bool) (s : S) (h : H) {m : Option (Bool × S × H)}
    (rest : S → H → Option (S × H))
    → m ≡ some (b, s, h)
    → (b ≡ true → (s' : S) × (h' : H) × (rest s h ≡ some (s', h')))
    → (s' : S) × (h' : H) × (then_rest m rest ≡ some (s', h'))
then_returns false s h rest e k = (s, h, rw e refl)
then_returns true s h rest e k = let (s', h', q) = k refl in (s', h', rw e q)

module _ (K : Kernel) where
  -- what was read from the descriptor meanwhile is what the buffer was extended by
  abbrev pub Reads : ℕ → K.State → RingBuffer → K.State → RingBuffer → Type 0
  Reads fd k r k' r' = (bs : Bytes) × (K.taken k' fd ≡ K.taken k fd ++ bs) × Extends r r' bs

  pub Reads-none : (fd : ℕ) (k : K.State) (r : RingBuffer) → IsValid r → Reads fd k r k r
  Reads-none fd k r v = ([], sym (append-nil (K.taken k fd)), Extends-none v)

  pub Reads-then :
      (fd : ℕ) (k : K.State) (r : RingBuffer) (k' : K.State) (r' : RingBuffer) (k'' : K.State)
      (r'' : RingBuffer)
      → Reads fd k r k' r'
      → Reads fd k' r' k'' r''
      → Reads fd k r k'' r''
  Reads-then fd k r k' r' k'' r'' (bs, e, x) (cs, e', x') = (
    bs ++ cs,
    e' ∙ ap (λ q. q ++ cs) e ∙ append_assoc (K.taken k fd) bs cs,
    Extends-then bs cs x x',
  )

  -- a round that reads no bytes
  pub nothing_read :
      (fd : ℕ) (k : K.State) (r : RingBuffer) (k' : K.State)
      → IsValid r
      → K.taken k' fd ≡ K.taken k fd ++ []
      → Reads fd k r k' r
  nothing_read fd k r k' v e = ([], e, Extends-none v)
