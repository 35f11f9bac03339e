-- ===== src/BackgroundJobs/Tail/Content.antt =====
-- The ring read as a list: which byte of the buffer holds which byte of the content.
use eino_agent_extensions.Prelude.{
  ℕ, zero, suc, ◌+◌, ◌-◌, ◌≤◌, ◌<◌, min, ◌≡◌, refl, ap, ◌∙◌, inl, inr, [], ◌∷◌, ◌++◌, length, take,
  drop, get_elem?, ltb, if◌then◌else◌, Bytes, arith, length-append, length-take, length-drop,
  get_elem?-append_left, get_elem?-append_right, get_elem?-take, get_elem?-drop, le_or_lt, ◌⊎◌,
  list_ext,
}
use eino_agent_extensions.BackgroundJobs.Tail.{TailWriter, copy_at, held_bytes}

pub record IsRing (w : TailWriter) : Type 0 where
  pub fits : w.filled ≤ length w.buffer
  pub inside : (w.start ≡ 0) ⊎ (w.start < length w.buffer)

pub length-copy_at : (dst : Bytes) (o : ℕ) (src : Bytes) → length (copy_at dst o src) ≡ length dst
unfolding copy_at
length-copy_at [] o src = refl
length-copy_at (x ∷ dst) zero [] = refl
length-copy_at (x ∷ dst) zero (s ∷ src) = ap suc (length-copy_at dst zero src)
length-copy_at (x ∷ dst) (suc o) src = ap suc (length-copy_at dst o src)

-- Below the offset nothing changes.
pub copy_at_before :
    (dst : Bytes) (o : ℕ) (src : Bytes) (i : ℕ)
    → i < o
    → get_elem? (copy_at dst o src) i ≡ get_elem? dst i
unfolding copy_at
copy_at_before [] o src i h = refl
copy_at_before (x ∷ dst) zero src i h = absurd (omega arith)
copy_at_before (x ∷ dst) (suc o) src zero h = refl
copy_at_before (x ∷ dst) (suc o) src (suc i) h = copy_at_before dst o src i (omega arith)

-- Inside, the source's bytes stand.
pub copy_at_inside :
    (dst : Bytes) (o : ℕ) (src : Bytes) (i j : ℕ)
    → i ≡ o + j
    → j < length src
    → i < length dst
    → get_elem? (copy_at dst o src) i ≡ get_elem? src j
unfolding copy_at
copy_at_inside [] o src i j e h k = absurd (omega arith)
copy_at_inside (x ∷ dst) zero [] i j e h k = absurd (omega arith)
copy_at_inside (x ∷ dst) zero (s ∷ src) zero zero e h k = refl
copy_at_inside (x ∷ dst) zero (s ∷ src) zero (suc j) e h k = absurd (omega arith)
copy_at_inside (x ∷ dst) zero (s ∷ src) (suc i) zero e h k = absurd (omega arith)
copy_at_inside (x ∷ dst) zero (s ∷ src) (suc i) (suc j) e h k =
    copy_at_inside dst zero src i j (omega arith) (omega arith) (omega arith)
copy_at_inside (x ∷ dst) (suc o) src zero j e h k = absurd (omega arith)
copy_at_inside (x ∷ dst) (suc o) src (suc i) j e h k =
    copy_at_inside dst o src i j (omega arith) h (omega arith)

-- Behind the copied bytes nothing changes.
pub copy_at_behind :
    (dst : Bytes) (o : ℕ) (src : Bytes) (i : ℕ)
    → o + length src ≤ i
    → get_elem? (copy_at dst o src) i ≡ get_elem? dst i
unfolding copy_at
copy_at_behind [] o src i h = refl
copy_at_behind (x ∷ dst) zero [] i h = refl
copy_at_behind (x ∷ dst) zero (s ∷ src) zero h = absurd (omega arith)
copy_at_behind (x ∷ dst) zero (s ∷ src) (suc i) h = copy_at_behind dst zero src i (omega arith)
copy_at_behind (x ∷ dst) (suc o) src zero h = refl
copy_at_behind (x ∷ dst) (suc o) src (suc i) h = copy_at_behind dst o src i (omega arith)

-- Byte `i` of the content stands at `(start + i) % capacity`, written without the remainder.
unfoldable pub slot : TailWriter → ℕ → ℕ
slot w i =
    if ltb (w.start + i) (length w.buffer) then w.start + i else w.start + i - length w.buffer

pub length-held_bytes : (w : TailWriter) → IsRing w → length (held_bytes w) ≡ w.filled
unfolding held_bytes
length-held_bytes w v = ground (
  arith,
  length-append (take (min w.filled (length w.buffer - w.start)) (drop w.start w.buffer))
      (take (w.filled - min w.filled (length w.buffer - w.start)) w.buffer),
  length-take (min w.filled (length w.buffer - w.start)) (drop w.start w.buffer),
  length-take (w.filled - min w.filled (length w.buffer - w.start)) w.buffer,
  length-drop w.start w.buffer,
)

held_low :
    (b : Bytes) (s n i : ℕ)
    → s + i < length b
    → i < n
    → let first = min n (length b - s) in
      get_elem? (take first (drop s b) ++ take (n - first) b) i ≡ get_elem? b (s + i)
held_low b s n i h k =
    let first = min n (length b - s) in
    get_elem?-append_left (take first (drop s b)) (take (n - first) b) i
      (omega (arith, length-take first (drop s b), length-drop s b))
    ∙ get_elem?-take first (drop s b) i (omega arith)
    ∙ get_elem?-drop s b i (s + i) refl

held_high :
    (b : Bytes) (s n i : ℕ)
    → length b ≤ s + i
    → i < n
    → s ≤ length b
    → let first = min n (length b - s) in
      get_elem? (take first (drop s b) ++ take (n - first) b) i ≡ get_elem? b (s + i - length b)
held_high b s n i h k l =
    let first = min n (length b - s) in
    get_elem?-append_right (take first (drop s b)) (take (n - first) b) i (s + i - length b)
      (omega (arith, length-take first (drop s b), length-drop s b))
    ∙ get_elem?-take (n - first) b (s + i - length b) (omega arith)

pub held_bytes-slot :
    (w : TailWriter) (i : ℕ)
    → IsRing w
    → i < w.filled
    → get_elem? (held_bytes w) i ≡ get_elem? w.buffer (slot w i)
unfolding held_bytes slot
held_bytes-slot w i v h = elim (le_or_lt (length w.buffer) (w.start + i)) [
  | inl high ↦ ground (arith, held_high w.buffer w.start w.filled i high h (ground arith))
  | inr low ↦ ground (arith, held_low w.buffer w.start w.filled i low h)
]

-- A ring of the expected length whose slots hold a list's bytes has that list for its content.
pub held_bytes-eq :
    (w : TailWriter) (xs : Bytes)
    → IsRing w
    → w.filled ≡ length xs
    → ((i : ℕ) → i < length xs → get_elem? w.buffer (slot w i) ≡ get_elem? xs i)
    → held_bytes w ≡ xs
held_bytes-eq w xs v e h = list_ext (held_bytes w) xs (length-held_bytes w v ∙ e) λ i p.
    let q : i < length xs = omega (arith, length-held_bytes w v) in
    held_bytes-slot w i v (omega arith) ∙ h i q
