-- ===== src/BackgroundJobs/Manager/Entries.antt =====
-- Counting in a list of entries through a change of one of them.
use eino_agent_extensions.Prelude.{
  All, ℕ, ◌+◌, ◌≤◌, ◌≡◌, refl, ap, Bool, true, none, some, List, [], ◌∷◌, length, ◌==◌, by_cases,
  Bool-cases, inl, inr, arith,
}
use eino_agent_extensions.BackgroundJobs.Manager.{
  Entry, bit, count, find_entry, update_entry, mem, remove,
}

pub All-find_entry :
    (P : Entry → Type 0) (q : Entry → Bool) (es : List Entry) (e : Entry)
    → All P es
    → find_entry q es ≡ some e
    → P e × (q e ≡ true)
All-find_entry P q [] e h found = cc
All-find_entry P q (x ∷ es) e h found = elim (Bool-cases (q x)) [
  | inl here ↦ let k = rw here at found in let same : x ≡ e = cc in rw (← same) (h.0, here)
  | inr there ↦ All-find_entry P q es e h.1 (rw there at found)
]

pub All-update_entry :
    (P : Entry → Type 0) (q : Entry → Bool) (f : Entry → Entry) (es : List Entry)
    → All P es
    → ((e : Entry) → q e ≡ true → P e → P (f e))
    → All P (update_entry q f es)
All-update_entry P q f [] h k = tt
All-update_entry P q f (x ∷ es) h k =
    by_cases (All P) (q x) _ _ (λ here. (k x here h.0, h.1))
      (λ _. (h.0, All-update_entry P q f es h.1 k))

-- A count changes by what the found entry counted and what it counts now.
pub count-update_entry :
    (p q : Entry → Bool) (f : Entry → Entry) (es : List Entry) (e : Entry)
    → find_entry q es ≡ some e
    → (count p (update_entry q f es) + bit (p e)) ≡ (count p es + bit (p (f e)))
count-update_entry p q f [] e found = cc
count-update_entry p q f (x ∷ es) e found = elim (Bool-cases (q x)) [
  | inl here ↦ let k = rw here at found in let same : x ≡ e = cc in rw (here, ← same) (omega arith)
  | inr there ↦
      let ih = count-update_entry p q f es e (rw there at found) in rw there (omega (arith, ih))
]

pub update_missing :
    (q : Entry → Bool) (f : Entry → Entry) (es : List Entry)
    → find_entry q es ≡ none
    → update_entry q f es ≡ es
update_missing q f [] h = refl
update_missing q f (x ∷ es) h = elim (Bool-cases (q x)) [
  | inl here ↦ let k = rw here at h in cc
  | inr there ↦ rw there (ap (λ es. x ∷ es) (update_missing q f es (rw there at h)))
]

-- A change that no entry shows does not change the count.
pub count-update_same :
    (p q : Entry → Bool) (f : Entry → Entry) (es : List Entry)
    → ((e : Entry) → p (f e) ≡ p e)
    → count p (update_entry q f es) ≡ count p es
count-update_same p q f [] h = refl
count-update_same p q f (x ∷ es) h =
    by_cases (λ r. count p r ≡ count p (x ∷ es)) (q x) _ _ (λ _. rw (h x) refl)
      (λ _. ap (λ n. bit (p x) + n) (count-update_same p q f es h))

pub length-remove : (n : ℕ) (ns : List ℕ) → mem n ns ≡ true → (length (remove n ns) + 1) ≡ length ns
length-remove n [] h = cc
length-remove n (x ∷ ns) h = elim (Bool-cases (x == n)) [
  | inl here ↦ rw here (omega arith)
  | inr there ↦
      let rest : mem n ns ≡ true = rw there at h in
      rw there (omega (arith, length-remove n ns rest))
]

-- Counts of three kinds, entry by entry.
pub count_sum :
    (p q r : Entry → Bool) (P : Entry → Type 0) (es : List Entry)
    → All P es
    → ((e : Entry) → P e → bit (p e) ≤ (bit (q e) + bit (r e)))
    → count p es ≤ (count q es + count r es)
count_sum p q r P [] h k = omega arith
count_sum p q r P (x ∷ es) h k = omega (arith, k x h.0, count_sum p q r P es h.1 k)
