-- ===== src/BackgroundJobs/Supervisor/Status.antt =====
-- `parseSupervisorStatus` of backgroundjobs/supervisor.go, against the lines that are printed.
use eino_agent_extensions.Prelude.{
  ℕ, zero, suc, ◌<◌, ◌≡◌, refl, Bool, true, false, ◌&&◌, ◌==◌, Bool-cases, inl, inr, arith,
}
use eino_agent_extensions.BackgroundJobs.Supervisor.{parse_supervisor_status, print_status}

abbrev reads : ℕ → Bool
reads n = let r = parse_supervisor_status (print_status n) false in r.0 && r.1 == n

abbrev all_below : ℕ → (ℕ → Bool) → Bool
all_below zero p = true
all_below (suc n) p = p n && all_below n p

below : (k n : ℕ) (p : ℕ → Bool) → all_below n p ≡ true → k < n → p k ≡ true
below k zero p h less = absurd (omega (arith, less))
below k (suc n) p h less = elim (Bool-cases (k == n)) [
  | inl same ↦ let e : k ≡ n = ground arith in rw e (ground arith)
  | inr other ↦ below k n p (ground arith) (ground arith)
]

all_read : all_below 256 reads ≡ true
unfolding parse_supervisor_status print_status
all_read = refl

read_back :
    (n : ℕ)
    → reads n ≡ true
    → ((parse_supervisor_status (print_status n) false).0 ≡ true)
      × ((parse_supervisor_status (print_status n) false).1 ≡ n)
read_back n h = (ground arith, ground arith)

-- Every exit status from 0 to 255 is read back from the line that the supervisor prints for it.
pub parse_supervisor_status-print_status :
    (status : ℕ)
    → status < 256
    → ((parse_supervisor_status (print_status status) false).0 ≡ true)
      × ((parse_supervisor_status (print_status status) false).1 ≡ status)
parse_supervisor_status-print_status status low =
    read_back status (below status 256 reads all_read low)
