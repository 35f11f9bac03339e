-- ===== src/BackgroundJobs/Manager/Completion.antt =====
-- backgroundjobs/manager.go: the steps of jobs, their completion and Close.
use eino_agent_extensions.Prelude.{
  ℕ, ◌+◌, ◌-◌, ◌≤◌, ◌≡◌, refl, ap, ◌∙◌, Bool, true, false, ◌&&◌, Option, none, some, if◌then◌else◌,
  Bool-cases, inl, inr, arith,
}
use eino_agent_extensions.BackgroundJobs.Config.{Limits}
use eino_agent_extensions.BackgroundJobs.Job.{
  Stage, live, settled, reported, done, Job, Event, job_step,
}
use eino_agent_extensions.BackgroundJobs.Job.Invariant.{Sound, is_live}
use eino_agent_extensions.BackgroundJobs.Manager.{
  Place, pending, listed, hidden, gone, Entry, Manager, is_pending, in_jobs, in_hidden, is_settled,
  is_reported, completed_entry, completed_found, job_completed, announce, step_job, has_number, bit,
  count, find_entry, update_entry,
}
use eino_agent_extensions.BackgroundJobs.Manager.Entries.{
  All-update_entry, count-update_entry, count-update_same,
}
use eino_agent_extensions.BackgroundJobs.Manager.Capacity.{is_counted, Kept, Bounded}
use eino_agent_extensions.BackgroundJobs.Job.Final.{job_step-Sound}
use eino_agent_extensions.BackgroundJobs.Job.Marks.{job_step-Marks}

-- Another stage behind the end.
restaged :
    (j : Job) (s : Stage) (counted : Bool)
    → is_live s ≡ false
    → is_live j.stage ≡ false
    → Sound j
    → Sound (record j { stage = s; counted = counted })
restaged j s counted over ended h = record {
  untouched = λ e. let l = (h.untouched e).3 in cc;
  alive = λ e. cc;
  fits = h.fits;
  final = h.final;
  ended = λ e. h.ended ended;
  natural = h.natural;
}

settled_over : (e : Entry) → is_settled e ≡ true → is_live e.job.stage ≡ false
settled_over e h =
    (elim e.job.stage as (λ s. (elim s [ settled ↦ true | _ ↦ false ]) ≡ true → is_live s ≡ false) [
      | live ↦ λ k. cc
      | settled ↦ λ k. refl
      | reported ↦ λ k. refl
      | done ↦ λ k. refl
    ])
      h

reported_over : (e : Entry) → is_reported e ≡ true → is_live e.job.stage ≡ false
reported_over e h =
    (elim e.job.stage
        as (λ s. (elim s [ reported ↦ true | _ ↦ false ]) ≡ true → is_live s ≡ false) [
          | live ↦ λ k. cc
          | settled ↦ λ k. refl
          | reported ↦ λ k. refl
          | done ↦ λ k. refl
        ])
      h

completed-Kept : (e : Entry) → is_settled e ≡ true → Kept e → Kept (completed_entry e)
completed-Kept e at h = record {
  sound = restaged e.job reported false refl (settled_over e at) h.sound;
  before_count = λ _. refl;
  while_running = λ _ w. let r = (h.sound.ended (settled_over e at)).0 in cc;
}

-- The place behind the completion.
completed_place :
    (j k : Job) (p : Place)
    → (is_pending (record { job = j; place = elim p [ hidden ↦ gone | p ↦ p ] })
        ≡ is_pending (record { job = k; place = p }))
      × (in_jobs (record { job = j; place = elim p [ hidden ↦ gone | p ↦ p ] })
          ≡ in_jobs (record { job = k; place = p }))
      × (in_hidden (record { job = j; place = elim p [ hidden ↦ gone | p ↦ p ] }) ≡ false)
completed_place j k pending = (refl, refl, refl)
completed_place j k listed = (refl, refl, refl)
completed_place j k hidden = (refl, refl, refl)
completed_place j k gone = (refl, refl, refl)

completed_found-Bounded :
    (l : Limits) (n : ℕ) (m : Manager) (o : Option Entry)
    → find_entry (λ e. is_settled e && has_number n e) m.entries ≡ o
    → Bounded l m
    → Bounded l (completed_found n m o)
completed_found-Bounded l n m none found h = h
completed_found-Bounded l n m (some e) found h =
    let q : Entry → Bool = λ e. is_settled e && has_number n e in
    let place = completed_place (completed_entry e).job e.job e.place in
    let a = count-update_entry is_pending q completed_entry m.entries e found in
    let b = count-update_entry is_counted q completed_entry m.entries e found in
    let c = count-update_entry in_jobs q completed_entry m.entries e found in
    let d = count-update_entry in_hidden q completed_entry m.entries e found in
    let sums : (count is_counted (update_entry q completed_entry m.entries)
          ≤ (if e.job.counted then m.running - 1 else m.running))
        × ((m.starting + (if e.job.counted then m.running - 1 else m.running)) ≤ l.max_running) =
      elim (Bool-cases e.job.counted) [
        | inl marked ↦ rw marked (omega (arith, h.counts, b, ap bit marked), omega (arith, h.runs))
        | inr free ↦ rw free (omega (arith, h.counts, b, ap bit free), h.runs)
      ] in
    record {
      starts = omega (arith, h.starts, a, ap bit place.0);
      counts = sums.0;
      runs = sums.1;
      tracks = omega (arith, h.tracks, c, d, ap bit place.1, ap bit place.2);
      kept =
          All-update_entry Kept q completed_entry m.entries h.kept
            (λ x at kx. completed-Kept x (ground arith) kx);
    }

pub job_completed-Bounded :
    (l : Limits) (n : ℕ) (m : Manager) → Bounded l m → Bounded l (job_completed n m)
unfolding job_completed
job_completed-Bounded l n m h =
    completed_found-Bounded l n m (find_entry (λ e. is_settled e && has_number n e) m.entries) refl
      h

-- A change of a job that none of the counts shows.
unseen-Bounded :
    (l : Limits) (q : Entry → Bool) (f : Job → Job) (m : Manager)
    → Bounded l m
    → ((j : Job) → (f j).counted ≡ j.counted)
    → ((e : Entry) → q e ≡ true → Kept e → Kept (record e { job = f e.job }))
    → Bounded l (record m { entries = update_entry q (λ e. record e { job = f e.job }) m.entries })
unseen-Bounded l q f m h same kept =
    let g : Entry → Entry = λ e. record e { job = f e.job } in
    record {
      starts = omega (arith, h.starts, count-update_same is_pending q g m.entries (λ e. refl));
      counts =
          omega (arith, h.counts, count-update_same is_counted q g m.entries (λ e. same e.job));
      runs = h.runs;
      tracks = omega (
        arith,
        h.tracks,
        count-update_same in_jobs q g m.entries (λ e. refl),
        count-update_same in_hidden q g m.entries (λ e. refl),
      );
      kept = All-update_entry Kept q g m.entries h.kept kept;
    }

pub announce-Bounded : (l : Limits) (n : ℕ) (m : Manager) → Bounded l m → Bounded l (announce n m)
unfolding announce
announce-Bounded l n m h =
    unseen-Bounded l (λ e. is_reported e && has_number n e) (λ j. record j { stage = done }) m h
      (λ j. refl)
      λ e at k.
        let over = reported_over e (ground arith) in
        record {
          sound = restaged e.job done e.job.counted refl over k.sound;
          before_count = k.before_count;
          while_running = k.while_running;
        }

pub step_job-Bounded :
    (l : Limits) (n : ℕ) (event : Event) (m : Manager)
    → Bounded l m
    → Bounded l (step_job n event m)
unfolding step_job
step_job-Bounded l n event m h =
    unseen-Bounded l (has_number n) (job_step event) m h (λ j. (job_step-Marks event j).0)
      λ e at k. record {
        sound = job_step-Sound event e.job k.sound;
        before_count = λ p. (job_step-Marks event e.job).0 ∙ k.before_count p;
        while_running = λ p w.
            (job_step-Marks event e.job).0 ∙ k.while_running p ((job_step-Marks event e.job).1 w);
      }
