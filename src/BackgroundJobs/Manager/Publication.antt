-- ===== src/BackgroundJobs/Manager/Publication.antt =====
-- backgroundjobs/manager.go: the publication of a job and its completion.
use eino_agent_extensions.Prelude.{
  ℕ, ◌+◌, ◌-◌, ◌≤◌, ◌≡◌, refl, ap, Bool, true, false, ◌&&◌, ◌||◌, not, Option, none, some,
  if◌then◌else◌, Bool-cases, inl, inr, arith,
}
use eino_agent_extensions.BackgroundJobs.Config.{Limits}
use eino_agent_extensions.BackgroundJobs.Job.{live, settled, reported, done, Job}
use eino_agent_extensions.BackgroundJobs.Job.Invariant.{Sound, is_live}
use eino_agent_extensions.BackgroundJobs.Manager.{
  Place, listed, hidden, gone, Entry, Manager, is_pending, in_jobs, in_hidden, is_done, has_number,
  bit, count, find_entry, update_entry, published_entry, publish_found, publish,
}
use eino_agent_extensions.BackgroundJobs.Manager.Entries.{
  All-find_entry, All-update_entry, count-update_entry,
}
use eino_agent_extensions.BackgroundJobs.Manager.Capacity.{is_counted, Kept, Bounded}

relabelled :
    (j : Job) (shown counted : Bool)
    → Sound j
    → Sound (record j { published = shown; counted = counted })
relabelled j shown counted h = record {
  untouched = h.untouched;
  alive = h.alive;
  fits = h.fits;
  final = h.final;
  ended = h.ended;
  natural = h.natural;
}

-- Where a job stands behind its publication.
abbrev placed : Bool → Bool → Place
placed shown terminal = if shown then listed else (if terminal then gone else hidden)

placed_not_pending :
    (shown terminal : Bool) (j : Job)
    → is_pending (record { job = j; place = placed shown terminal }) ≡ false
placed_not_pending true terminal j = refl
placed_not_pending false true j = refl
placed_not_pending false false j = refl

-- A publication adds at most one tracked job.
placed_once :
    (shown terminal : Bool) (j : Job)
    → (bit (in_jobs (record { job = j; place = placed shown terminal }))
        + bit (in_hidden (record { job = j; place = placed shown terminal })))
      ≤ 1
placed_once true terminal j = omega arith
placed_once false true j = omega arith
placed_once false false j = omega arith

done_over : (e : Entry) → is_done e ≡ true → is_live e.job.stage ≡ false
done_over e h =
    (elim e.job.stage as (λ s. (elim s [ done ↦ true | _ ↦ false ]) ≡ true → is_live s ≡ false) [
      | live ↦ λ k. cc
      | settled ↦ λ k. refl
      | reported ↦ λ k. refl
      | done ↦ λ k. refl
    ])
      h

published-Kept : (shown : Bool) (e : Entry) → Kept e → Kept (published_entry shown e)
published-Kept shown e h = record {
  sound = relabelled e.job (shown || e.job.published) (not (is_done e) || e.job.counted) h.sound;
  before_count =
      λ p. let k = placed_not_pending shown (is_done e) (published_entry shown e).job in cc;
  while_running = λ _ w. elim (Bool-cases (is_done e)) [
    | inl over ↦ let r = (h.sound.ended (done_over e over)).0 in cc
    | inr lives ↦ rw lives refl
  ];
}

publish_found-Bounded :
    (l : Limits) (n : ℕ) (released canceled : Bool) (m : Manager) (o : Option Entry)
    → find_entry (λ e. is_pending e && has_number n e) m.entries ≡ o
    → Bounded l m
    → Bounded l (publish_found n released canceled m o)
publish_found-Bounded l n released canceled m none found h = h
publish_found-Bounded l n released canceled m (some e) found h =
    let shown : Bool = released && not m.closing && not canceled in
    let q : Entry → Bool = λ e. is_pending e && has_number n e in
    let k = All-find_entry Kept q m.entries e h.kept found in
    let waits : is_pending e ≡ true = ground arith in
    let a = count-update_entry is_pending q (published_entry shown) m.entries e found in
    let b = count-update_entry is_counted q (published_entry shown) m.entries e found in
    let c = count-update_entry in_jobs q (published_entry shown) m.entries e found in
    let d = count-update_entry in_hidden q (published_entry shown) m.entries e found in
    let gone_from = ap bit (placed_not_pending shown (is_done e) (published_entry shown e).job) in
    let uncounted : e.job.counted ≡ false = k.0.before_count waits in
    let sums : (count is_counted (update_entry q (published_entry shown) m.entries)
          ≤ (if is_done e then m.running else m.running + 1))
        × (((m.starting - 1) + (if is_done e then m.running else m.running + 1)) ≤ l.max_running) =
      elim (Bool-cases (is_done e)) [
        | inl over ↦
            let now : is_counted (published_entry shown e) ≡ false = rw (over, uncounted) refl in
            rw over
              (omega (arith, h.counts, b, ap bit uncounted, ap bit now), omega (arith, h.runs))
        | inr lives ↦
            let now : is_counted (published_entry shown e) ≡ true = rw lives refl in
            rw lives (
              omega (arith, h.counts, b, ap bit uncounted, ap bit now),
              omega (arith, h.runs, h.starts, a, ap bit waits, gone_from),
            )
      ] in
    record {
      starts = omega (arith, h.starts, a, ap bit waits, gone_from);
      counts = sums.0;
      runs = sums.1;
      tracks = omega (
        arith,
        h.starts,
        a,
        ap bit waits,
        gone_from,
        h.tracks,
        c,
        d,
        placed_once shown (is_done e) (published_entry shown e).job,
      );
      kept =
          All-update_entry Kept q (published_entry shown) m.entries h.kept
            (λ x at kx. published-Kept shown x kx);
    }

pub publish-Bounded :
    (l : Limits) (n : ℕ) (released canceled : Bool) (m : Manager)
    → Bounded l m
    → Bounded l (publish n released canceled m)
unfolding publish
publish-Bounded l n released canceled m h =
    publish_found-Bounded l n released canceled m
      (find_entry (λ e. is_pending e && has_number n e) m.entries) refl h
