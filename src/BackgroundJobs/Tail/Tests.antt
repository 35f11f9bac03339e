-- ===== src/BackgroundJobs/Tail/Tests.antt =====
-- Runs of tail.go on small buffers, and the laws at concrete inputs.
use eino_agent_extensions.Prelude.{
  ◌≡◌, refl, true, false, List, [], ◌∷◌, Bytes, codes, length, newest, ltb,
}
use eino_agent_extensions.BackgroundJobs.Tail.{
  write, held_bytes, new_tail_writer, snapshot, mark_truncated,
}
use eino_agent_extensions.BackgroundJobs.Tail.Stream.{write_all, joined, stream_tail}

abbrev chunks : List Bytes
chunks = codes "ab" ∷ codes "cde" ∷ codes "f" ∷ []

wrapped : held_bytes (write_all (new_tail_writer 4) chunks) ≡ codes "cdef"
unfolding write_all write held_bytes new_tail_writer
wrapped = refl

overwritten : held_bytes (write_all (new_tail_writer 2) chunks) ≡ codes "ef"
unfolding write_all write held_bytes new_tail_writer
overwritten = refl

repaired :
    (snapshot (λ _. false) (λ b. 63 ∷ b) (mark_truncated (write_all (new_tail_writer 9) chunks)))
    ≡ record { text = codes "?abcdef"; truncated = true }
unfolding write_all write snapshot new_tail_writer mark_truncated
repaired = refl

stream_tail_example :
    (held_bytes (write_all (new_tail_writer 4) chunks) ≡ newest 4 (joined chunks))
    × ((write_all (new_tail_writer 4) chunks).truncated ≡ ltb 4 (length (joined chunks)))
stream_tail_example = stream_tail 4 chunks
