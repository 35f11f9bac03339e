-- ===== src/RtkReducer/Capture/Tests.antt =====
-- A stream of five bytes, captured with a limit of three.
use eino_agent_extensions.Prelude.{ℕ, ◌≡◌, refl, true, List, [], ◌∷◌, Bytes, codes, arith}
use eino_agent_extensions.RtkReducer.Capture.{
  ReadResult, read, more, failed, read_from, done, read_failed, new_bounded_capture,
}
use eino_agent_extensions.RtkReducer.Capture.Stream.{
  fresh, stream, seen_as, bytes_of, read_from-stream,
}

abbrev chunks : List (ℕ × Bytes)
chunks = (b'a', codes "b") ∷ (b'c', codes "d") ∷ []

abbrev broken : List ReadResult
broken = read (codes "ab") more ∷ read [] more ∷ read (codes "cd") failed ∷ []

read_from-stream_example :
    read_from (fresh 3 true) (stream chunks (codes "e"))
    ≡ (seen_as 3 true (bytes_of (stream chunks (codes "e"))), done)
read_from-stream_example = read_from-stream 3 true chunks (codes "e") (omega arith)

held : (read_from (fresh 3 true) (stream chunks (codes "e"))).0.capture.buf ≡ codes "abc"
unfolding read_from new_bounded_capture
held = refl

failing : (read_from (fresh 3 true) broken).1 ≡ read_failed
unfolding read_from new_bounded_capture
failing = refl

failing_held : (read_from (fresh 3 true) broken).0.capture.buf ≡ codes "abc"
unfolding read_from new_bounded_capture
failing_held = refl
