-- ===== src/Streaming/Copy.antt =====
-- What a stream delivers to the client (streaming.go, `streamCopy`).
use aastro.Prelude.{
  ℕ, Bool, true, false, ◌&&◌, List, [], ◌∷◌, ◌++◌, Option, none, some, if◌then◌else◌, ◌≡◌, ◌⊎◌,
  refl, sym, ap, ◌∙◌, Bool-cases, inl, inr, arith,
}
use mathlib.Core.List.{append-nil, append_assoc}
use aastro.Header.{Header}
use aastro.Streaming.{
  End, eof, broken, Read, TrackingWriter, track_write, write_bytes, next_taken, rest_taken,
  write_chunk, Copied, write_failed, stream_copy, after_read,
}

-- The bytes of the reads up to the first that ends the stream.
pub delivered : List Read → List ℕ
delivered [] = []
delivered (r ∷ reads) =
    let further = r.chunk ++ delivered reads in elim r.end [ none ↦ further | some e ↦ r.chunk ]

-- What has reached the client by `after`: a first part of the stream, behind what it had before. The part is all
-- of it unless a write failed. The status and the headers are those that were sent before.
pub record IsDelivered (reads : List Read) (before : TrackingWriter)
    (after : TrackingWriter × Copied) : Type 0 where
  pub part : List ℕ
  pub missing : List ℕ
  pub is_part : part ++ missing ≡ delivered reads
  pub has_body : after.0.writer.body ≡ before.writer.body ++ part
  pub is_all : (missing ≡ []) ⊎ (after.1 ≡ write_failed)
  pub keeps_sent : after.0.writer.sent ≡ before.writer.sent
  pub keeps_written : after.0.written ≡ before.written

-- One chunk, onto a writer whose status is sent.
record IsWritten (chunk : List ℕ) (tw : TrackingWriter) (wrote : TrackingWriter × Bool)
    : Type 0 where
  has_body : wrote.0.writer.body ≡ (if wrote.1 then tw.writer.body ++ chunk else tw.writer.body)
  keeps_sent : wrote.0.writer.sent ≡ tw.writer.sent
  keeps_written : wrote.0.written ≡ tw.written

write_chunk-IsWritten :
    (chunk : List ℕ) (tw : TrackingWriter) (sent : ℕ × Header)
    → tw.writer.sent ≡ some sent
    → tw.written ≡ true
    → IsWritten chunk tw (write_chunk chunk tw)
unfolding write_chunk track_write write_bytes
write_chunk-IsWritten [] tw sent hs hw = record {
  has_body = sym (append-nil tw.writer.body);
  keeps_sent = refl;
  keeps_written = refl;
}
write_chunk-IsWritten (b ∷ bytes) tw sent hs hw = elim (Bool-cases (next_taken tw.taken)) [
  | inl ok ↦ record {
    has_body = simp ok refl;
    keeps_sent = simp (ok, hs) refl;
    keeps_written = sym hw;
  }
  | inr not_ok ↦ record {
    has_body = simp not_ok refl;
    keeps_sent = simp not_ok refl;
    keeps_written = sym hw;
  }
]

module _ (r : Read) (reads : List Read) (tw : TrackingWriter) where
  wrote : TrackingWriter × Bool
  wrote = write_chunk r.chunk tw

  ended : Option End → TrackingWriter × Copied
  ended end = after_read end wrote.0 (stream_copy reads wrote.0)

  -- The stream from this read on.
  from_read : Option End → List ℕ
  from_read end = elim end [ none ↦ r.chunk ++ delivered reads | some e ↦ r.chunk ]

  record IsEnded (end : Option End) (after : TrackingWriter × Copied) : Type 0 where
    part : List ℕ
    missing : List ℕ
    is_part : part ++ missing ≡ from_read end
    has_body : after.0.writer.body ≡ tw.writer.body ++ part
    is_all : (missing ≡ []) ⊎ (after.1 ≡ write_failed)
    keeps_sent : after.0.writer.sent ≡ tw.writer.sent
    keeps_written : after.0.written ≡ tw.written

  module _ (w : IsWritten r.chunk tw wrote) (ok : wrote.1 ≡ true) where
    chunk_body : wrote.0.writer.body ≡ tw.writer.body ++ r.chunk
    chunk_body = w.has_body ∙ rw ok refl

    ended-IsEnded :
        (end : Option End)
        → IsDelivered reads wrote.0 (stream_copy reads wrote.0)
        → IsEnded end (ended end)
    unfolding ended from_read
    ended-IsEnded none ih = record {
      part = r.chunk ++ ih.part;
      missing = ih.missing;
      is_part = append_assoc r.chunk ih.part ih.missing ∙ ap (λ l. r.chunk ++ l) ih.is_part;
      has_body =
          ih.has_body
          ∙ ap (λ l. l ++ ih.part) chunk_body
          ∙ append_assoc tw.writer.body r.chunk ih.part;
      is_all = ih.is_all;
      keeps_sent = ih.keeps_sent ∙ w.keeps_sent;
      keeps_written = ih.keeps_written ∙ w.keeps_written;
    }
    ended-IsEnded (some eof) ih = record {
      part = r.chunk;
      missing = [];
      is_part = append-nil r.chunk;
      has_body = chunk_body;
      is_all = inl refl;
      keeps_sent = w.keeps_sent;
      keeps_written = w.keeps_written;
    }
    ended-IsEnded (some (broken e)) ih = record {
      part = r.chunk;
      missing = [];
      is_part = append-nil r.chunk;
      has_body = chunk_body;
      is_all = inl refl;
      keeps_sent = w.keeps_sent;
      keeps_written = w.keeps_written;
    }

-- `streamCopy` to a client whose status is sent delivers a first part of the stream, in order and with
-- nothing added, up to the first end or error of it; the part is all of it unless a write to the client
-- failed; and the status that was sent stays.
pub stream_copy-IsDelivered :
    (reads : List Read) (tw : TrackingWriter) (sent : ℕ × Header)
    → tw.writer.sent ≡ some sent
    → tw.written ≡ true
    → IsDelivered reads tw (stream_copy reads tw)
unfolding stream_copy delivered ended from_read wrote
stream_copy-IsDelivered [] tw sent hs hw = record {
  part = [];
  missing = [];
  is_part = refl;
  has_body = sym (append-nil tw.writer.body);
  is_all = inl refl;
  keeps_sent = refl;
  keeps_written = refl;
}
stream_copy-IsDelivered (r ∷ reads) tw sent hs hw =
    let w = write_chunk-IsWritten r.chunk tw sent hs hw in
    let got = write_chunk r.chunk tw in
    let ih = stream_copy-IsDelivered reads got.0 sent (w.keeps_sent ∙ hs) (w.keeps_written ∙ hw) in
    elim (Bool-cases got.1) [
      | inl ok ↦
          let e = ended-IsEnded r reads tw w ok r.end ih in
          rw ok (record {
            part = e.part;
            missing = e.missing;
            is_part = e.is_part;
            has_body = e.has_body;
            is_all = e.is_all;
            keeps_sent = e.keeps_sent;
            keeps_written = e.keeps_written;
          })
      | inr not_ok ↦
          let no_more : got.0.writer.body ≡ tw.writer.body = w.has_body ∙ rw not_ok refl in
          rw not_ok (record {
            part = [];
            missing = delivered (r ∷ reads);
            is_part = refl;
            has_body = no_more ∙ sym (append-nil tw.writer.body);
            is_all = inr refl;
            keeps_sent = w.keeps_sent;
            keeps_written = w.keeps_written;
          })
    ]

-- No write to the client fails.
unfoldable pub all_taken : List Bool → Bool
all_taken [] = true
all_taken (b ∷ bs) = b && all_taken bs

rest-all_taken : (bs : List Bool) → all_taken (rest_taken bs) ≡ false → all_taken bs ≡ false
unfolding all_taken
rest-all_taken [] h = h
rest-all_taken (b ∷ bs) h = rw h (ground arith)

next-all_taken : (bs : List Bool) → next_taken bs ≡ false → all_taken bs ≡ false
unfolding all_taken
next-all_taken [] h = cc
next-all_taken (b ∷ bs) h = ground arith

chunk-all_taken :
    (chunk : List ℕ) (tw : TrackingWriter)
    → (all_taken (write_chunk chunk tw).0.taken ≡ false → all_taken tw.taken ≡ false)
      × ((write_chunk chunk tw).1 ≡ false → all_taken tw.taken ≡ false)
unfolding write_chunk track_write
chunk-all_taken [] tw = (λ h. h, λ h. cc)
chunk-all_taken (b ∷ bytes) tw = (rest-all_taken tw.taken, next-all_taken tw.taken)

after_read-failed :
    (end : Option End) (tw : TrackingWriter) (further : TrackingWriter × Copied)
    → (after_read end tw further).1 ≡ write_failed
    → further.1 ≡ write_failed
after_read-failed none tw further h = h
after_read-failed (some eof) tw further h = cc
after_read-failed (some (broken e)) tw further h = cc

-- `streamCopy` gives up on the client only where a write has failed.
pub stream_copy-failed :
    (reads : List Read) (tw : TrackingWriter)
    → (stream_copy reads tw).1 ≡ write_failed
    → all_taken tw.taken ≡ false
unfolding stream_copy
stream_copy-failed [] tw = λ h. cc
stream_copy-failed (r ∷ reads) tw =
    let got = write_chunk r.chunk tw in
    let (later, now) = chunk-all_taken r.chunk tw in
    elim (Bool-cases got.1) [
      | inl ok ↦
          rw ok (λ h. later (stream_copy-failed reads got.0 (after_read-failed r.end got.0 _ h)))
      | inr not_ok ↦ rw not_ok (λ h. now not_ok)
    ]
