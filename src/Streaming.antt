-- ===== src/Streaming.antt =====
-- streaming.go, and `proxy` of upstream.go: a flow that streams its one upstream's answer to the client as it comes.
-- A stream is the list of the reads so far; where the list ends with no error, the stream is still open.
-- Flushes, deadlines, spans and logs are left out.
pub mod Copy
pub mod Serve
use aastro.Prelude.{
  ℕ, zero, suc, ◌+◌, ◌==◌, Bool, true, false, not, ◌&&◌, ◌||◌, List, [], ◌∷◌, ◌++◌, Option, none,
  some, String, if◌then◌else◌, is_empty,
}
use aastro.Header.{Header, delete_header}
use aastro.Response.{ProblemEncoder}
use aastro.UpstreamError.{internal_error, upstream_unavailable}
use aastro.Upstream.{HttpUpstream}
use aastro.Upstream.Balance.{select_host}
use aastro.Router.{copy_headers, writable}
use aastro.Middlewares.{Writer, write_header, or_sent, write_error_to}

-- The error of a read that is not the end of the stream: the context's `Canceled`, or another.
pub data ReadError : Type 0 where
  canceled other_error : ReadError

pub data End : Type 0 where
  eof : End
  broken : ReadError → End

-- One call of `src.Read`: the bytes, and the error that comes with them.
pub record Read : Type 0 where
  pub chunk : List ℕ
  pub end : Option End

-- `trackingWriter`, with what the client does to the writes to come: each is taken or fails; all after
-- the list are taken. What a write has sent before it fails is left out.
pub record TrackingWriter : Type 0 where
  pub writer : Writer
  pub written : Bool
  pub status_code : ℕ
  pub taken : List Bool

-- `trackingWriter.WriteHeader`.
pub track_header : ℕ → TrackingWriter → TrackingWriter
track_header code tw = record tw {
  writer = write_header code tw.writer;
  written = true;
  status_code = code;
}

abbrev next_taken : List Bool → Bool
next_taken [] = true
next_taken (b ∷ bs) = b

abbrev rest_taken : List Bool → List Bool
rest_taken [] = []
rest_taken (b ∷ bs) = bs

-- `Write` of the writer below, which sends 200 if no status is sent.
pub write_bytes : List ℕ → Writer → Writer
write_bytes bytes w = record w {
  sent = some (or_sent w.sent (200, w.headers));
  body = w.body ++ bytes;
}

-- `trackingWriter.Write`, with whether it succeeds.
pub track_write : List ℕ → TrackingWriter → TrackingWriter × Bool
track_write bytes tw =
    let ok = next_taken tw.taken in
    (
      record {
        writer = if ok then write_bytes bytes tw.writer else tw.writer;
        written = true;
        status_code = if tw.status_code == 0 then 200 else tw.status_code;
        taken = rest_taken tw.taken;
      },
      ok,
    )

-- What `streamCopy` comes to; `running` is where it waits for the next read.
pub data Copied : Type 0 where
  running finished write_failed : Copied
  read_failed : ReadError → Copied

-- One read with bytes is one write.
write_chunk : List ℕ → TrackingWriter → TrackingWriter × Bool
write_chunk [] tw = (tw, true)
write_chunk (b ∷ bytes) tw = track_write (b ∷ bytes) tw

-- After a read whose bytes are written; `further` is the loop's next round.
abbrev pub after_read :
    Option End → TrackingWriter → TrackingWriter × Copied → TrackingWriter × Copied
after_read none tw further = further
after_read (some eof) tw further = (tw, finished)
after_read (some (broken e)) tw further = (tw, read_failed e)

pub stream_copy : List Read → TrackingWriter → TrackingWriter × Copied
stream_copy [] tw = (tw, running)
stream_copy (r ∷ reads) tw =
    let wrote = write_chunk r.chunk tw in
    let further = stream_copy reads wrote.0 in
    if wrote.1 then after_read r.end wrote.0 further else (wrote.0, write_failed)

-- The answer of an upstream that is streamed.
pub record StreamResponse : Type 0 where
  pub status : ℕ
  pub header : Header
  pub reads : List Read

-- What the request to the upstream meets: it cannot be built, `client.Do` fails, or there is an answer.
pub data Reached : Type 0 where
  not_built not_reached : Reached
  answered : StreamResponse → Reached

-- Whether `proxy` has returned, and with an error, or a panic.
pub data Proxied : Type 0 where
  open_stream no_error an_error a_panic : Proxied

-- The end of `proxy`; that the client has gone is no error.
pub proxied_as : Copied → Proxied
proxied_as running = open_stream
proxied_as finished = no_error
proxied_as write_failed = an_error
proxied_as (read_failed canceled) = no_error
proxied_as (read_failed other_error) = an_error

-- The headers of the answer, less those of the hop, and no Content-Length.
pub stream_headers : Header → Header → Header
stream_headers written header = delete_header "Content-Length" (copy_headers written header)

pub with_headers : StreamResponse → TrackingWriter → TrackingWriter
with_headers resp tw = record tw {
  writer = record tw.writer { headers = stream_headers tw.writer.headers resp.header };
}

pub start_stream : StreamResponse → TrackingWriter → TrackingWriter
start_stream resp tw = track_header resp.status (with_headers resp tw)

-- A status that cannot be written makes `WriteHeader` panic, with nothing sent.

pub proxy_answer : Reached → TrackingWriter → TrackingWriter × Proxied
proxy_answer not_built tw = (tw, an_error)
proxy_answer not_reached tw = (tw, an_error)
proxy_answer (answered resp) tw =
    let (tw', copied) = stream_copy resp.reads (start_stream resp tw) in
    if writable resp.status then (tw', proxied_as copied) else (with_headers resp tw, a_panic)

-- `proxy`, with the upstream after the choice of a host.
pub proxy : Reached → HttpUpstream → TrackingWriter → HttpUpstream × (TrackingWriter × Proxied)
proxy reached u tw = ((select_host u).1, proxy_answer reached tw)

module _ (encoder : ProblemEncoder) where
  -- The end of `handleStreaming`; a panic leaves what was written.
  pub after_proxy : TrackingWriter → Proxied → Writer
  after_proxy tw an_error =
      if tw.written then tw.writer else write_error_to encoder upstream_unavailable 502 tw.writer
  after_proxy tw open_stream = tw.writer
  after_proxy tw no_error = tw.writer
  after_proxy tw a_panic = tw.writer

  -- `handleStreaming`, without its plugins: `plugins_pass` is what `executePlugins` returns, which has
  -- then answered with 500. `taken` is what the client does to the writes.
  pub handle_streaming :
      Bool → Reached → List Bool → List HttpUpstream → Writer → List HttpUpstream × Writer
  handle_streaming plugins_pass reached taken (u ∷ []) w =
      let (u', (tw, proxied)) =
        proxy reached u (record { writer = w; written = false; status_code = 0; taken = taken }) in
      if plugins_pass
      then (u' ∷ [], after_proxy tw proxied)
      else (u ∷ [], write_error_to encoder internal_error 500 w)
  handle_streaming plugins_pass reached taken us w =
      (us, write_error_to encoder internal_error 500 w)
