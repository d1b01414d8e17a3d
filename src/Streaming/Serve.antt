-- ===== src/Streaming/Serve.antt =====
-- What the client of a flow that streams gets (streaming.go, and `proxy` of upstream.go).
use aastro.Prelude.{
  ℕ, ◌==◌, Bool, true, false, ◌&&◌, List, [], ◌∷◌, ◌++◌, Option, none, some, String, lookup,
  if◌then◌else◌, contains, str_eq, str_eq_iff, length, ◌≡◌, ◌⊎◌, refl, ap, ◌∙◌, arith, Bool-cases,
  inl, inr,
}
use aastro.Aggregator.{Distinct}
use aastro.Header.{Header, delete_header, values, values_or_nil}
use aastro.Response.{ProblemEncoder}
use aastro.UpstreamError.{internal_error, upstream_unavailable}
use aastro.Upstream.{HttpUpstream}
use aastro.Router.{writable, copy_headers, hop_by_hop_headers}
use aastro.Router.Replies.{lookup-copy_headers_hop, values-copy_headers}
use aastro.Middlewares.{Writer, write_header, write_error_to}
use aastro.Streaming.{
  End, eof, Read, TrackingWriter, stream_copy, StreamResponse, Reached, not_built, not_reached,
  answered, Proxied, open_stream, no_error, an_error, a_panic, proxied_as, stream_headers,
  with_headers, start_stream, track_header, proxy_answer, proxy, after_proxy, handle_streaming,
}
use aastro.Streaming.Copy.{
  all_taken, delivered, IsDelivered, stream_copy-IsDelivered, stream_copy-failed,
}

lookup-delete_header :
    (k j : String) (h : Header)
    → lookup j (delete_header k h) ≡ (if str_eq k j then none else lookup j h)
unfolding delete_header lookup
lookup-delete_header k j [] = ground arith
lookup-delete_header k j ((at, vs) ∷ h) =
    let rest = lookup-delete_header k j h in
    ground (arith, rest, str_eq_iff at k, str_eq_iff at j, str_eq_iff k j)

-- The headers of a hop that are not the stream's own: no Content-Length, and of the others only what the writer
-- had before; and of the rest what the writer had, with the answer's behind it.
pub record IsFiltered (written header out : Header) : Type 0 where
  pub no_length : lookup "Content-Length" out ≡ none
  pub no_hop :
      (j : String)
      → contains hop_by_hop_headers j ≡ true
      → str_eq "Content-Length" j ≡ false
      → lookup j out ≡ lookup j written
  pub passed_on :
      (j : String)
      → contains hop_by_hop_headers j ≡ false
      → values j out ≡ values j written ++ values j header

stream_headers-IsFiltered :
    (written header : Header)
    → Distinct header
    → IsFiltered written header (stream_headers written header)
unfolding stream_headers
stream_headers-IsFiltered written header d =
    let copied = copy_headers written header in
    record {
      no_length = lookup-delete_header "Content-Length" "Content-Length" copied;
      no_hop = λ j hop other.
          lookup-delete_header "Content-Length" j copied
          ∙ rw other (lookup-copy_headers_hop j written header hop);
      passed_on = λ j plain.
          let other : str_eq "Content-Length" j ≡ false = not_hop j plain in
          ap values_or_nil (
            lookup-delete_header "Content-Length" j copied
            ∙ ap (λ (b : Bool). if b then none else lookup j copied) other)
          ∙ values-copy_headers j written header plain d;
    }
  where
    not_hop :
        (j : String) → contains hop_by_hop_headers j ≡ false → str_eq "Content-Length" j ≡ false
    not_hop j plain = elim (Bool-cases (str_eq "Content-Length" j)) [
      | inl same ↦
          let impossible : true ≡ false =
            ap (contains hop_by_hop_headers) ((str_eq_iff "Content-Length" j).0 same) ∙ plain in
          cc
      | inr other ↦ other
    ]

module _ (encoder : ProblemEncoder) (taken : List Bool) (u : HttpUpstream) (w : Writer) where
  -- The writer that the client has got, from an answer that has begun.
  after_proxy_written :
      (tw : TrackingWriter) (p : Proxied) → tw.written ≡ true → after_proxy encoder tw p ≡ tw.writer
  unfolding after_proxy
  after_proxy_written tw an_error h = rw h refl
  after_proxy_written tw open_stream h = refl
  after_proxy_written tw no_error h = refl
  after_proxy_written tw a_panic h = refl

  started : StreamResponse → TrackingWriter
  started resp =
      start_stream resp (record { writer = w; written = false; status_code = 0; taken = taken })

  delivery :
      (resp : StreamResponse)
      → IsDelivered resp.reads (started resp) (stream_copy resp.reads (started resp))
  unfolding started start_stream with_headers track_header write_header
  delivery resp = stream_copy-IsDelivered resp.reads (started resp) _ refl refl

  streamed :
      (resp : StreamResponse)
      → writable resp.status ≡ true
      → (handle_streaming encoder true (answered resp) taken (u ∷ []) w).1
        ≡ (stream_copy resp.reads (started resp)).0.writer
  unfolding handle_streaming proxy proxy_answer started start_stream with_headers track_header
  streamed resp ok = rw ok (
      after_proxy_written (stream_copy resp.reads (started resp)).0
        (proxied_as (stream_copy resp.reads (started resp)).1) ((delivery resp).keeps_written))

  -- A client that gets an upstream's answer: its status and headers, and all of its body, or, where a
  -- write to the client has failed, a first part of it.
  pub record IsStreamed (resp : StreamResponse) (out : Writer) : Type 0 where
    pub headers : Header
    pub part : List ℕ
    pub missing : List ℕ
    pub is_sent : out.sent ≡ some (resp.status, headers)
    pub is_filtered : IsFiltered w.headers resp.header headers
    pub has_body : out.body ≡ w.body ++ part
    pub is_part : part ++ missing ≡ delivered resp.reads
    pub is_all : (missing ≡ []) ⊎ (all_taken taken ≡ false)

  -- A flow that streams, whose upstream answers and whose plugins pass: the client gets the status of the
  -- answer; its headers, behind those of the writer, but for those of the hop, of which only the
  -- writer's are left, and with no Content-Length; and the bytes that the upstream's reads bring, in
  -- order, all of them unless a write to the client fails, and then a first part. Nothing must be sent before,
  -- the status is one that can be written (100 to 999), and no name stands twice in the answer's headers.
  pub handle_streaming-IsStreamed :
      (resp : StreamResponse)
      → w.sent ≡ none
      → writable resp.status ≡ true
      → Distinct resp.header
      → IsStreamed resp (handle_streaming encoder true (answered resp) taken (u ∷ []) w).1
  unfolding started start_stream with_headers track_header write_header
  handle_streaming-IsStreamed resp unsent ok d =
      let got = delivery resp in
      rw (streamed resp ok) (record {
        headers = stream_headers w.headers resp.header;
        part = got.part;
        missing = got.missing;
        is_sent = got.keeps_sent ∙ rw unsent refl;
        is_filtered = stream_headers-IsFiltered w.headers resp.header d;
        has_body = got.has_body;
        is_part = got.is_part;
        is_all = elim got.is_all [
          | inl whole ↦ inl whole
          | inr failed ↦ inr (stream_copy-failed resp.reads _ failed)
        ];
      })

-- A stream with a regular end in the place of an error.
abbrev closing_end : Option End → Option End
closing_end none = none
closing_end (some e) = some eof

pub closing : Read → Read
closing r = record { chunk = r.chunk; end = closing_end r.end }

abbrev is_answered : Reached → Bool
is_answered not_built = false
is_answered not_reached = false
is_answered (answered resp) = true

-- A flow that streams and has one upstream whose answer does not come, or whose plugins fail, or which has not
-- exactly one upstream: the client gets a problem document and nothing else, with 502 in the first case
-- and 500 in the others.
handle_streaming_fails :
    (encoder : ProblemEncoder) (plugins_pass : Bool) (reached : Reached) (taken : List Bool)
    (us : List HttpUpstream) (w : Writer)
    → (length us == 1 && (plugins_pass && is_answered reached)) ≡ false
    → (handle_streaming encoder plugins_pass reached taken us w).1 ≡ (
        if length us == 1 && plugins_pass
        then write_error_to encoder upstream_unavailable 502 w
        else write_error_to encoder internal_error 500 w)
unfolding handle_streaming proxy proxy_answer after_proxy
handle_streaming_fails encoder plugins_pass reached taken [] w h = refl
handle_streaming_fails encoder plugins_pass reached taken (u ∷ v ∷ us) w h = ground arith
handle_streaming_fails encoder false reached taken (u ∷ []) w h = refl
handle_streaming_fails encoder true not_built taken (u ∷ []) w h = refl
handle_streaming_fails encoder true not_reached taken (u ∷ []) w h = refl
handle_streaming_fails encoder true (answered resp) taken (u ∷ []) w h = cc
