-- ===== src/Examples/Streaming.antt =====
-- A stream of three reads, of which the last breaks off.
use aastro.Prelude.{refl, true, false, List, [], ◌∷◌, none, some, lookup}
use aastro.Upstream.{round_robin}
use aastro.Middlewares.{Writer}
use aastro.Router.{writable}
use aastro.Streaming.{Read, broken, other_error, StreamResponse, answered, handle_streaming}
use aastro.Streaming.Serve.{IsStreamed, handle_streaming-IsStreamed}
use aastro.Examples.Upstreams.{upstream}
use aastro.Examples.Responses.{encoder}

abbrev writer : Writer
writer = record { headers = []; sent = none; body = [] }

abbrev reads : List Read
reads =
    record { chunk = 1 ∷ 2 ∷ []; end = none }
    ∷ record { chunk = 3 ∷ []; end = none }
    ∷ record { chunk = []; end = some (broken other_error) }
    ∷ []

abbrev resp : StreamResponse
resp = record {
  status = 200;
  header = ("Connection", "close" ∷ []) ∷ ("Etag", "7" ∷ []) ∷ [];
  reads = reads;
}

handle_streaming-IsStreamed_example :
    IsStreamed encoder
      (true ∷ false ∷ [])
      (upstream round_robin none)
      writer
      resp
      (handle_streaming encoder true
        (answered resp)
        (true ∷ false ∷ [])
        (upstream round_robin none ∷ [])
        writer).1
unfolding lookup writable
handle_streaming-IsStreamed_example =
    handle_streaming-IsStreamed encoder (true ∷ false ∷ []) (upstream round_robin none) writer resp
      refl refl (refl, (refl, tt))
