-- ===== src/Http/Connection/Answers.antt =====
-- What the requests of a read ask for: the requests that the calls bring, and the answers to them.
pub mod InOrder
use mathlib.Core.Path.{subst}
use suda_gureum.Base.{
  ℕ, ◌≡◌, refl, sym, ap, ◌∙◌, Bool, true, false, ◌&&◌, inl, inr, Bool-cases, Option-cases, List, [],
  ◌∷◌, ◌++◌, append_assoc, append-nil, Option, none, some, if◌then◌else◌, All, Bytes, is_empty,
  arith,
}
use suda_gureum.Http.Connection.Reads.{
  message_complete, Call, calls, completes, Ran, returned, threw, run, message_complete,
}
use suda_gureum.Http.Connection.Requests.{
  Answer, answered, raised, wants_web_socket, proc_http_request, plain_request, answered, answer_of,
  wants_keep_alive, has_timeout, plain_request, proc_http_request,
}
use suda_gureum.Http.Connection.{
  Environment, Connection, count_down, send_raw, send_response, set_keep_alive_timeout,
  set_keep_alive_timeout,
}
use suda_gureum.Http.Parser.{Info, Parser, Info, Request, no_request, callback, request_of}
use suda_gureum.Http.Response.{response_to}
use suda_gureum.Socket.{Entry, BufferedWriter, emplace_back, write_front, async_write}

pub async_write-buffer_to_write :
    (w : BufferedWriter) → (async_write w).buffer_to_write ≡ w.buffer_to_write
unfolding async_write write_front
async_write-buffer_to_write w = ground arith

pub send_response-buffer_to_write :
    (r : Bytes × Bytes) (c : Connection)
    → (send_response r c).writer.buffer_to_write
      ≡ c.writer.buffer_to_write ++ (r.0, 0) ∷ (r.1, 0) ∷ []
unfolding send_response send_raw emplace_back
send_response-buffer_to_write (head, body) c = ground (
  arith,
  async_write-buffer_to_write (emplace_back head 0 c.writer),
  async_write-buffer_to_write (emplace_back body 0 (async_write (emplace_back head 0 c.writer))),
  append_assoc c.writer.buffer_to_write ((head, 0) ∷ []) ((body, 0) ∷ []),
)

pub send_response-continue_read :
    (r : Bytes × Bytes) (c : Connection) → (send_response r c).continue_read ≡ c.continue_read
unfolding send_response send_raw
send_response-continue_read r c = refl

module _ (env : Environment) where
  -- The requests that the calls bring to a parser; `none` when one cannot be read.
  abbrev pub add_request : Request → Option (List Request) → Option (List Request)
  add_request r none = none
  add_request r (some rs) = some (r ∷ rs)

  unfoldable pub requests_of : List Call → Parser → Option (List Request)
  requests_of [] p = some []
  requests_of (calls cb ∷ cs) p = requests_of cs (callback env.boost cb p)
  requests_of (completes info at ∷ cs) p =
      let rest : Option (List Request) = requests_of cs (record p { request = no_request }) in
      elim (request_of env.boost env.numbers info p.request) [
        | none ↦ none
        | some r ↦ add_request r rest
      ]

  -- No request for WebSocket.
  abbrev pub IsPlain : Request → Type 0
  IsPlain r = wants_web_socket env r ≡ some false

  -- What is queued for the requests of a connection that may answer so many more: head and body of
  -- each, up to the first that is the last one.
  unfoldable pub answers : ℕ → List Request → List Entry
  answers count [] = []
  answers count (r ∷ rs) =
      let rest : List Entry = answers (count_down count) rs in
      let keep_alive : Bool = wants_keep_alive env count r in
      let sent : Bytes × Bytes =
        response_to env.boost env.zlib env.date r (answer_of env keep_alive count r) in
      (sent.0, 0) ∷ (sent.1, 0) ∷ (if keep_alive then rest else [])

  -- Whether all are kept alive.
  pub all_kept : ℕ → List Request → Bool
  all_kept count [] = true
  all_kept count (r ∷ rs) =
      let rest : Bool = all_kept (count_down count) rs in wants_keep_alive env count r && rest

  -- The run returns, with the answers queued behind what was queued before, and the connection
  -- reads on if all are kept alive.
  abbrev pub Answers : ℕ → List Request → Connection → Ran → Type 0
  Answers count rs c (threw d) = ⊥
  Answers count rs c (returned upgrade at d) =
      (d.writer.buffer_to_write ≡ c.writer.buffer_to_write ++ answers count rs)
      × (d.continue_read ≡ (c.continue_read && all_kept count rs))

  -- The two strings sent for a request.
  abbrev pub sent_for : Bool → ℕ → Request → Bytes × Bytes
  sent_for keep_alive count r =
      response_to env.boost env.zlib env.date r (answer_of env keep_alive count r)

  abbrev pub kept : ℕ → Request → Connection → Connection
  kept count r c = set_keep_alive_timeout (send_response (sent_for true count r) c)

  abbrev pub last : ℕ → Request → Connection → Connection
  last count r c = record (send_response (sent_for false count r) c) { continue_read = false }

  pub plain_request-kept :
      (count : ℕ) (r : Request) (c : Connection)
      → has_timeout env env.keep_alive_timeout ≡ true
      → wants_keep_alive env count r ≡ true
      → plain_request env count r c ≡ answered true (kept count r c)
  unfolding plain_request
  plain_request-kept count r c has k = ground (arith, has, k)

  pub plain_request-raised :
      (count : ℕ) (r : Request) (c : Connection)
      → has_timeout env env.keep_alive_timeout ≡ false
      → wants_keep_alive env count r ≡ true
      → plain_request env count r c ≡ raised c
  unfolding plain_request
  plain_request-raised count r c lacks k = ground (arith, lacks, k)

  pub plain_request-last :
      (count : ℕ) (r : Request) (c : Connection)
      → wants_keep_alive env count r ≡ false
      → plain_request env count r c ≡ answered false (last count r c)
  unfolding plain_request
  plain_request-last count r c k = ground (arith, k)

  -- The connection when the callback for a message is called.
  abbrev pub counted : Connection → Connection
  counted c = record c {
    parser = record c.parser { request = no_request };
    keep_alive_count = count_down c.keep_alive_count;
  }

  pub message_complete-IsPlain :
      (info : Info) (c : Connection) (r : Request)
      → request_of env.boost env.numbers info c.parser.request ≡ some r
      → IsPlain r
      → message_complete env info c ≡ plain_request env c.keep_alive_count r (counted c)
  unfolding message_complete proc_http_request
  message_complete-IsPlain info c r h plain = ground (arith, h, plain)

  pub message_complete-unread :
      (info : Info) (c : Connection)
      → request_of env.boost env.numbers info c.parser.request ≡ none
      → message_complete env info c
        ≡ answered false (record c { parser = record c.parser { request = no_request } })
  unfolding message_complete
  message_complete-unread info c h = ground (arith, h)
