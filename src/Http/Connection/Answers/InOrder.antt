-- ===== src/Http/Connection/Answers/InOrder.antt =====
-- The answers to the requests of a read are queued in the order of the requests.
use mathlib.Core.Path.{subst}
use suda_gureum.Base.{
  ℕ, ◌≡◌, sym, Bool, true, false, inl, inr, Bool-cases, Option-cases, List, [], ◌∷◌, append_assoc,
  append-nil, some, All, arith,
}
use suda_gureum.Http.Connection.Reads.{Call, calls, completes, Ran, returned, threw, run}
use suda_gureum.Http.Connection.Requests.{wants_keep_alive, has_timeout}
use suda_gureum.Http.Connection.{Environment, Connection, count_down, send_response}
use suda_gureum.Http.Parser.{Parser, Info, Request, no_request, request_of}
use suda_gureum.Http.Connection.Answers.{
  send_response-buffer_to_write, send_response-continue_read, requests_of, IsPlain, sent_for, kept,
  last, counted, message_complete-IsPlain, plain_request-kept, plain_request-last, answers,
  all_kept, Answers,
}

module _ (env : Environment) where
  run-kept :
      (info : Info) (e : ℕ) (cs : List Call) (upgrade : Bool) (at : ℕ) (c : Connection)
      (r : Request)
      → request_of env.boost env.numbers info c.parser.request ≡ some r
      → IsPlain env r
      → has_timeout env env.keep_alive_timeout ≡ true
      → wants_keep_alive env c.keep_alive_count r ≡ true
      → run env (completes info e ∷ cs) upgrade at c
        ≡ run env cs upgrade at (kept env c.keep_alive_count r (counted env c))
  unfolding run
  run-kept info e cs upgrade at c r h plain has k = ground (
    arith,
    message_complete-IsPlain env info c r h plain,
    plain_request-kept env c.keep_alive_count r (counted env c) has k,
  )

  run-last :
      (info : Info) (e : ℕ) (cs : List Call) (upgrade : Bool) (at : ℕ) (c : Connection)
      (r : Request)
      → request_of env.boost env.numbers info c.parser.request ≡ some r
      → IsPlain env r
      → wants_keep_alive env c.keep_alive_count r ≡ false
      → run env (completes info e ∷ cs) upgrade at c
        ≡ returned info.upgrade e (last env c.keep_alive_count r (counted env c))
  unfolding run
  run-last info e cs upgrade at c r h plain k = ground (
    arith,
    message_complete-IsPlain env info c r h plain,
    plain_request-last env c.keep_alive_count r (counted env c) k,
  )

  -- Behind the answer to a request that is kept alive, those to the rest.
  Answers-kept :
      (c : Connection) (r : Request) (rs : List Request) (ran : Ran)
      → wants_keep_alive env c.keep_alive_count r ≡ true
      → Answers env
          (count_down c.keep_alive_count)
          rs
          (kept env c.keep_alive_count r (counted env c))
          ran
      → Answers env c.keep_alive_count (r ∷ rs) c ran
  unfolding answers all_kept
  Answers-kept c r rs (threw d) k h = h
  Answers-kept c r rs (returned upgrade at d) k h = ground (
    arith,
    k,
    h,
    append_assoc c.writer.buffer_to_write
        (((sent_for env true c.keep_alive_count r).0, 0)
          ∷ ((sent_for env true c.keep_alive_count r).1, 0)
          ∷ [])
        (answers env (count_down c.keep_alive_count) rs),
    send_response-buffer_to_write (sent_for env true c.keep_alive_count r) (counted env c),
    send_response-continue_read (sent_for env true c.keep_alive_count r) (counted env c),
  )

  Answers-last :
      (c : Connection) (r : Request) (rs : List Request) (upgrade : Bool) (at : ℕ)
      → wants_keep_alive env c.keep_alive_count r ≡ false
      → Answers env c.keep_alive_count
          (r ∷ rs)
          c
          (returned upgrade at (last env c.keep_alive_count r (counted env c)))
  unfolding answers all_kept
  Answers-last c r rs upgrade at k = ground (
    arith,
    k,
    send_response-buffer_to_write (sent_for env false c.keep_alive_count r) (counted env c),
  )

  -- The first message of the calls, and the calls behind it.
  record IsFirst (info : Info) (cs : List Call) (p : Parser) (rs : List Request) : Type 0 where
    pub first : Request
    pub others : List Request
    pub both : rs ≡ first ∷ others
    pub read_first : request_of env.boost env.numbers info p.request ≡ some first
    pub read_others : requests_of env cs (record p { request = no_request }) ≡ some others

  requests_of-completes :
      (info : Info) (e : ℕ) (cs : List Call) (p : Parser) (rs : List Request)
      → requests_of env (completes info e ∷ cs) p ≡ some rs
      → IsFirst info cs p rs
  unfolding requests_of
  requests_of-completes info e cs p rs h =
      elim (Option-cases (request_of env.boost env.numbers info p.request)) [
        | inl unread ↦ absurd (ground (arith, h, unread))
        | inr (r, is_read) ↦
            elim (Option-cases (requests_of env cs (record p { request = no_request }))) [
              | inl unread ↦ absurd (ground (arith, h, is_read, unread))
              | inr (others, are_read) ↦ record {
                first = r;
                others = others;
                both = ground (arith, h, is_read, are_read);
                read_first = is_read;
                read_others = are_read;
              }
            ]
      ]

  -- A read in which http-parser finds whole readable requests, none of them for WebSocket, where
  -- the timeout for keep-alive of the configuration can be read: the run returns; each request, up
  -- to the first that is not kept alive by the client or by the count, has its answer queued once,
  -- head and body, in the order of the requests and behind what was queued before; and the
  -- connection goes on reading only if all are kept alive.
  pub run-Answers :
      (cs : List Call) (upgrade : Bool) (at : ℕ) (c : Connection) (rs : List Request)
      → requests_of env cs c.parser ≡ some rs
      → All (IsPlain env) rs
      → has_timeout env env.keep_alive_timeout ≡ true
      → Answers env c.keep_alive_count rs c (run env cs upgrade at c)
  unfolding requests_of run answers all_kept send_response
  run-Answers [] upgrade at c [] h plain has = (sym (append-nil _), ground arith)
  run-Answers [] upgrade at c (r ∷ rs) h plain has = absurd (ground (arith, h))
  run-Answers (calls cb ∷ cs) upgrade at c rs h plain has =
      run-Answers cs upgrade at _ rs h plain has
  run-Answers (completes info e ∷ cs) upgrade at c rs h plain has =
      let f : IsFirst info cs c.parser rs = requests_of-completes info e cs c.parser rs h in
      let plains : All (IsPlain env) (f.first ∷ f.others) =
        subst (All (IsPlain env)) f.both plain in
      subst
        (λ rs. Answers env c.keep_alive_count rs c (run env (completes info e ∷ cs) upgrade at c))
        (sym f.both)
        (elim (Bool-cases (wants_keep_alive env c.keep_alive_count f.first)) [
          | inl k ↦
              subst (Answers env c.keep_alive_count (f.first ∷ f.others) c)
                (sym (run-kept info e cs upgrade at c f.first f.read_first plains.0 has k))
                (Answers-kept c f.first f.others
                  (run env cs upgrade at (kept env c.keep_alive_count f.first (counted env c))) k
                  (run-Answers cs upgrade at (kept env c.keep_alive_count f.first (counted env c))
                    f.others f.read_others plains.1 has))
          | inr k ↦
              subst (Answers env c.keep_alive_count (f.first ∷ f.others) c)
                (sym (run-last info e cs upgrade at c f.first f.read_first plains.0 k))
                (Answers-last c f.first f.others info.upgrade e k)
        ])
