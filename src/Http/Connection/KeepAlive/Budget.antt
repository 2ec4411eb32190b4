-- ===== src/Http/Connection/KeepAlive/Budget.antt =====
-- A connection stays within the count it begins with.
use suda_gureum.Base.{
  ℕ, ◌+◌, ◌*◌, ◌≡◌, ◌≤◌, ◌<◌, refl, ◌∙◌, Bool, true, false, inl, inr, Bool-cases, Option-cases,
  List, [], ◌∷◌, All, Bytes, arith,
}
use suda_gureum.Http.Connection.Reads.{
  after_message, Call, calls, completes, Ran, returned, threw, run, message_complete,
}
use suda_gureum.Http.Connection.Requests.{
  Answer, answered, raised, wants_web_socket, wants_keep_alive, has_timeout, plain_request,
}
use suda_gureum.Http.Connection.{Environment, Connection, count_down, send_raw, send_response}
use suda_gureum.Http.Parser.{Info, Request, request_of}
use suda_gureum.Http.Connection.Answers.{
  message_complete-unread, counted, message_complete-IsPlain, IsPlain, sent_for, kept, last,
  plain_request-kept, plain_request-raised, plain_request-last,
}
use suda_gureum.Http.Parser.Flags.{request_of-upgrade}
use suda_gureum.Socket.Given.{given, async_write-given, emplace_back-given}
use suda_gureum.Socket.{emplace_back, async_write}
use suda_gureum.Http.Connection.KeepAlive.{HasNoUpgrade, InBudget}

pub send_response-given :
    (r : Bytes × Bytes) (c : Connection) → given (send_response r c).writer ≡ given c.writer + 2
unfolding send_response send_raw
send_response-given (head, body) c = omega (
  arith,
  emplace_back-given head 0 c.writer,
  async_write-given (emplace_back head 0 c.writer),
  emplace_back-given body 0 (async_write (emplace_back head 0 c.writer)),
  async_write-given (emplace_back body 0 (async_write (emplace_back head 0 c.writer))),
)

-- The connection within a read.
pub record Within (max : ℕ) (c : Connection) : Type 0 where
  pub size_t : c.keep_alive_count < 18446744073709551616
  pub no_web_socket : c.upgrade_web_socket ≡ false
  pub idle : c.read_pending ≡ false
  pub budget : InBudget max c

abbrev AnswerWithin : ℕ → Answer → Type 0
AnswerWithin max (raised d) = Within max d
AnswerWithin max (answered goes_on d) = Within max d × (goes_on ≡ true → d.continue_read ≡ true)

abbrev pub RanWithin : ℕ → Ran → Type 0
RanWithin max (threw d) = Within max d
RanWithin max (returned upgrade at d) = Within max d

module _ (env : Environment) where
  kept-Within :
      (max count : ℕ) (r : Request) (c : Connection)
      → count < 18446744073709551616
      → c.keep_alive_count ≡ count_down count
      → c.upgrade_web_socket ≡ false
      → c.read_pending ≡ false
      → c.continue_read ≡ true
      → given c.writer + 2 * count ≤ 2 * max
      → wants_keep_alive env count r ≡ true
      → AnswerWithin max (answered true (kept env count r c))
  unfolding send_response send_raw
  kept-Within max count r c size counted no_web_socket idle on budget k = (
    record {
      size_t = ground (arith, size, counted);
      no_web_socket = no_web_socket;
      idle = idle;
      budget =
          ground (
            arith,
            size,
            counted,
            on,
            budget,
            k,
            send_response-given (sent_for env true count r) c,
          );
    },
    λ _. on,
  )

  last-Within :
      (max count : ℕ) (r : Request) (c : Connection)
      → c.keep_alive_count ≡ count_down count
      → c.upgrade_web_socket ≡ false
      → c.read_pending ≡ false
      → given c.writer + 2 * count ≤ 2 * max
      → AnswerWithin max (answered false (last env count r c))
  unfolding send_response send_raw
  last-Within max count r c counted no_web_socket idle budget = (
    record {
      size_t = ground (arith, counted);
      no_web_socket = no_web_socket;
      idle = idle;
      budget = ground (arith, budget, send_response-given (sent_for env false count r) c);
    },
    λ goes_on. absurd (ground (arith, goes_on)),
  )

  plain_request-Within :
      (max count : ℕ) (r : Request) (c : Connection)
      → count < 18446744073709551616
      → c.keep_alive_count ≡ count_down count
      → c.upgrade_web_socket ≡ false
      → c.read_pending ≡ false
      → c.continue_read ≡ true
      → given c.writer + 2 * count ≤ 2 * max
      → AnswerWithin max (plain_request env count r c)
  plain_request-Within max count r c size counted no_web_socket idle on budget =
      elim (Bool-cases (wants_keep_alive env count r)) [
        | inl k ↦ elim (Bool-cases (has_timeout env env.keep_alive_timeout)) [
          | inl has ↦
              rw (plain_request-kept env count r c has k)
                (kept-Within max count r c size counted no_web_socket idle on budget k)
          | inr lacks ↦ rw (plain_request-raised env count r c lacks k) (record {
            size_t = ground (arith, size, counted);
            no_web_socket = no_web_socket;
            idle = idle;
            budget = ground (arith, size, counted, on, budget, k);
          })
        ]
        | inr k ↦
            rw (plain_request-last env count r c k)
              (last-Within max count r c counted no_web_socket idle budget)
      ]

  NoUpgrade-IsPlain : (r : Request) → r.upgrade ≡ false → IsPlain env r
  unfolding wants_web_socket
  NoUpgrade-IsPlain r h = ground (arith, h)

  message_complete-Within :
      (max : ℕ) (info : Info) (c : Connection)
      → info.upgrade ≡ false
      → c.continue_read ≡ true
      → Within max c
      → AnswerWithin max (message_complete env info c)
  message_complete-Within max info c none_wanted on v =
      elim (Option-cases (request_of env.boost env.numbers info c.parser.request)) [
        | inl unread ↦ rw (message_complete-unread env info c unread) (
          record {
            size_t = v.size_t;
            no_web_socket = v.no_web_socket;
            idle = v.idle;
            budget = v.budget;
          },
          λ goes_on. on,
        )
        | inr (r, is_read) ↦
            rw
              (message_complete-IsPlain env info c r is_read (
                NoUpgrade-IsPlain r (
                  request_of-upgrade env.boost env.numbers info c.parser.request r is_read
                  ∙ none_wanted)))
              (plain_request-Within max c.keep_alive_count r (counted env c) v.size_t refl
                v.no_web_socket v.idle on (ground (arith, v.budget, on)))
      ]

  after_message-Within :
      (max : ℕ) (info : Info) (e : ℕ) (rest : Connection → Ran) (a : Answer)
      → AnswerWithin max a
      → ((d : Connection) → d.continue_read ≡ true → Within max d → RanWithin max (rest d))
      → RanWithin max (after_message env rest info e a)
  after_message-Within max info e rest (raised d) h on = h
  after_message-Within max info e rest (answered true d) (w, keeps) on = on d (keeps refl) w
  after_message-Within max info e rest (answered false d) (w, keeps) on = w

  pub run-Within :
      (max : ℕ) (cs : List Call) (upgrade : Bool) (at : ℕ) (c : Connection)
      → All HasNoUpgrade cs
      → c.continue_read ≡ true
      → Within max c
      → RanWithin max (run env cs upgrade at c)
  unfolding run
  run-Within max [] upgrade at c plain on v = v
  run-Within max (calls cb ∷ cs) upgrade at c (_, plain) on v =
      run-Within max cs upgrade at _ plain on (record {
        size_t = v.size_t;
        no_web_socket = v.no_web_socket;
        idle = v.idle;
        budget = v.budget;
      })
  run-Within max (completes info e ∷ cs) upgrade at c (h, plain) on v =
      after_message-Within max info e (run env cs upgrade at) (message_complete env info c)
        (message_complete-Within max info c h on v)
        (λ d on_d w. run-Within max cs upgrade at d plain on_d w)
