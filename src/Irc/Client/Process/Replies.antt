-- ===== src/Irc/Client/Process/Replies.antt =====
-- What the client answers: PONG to every PING, and the next nickname when one is refused.
use mathlib.Core.List.{flatten}
use mathlib.Core.Path.{subst}
use suda_gureum.Base.{
  ℕ, ◌+◌, ◌≡◌, refl, ◌∙◌, sym, ap, Bool, true, false, ◌||◌, List, [], ◌∷◌, ◌++◌, map, append_assoc,
  append-nil, drop, length, Bytes, bytes_eq, bytes_eq_iff, codes, All, arith,
}
use suda_gureum.Base.Boost.{Boost}
use suda_gureum.Irc.Client.Commands.{
  send_message, try_next_nickname, with_candidate, close, set_nickname,
}
use suda_gureum.Irc.Client.Process.{
  proc_message, proc_messages, proc_ping, proc_nickname_error, parsed, handle_read,
}
use suda_gureum.Irc.Client.State.{Client, returned}
use suda_gureum.Irc.Client.Writer.Order.{queued, Filled, write-push}
use suda_gureum.Irc.Message.{Message, command_message, wire}
use suda_gureum.Irc.Parser.Wire.{IsWirable, parse-wires}
use suda_gureum.Irc.Parser.{initial, parse}

abbrev pub IsPing : Message → Type 0
IsPing m = m.command ≡ codes "PING"

abbrev pub pong : Message → Message
pong m = command_message (codes "PONG") m.params

abbrev pongs : List Message → Client → Client
pongs [] c = c
pongs (m ∷ ms) c = pongs ms (send_message (pong m) c)

module _ (boost : Boost) (now : ℕ) where
  proc_messages-pings :
      (ms : List Message) (c : Client)
      → All IsPing ms
      → proc_messages boost now ms c ≡ returned (pongs ms c)
  unfolding proc_messages proc_message proc_ping
  proc_messages-pings [] c h = refl
  proc_messages-pings (m ∷ ms) c (hm, h) =
      rw hm (proc_messages-pings ms (send_message (pong m) c) h)

  pongs-queued :
      (ms : List Message) (c : Client)
      → Filled c.writer
      → queued (pongs ms c).writer ≡ queued c.writer ++ map (λ m. wire (pong m)) ms
  unfolding send_message
  pongs-queued [] c h = sym (append-nil _)
  pongs-queued (m ∷ ms) c h =
      let (one, filled) = write-push (pong m) c.writer h in
      pongs-queued ms (send_message (pong m) c) filled
      ∙ ap (λ xs. xs ++ map (λ x. wire (pong x)) ms) one
      ∙ append_assoc (queued c.writer) (wire (pong m) ∷ []) (map (λ x. wire (pong x)) ms)

  -- A read of PING messages as encodeMessage writes them, the last parameter behind a colon, each
  -- of the form that can be read back, without CR and LF in its encoded text, which has at most
  -- 4096 bytes, at a parser ready for a new message and a buffer of non-empty strings: a PONG for
  -- each, in order and with its parameters, is sent behind everything sent before, and the client
  -- goes on reading, its parser ready for a new message.
  pub handle_read-wire_pings :
      (ms : List Message) (c : Client)
      → c.parser ≡ initial
      → Filled c.writer
      → All IsWirable ms
      → All IsPing ms
      → (d : Client) × (handle_read boost now false (flatten (map wire ms)) c ≡ returned d)
        × (queued d.writer ≡ queued c.writer ++ map (λ m. wire (pong m)) ms)
        × (d.read_pending ≡ true)
        × (d.parser ≡ initial)
  unfolding handle_read parsed
  handle_read-wire_pings ms c e filled wirable pings =
      let delivered : parse boost c.parser (flatten (map wire ms))
          ≡ record { parser = initial; messages = ms; accepted = true } =
        ap (λ p. parse boost p (flatten (map wire ms))) e ∙ parse-wires boost ms wirable in
      (
        record (pongs ms c) { parser = initial; read_pending = true },
        rw (delivered, proc_messages-pings ms c pings),
        pongs-queued ms c filled,
        refl,
        refl,
      )

-- `ERR_ERRONEOUSNICKNAME`, `ERR_NICKNAMEINUSE`, `ERR_NICKCOLLISION` and `ERR_UNAVAILRESOURCE`
abbrev pub is_refusal : Bytes → Bool
is_refusal command =
    bytes_eq command (codes "432")
    || bytes_eq command (codes "433")
    || bytes_eq command (codes "436")
    || bytes_eq command (codes "437")

-- The nickname in use, or the client closing when no candidate is left.
abbrev pub Settled : List Bytes → Client → Type 0
Settled [] d = (d.quit_ready ≡ true) × (d.close_timer_pending ≡ true)
Settled (nickname ∷ nicknames) d = d.nickname ≡ nickname

module _ (boost : Boost) (now : ℕ) where
  proc_message-refusal :
      (m : Message) (c : Client)
      → is_refusal m.command ≡ true
      → c.connect_beginning ≡ true
      → proc_message boost now m c ≡ returned (try_next_nickname c)
  unfolding proc_message proc_nickname_error
  proc_message-refusal m c h e = ground (
    arith,
    bytes_eq_iff m.command (codes "ERROR"),
    bytes_eq_iff m.command (codes "JOIN"),
    bytes_eq_iff m.command (codes "MODE"),
    bytes_eq_iff m.command (codes "NOTICE"),
    bytes_eq_iff m.command (codes "PART"),
    bytes_eq_iff m.command (codes "PING"),
    bytes_eq_iff m.command (codes "PRIVMSG"),
    bytes_eq_iff m.command (codes "001"),
    bytes_eq_iff m.command (codes "005"),
    bytes_eq_iff m.command (codes "331"),
    bytes_eq_iff m.command (codes "332"),
    bytes_eq_iff m.command (codes "333"),
    bytes_eq_iff m.command (codes "353"),
    bytes_eq_iff m.command (codes "432"),
    bytes_eq_iff m.command (codes "433"),
    bytes_eq_iff m.command (codes "436"),
    bytes_eq_iff m.command (codes "437"),
  )

  try_next_nickname-Settled :
      (c : Client)
      → Settled (drop (c.current_nickname_index + 1) c.nickname_candidates) (try_next_nickname c)
  unfolding try_next_nickname with_candidate close set_nickname send_message
  try_next_nickname-Settled c = go (drop (c.current_nickname_index + 1) c.nickname_candidates) _
    where
      go : (ns : List Bytes) (d : Client) → Settled ns (with_candidate ns d)
      go [] d = (refl, refl)
      go (n ∷ ns) d = refl

  -- The attempts go on from the next index.
  try_next_nickname-kept :
      (c : Client)
      → ((try_next_nickname c).connect_beginning ≡ c.connect_beginning)
        × ((try_next_nickname c).nickname_candidates ≡ c.nickname_candidates)
        × ((try_next_nickname c).current_nickname_index ≡ c.current_nickname_index + 1)
  unfolding try_next_nickname with_candidate close set_nickname send_message
  try_next_nickname-kept c = go (drop (c.current_nickname_index + 1) c.nickname_candidates) _
    where
      go :
          (ns : List Bytes) (d : Client)
          → ((with_candidate ns d).connect_beginning ≡ d.connect_beginning)
            × ((with_candidate ns d).nickname_candidates ≡ d.nickname_candidates)
            × ((with_candidate ns d).current_nickname_index ≡ d.current_nickname_index)
      go [] d = (refl, refl, refl)
      go (n ∷ ns) d = (refl, refl, refl)

  -- While the client connects, each refusal moves it one candidate on: after `n` refusals, one at
  -- least, its nickname is the candidate `n` places further, and when there is none it closes.
  pub proc_messages-refusals :
      (m : Message) (ms : List Message) (c : Client)
      → c.connect_beginning ≡ true
      → All (λ x. is_refusal x.command ≡ true) (m ∷ ms)
      → (d : Client) × (proc_messages boost now (m ∷ ms) c ≡ returned d)
        × Settled (drop (c.current_nickname_index + length (m ∷ ms)) c.nickname_candidates) d
  unfolding proc_messages
  proc_messages-refusals m [] c e (h, hs) =
      (try_next_nickname c, rw (proc_message-refusal m c h e), try_next_nickname-Settled c)
  proc_messages-refusals m (x ∷ xs) c e (h, hs) =
      let (still, same, step) = try_next_nickname-kept c in
      let (d, run, settled) = proc_messages-refusals x xs (try_next_nickname c) (still ∙ e) hs in
      (
        d,
        rw (proc_message-refusal m c h e, run),
        subst (λ ds. Settled ds d) (there same step) settled,
      )
    where
      there :
          (try_next_nickname c).nickname_candidates ≡ c.nickname_candidates
          → (try_next_nickname c).current_nickname_index ≡ c.current_nickname_index + 1
          → drop
              ((try_next_nickname c).current_nickname_index + length (x ∷ xs))
              (try_next_nickname c).nickname_candidates
            ≡ drop (c.current_nickname_index + length (m ∷ x ∷ xs)) c.nickname_candidates
      there same step = ground (arith, same, step)
