-- ===== src/Irc/Client/Process/Safety.antt =====
-- Which messages make `procMessage` index past the parameters.
use suda_gureum.Base.{
  ℕ, ◌≡◌, refl, ◌↔◌, ◌<◌, Bool, true, false, Option, none, some, ltb, if◌then◌else◌, length, Bytes,
  bytes_eq, bytes_eq_iff, codes, arith,
}
use suda_gureum.Base.AssocMap.{find}
use suda_gureum.Base.Boost.{Boost}
use suda_gureum.Irc.Client.Modes.{Looped, ended, threw}
use suda_gureum.Irc.Client.Process.{
  at, with_at, with_channel, proc_error, proc_ping, proc_notice, proc_privmsg, proc_welcome,
  proc_nickname_error, proc_join, proc_part, proc_mode, proc_no_topic, proc_topic,
  proc_topic_setter, proc_names, proc_message, looped,
}
use suda_gureum.Irc.Client.State.{Client, Channel, Handled, returned, raised, undefined}
use suda_gureum.Irc.Client.Support.{proc_isupport}
use suda_gureum.Irc.Message.{Message}

abbrev pub is_undefined : Handled → Bool
is_undefined undefined = true
is_undefined _ = false

-- The parameters that the branch of a command indexes without a test.
abbrev pub indexed : Bytes → ℕ
indexed command =
    if bytes_eq command (codes "NOTICE")
    then 2
    else if bytes_eq command (codes "PRIVMSG")
    then 2
    else if bytes_eq command (codes "001")
    then 1
    else if bytes_eq command (codes "005")
    then 2
    else 0

defined-with_at :
    (i : ℕ) (m : Message) (c : Client) (k : Bytes → Handled)
    → ((p : Bytes) → is_undefined (k p) ≡ false)
    → is_undefined (with_at i m c k) ≡ false
defined-with_at i m c k h = go (at i m.params)
  where
    go : (o : Option Bytes) → is_undefined (elim o [ none ↦ raised c | some p ↦ k p ]) ≡ false
    go none = refl
    go (some p) = h p

module _ (boost : Boost) where
  defined-with_channel :
      (name : Bytes) (c : Client) (k : Channel → Handled)
      → ((ch : Channel) → is_undefined (k ch) ≡ false)
      → is_undefined (with_channel boost name c k) ≡ false
  defined-with_channel name c k h = go (find _ name c.channels)
    where
      go : (o : Option Channel) → is_undefined (elim o [ none ↦ returned c | some p ↦ k p ]) ≡ false
      go none = refl
      go (some p) = h p

  defined-looped :
      (name : Bytes) (l : Looped) (c : Client) → is_undefined (looped boost name l c) ≡ false
  defined-looped name (ended ps) c = refl
  defined-looped name (threw ps) c = refl

  defined-mode : (m : Message) (c : Client) → is_undefined (proc_mode boost m c) ≡ false
  unfolding proc_mode
  defined-mode m c =
      defined-with_at 0 m c _
        (λ to. ground (arith, defined-with_channel to c, defined-with_at 1 m c, defined-looped to))

  defined-join : (m : Message) (c : Client) → is_undefined (proc_join boost m c) ≡ false
  unfolding proc_join
  defined-join m c = ground arith

  defined-part : (m : Message) (c : Client) → is_undefined (proc_part boost m c) ≡ false
  unfolding proc_part
  defined-part m c = ground arith

  defined-topics :
      (now : ℕ) (m : Message) (c : Client)
      → (is_undefined (proc_no_topic boost now m c) ≡ false)
        × (is_undefined (proc_topic boost m c) ≡ false)
        × (is_undefined (proc_topic_setter boost m c) ≡ false)
  unfolding proc_no_topic proc_topic proc_topic_setter
  defined-topics now m c = (ground arith, ground arith, ground arith)

  defined-names : (m : Message) (c : Client) → is_undefined (proc_names boost m c) ≡ false
  unfolding proc_names
  defined-names m c = ground arith

  undefined-indexed :
      (now : ℕ) (m : Message) (c : Client)
      → is_undefined (proc_message boost now m c) ≡ ltb (length m.params) (indexed m.command)
  unfolding proc_message proc_notice proc_privmsg proc_welcome proc_isupport proc_error proc_ping
      proc_nickname_error
  undefined-indexed now m c = ground (
    arith,
    defined-join m c,
    defined-part m c,
    defined-mode m c,
    defined-topics now m c,
    defined-names m c,
    bytes_eq_iff m.command (codes "ERROR"),
    bytes_eq_iff m.command (codes "JOIN"),
    bytes_eq_iff m.command (codes "MODE"),
    bytes_eq_iff m.command (codes "NOTICE"),
    bytes_eq_iff m.command (codes "PART"),
    bytes_eq_iff m.command (codes "PING"),
    bytes_eq_iff m.command (codes "PRIVMSG"),
    bytes_eq_iff m.command (codes "001"),
    bytes_eq_iff m.command (codes "005"),
  )

  pub proc_message-undefined_iff :
      (now : ℕ) (m : Message) (c : Client)
      → (proc_message boost now m c ≡ undefined) ↔ (length m.params < indexed m.command)
  unfolding proc_message
  proc_message-undefined_iff now m c = ground (arith, undefined-indexed now m c)
