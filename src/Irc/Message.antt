-- ===== src/Irc/Message.antt =====
-- `IrcMessage` (IrcParser.h) and `encodeMessage` (IrcClient.cpp).
use suda_gureum.Base.{List, [], ◌∷◌, ◌++◌, if◌then◌else◌, Bytes, is_empty}

pub record Message : Type 0 where
  pub prefix : Bytes
  pub command : Bytes
  pub params : List Bytes

-- The constructors with a command and with its parameters.
abbrev pub command_message : Bytes → List Bytes → Message
command_message command params = record { prefix = []; command = command; params = params }

-- The loop over all parameters but the last, and the last behind a colon.
abbrev pub encode_params : Bytes → List Bytes → Bytes
encode_params p [] = b' ' ∷ b':' ∷ p
encode_params p (q ∷ qs) = b' ' ∷ (p ++ encode_params q qs)

abbrev pub encode_tail : List Bytes → Bytes
encode_tail [] = []
encode_tail (p ∷ ps) = encode_params p ps

abbrev pub encode_prefix : Bytes → Bytes
encode_prefix prefix = if is_empty prefix then [] else b':' ∷ (prefix ++ b' ' ∷ [])

unfoldable pub encode_message : Message → Bytes
encode_message m = encode_prefix m.prefix ++ (m.command ++ encode_tail m.params)

-- What `sendMessage` puts into the write buffer.
abbrev pub wire : Message → Bytes
wire m = encode_message m ++ b'\r' ∷ b'\n' ∷ []
